-- ===== src/Poll.antt =====
-- internal/poll: the one loop that follows a command to its end.
pub mod Body
pub mod Watch
mod Tests
