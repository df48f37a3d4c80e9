-- ===== src/Outcome.antt =====
-- internal/outcome: the decision table that turns one answer into one action. The children hold its
-- vocabulary, the rows, the two classifiers, and what is proved of them.
pub mod Class
pub mod Operation
pub mod Input
pub mod Table
pub mod Answers
pub mod Classify
pub mod Command
mod Tests
