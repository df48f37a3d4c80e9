-- ===== src/Transfers.antt =====
-- internal/noun/transfers/money.go: one money step of a run, from the consent to the recorded answer.
pub mod World
pub mod Perform
pub mod Follow
pub mod Broadcast
pub mod Resume
pub mod Begin
pub mod Body
pub mod Create
pub mod Invoke
pub mod Sends
pub mod Origin
pub mod Forward
mod Tests
mod FlowTests
