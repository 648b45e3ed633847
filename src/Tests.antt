-- ===== src/Tests.antt =====
-- Each property at a concrete input, and runs of the operations.
pub mod Buffers
pub mod Addresses
pub mod Statistics
pub mod Receiver
pub mod Sender
pub mod Safe
pub mod Requests
pub mod Stages
pub mod Answers
pub mod Modems
pub mod State
pub mod Scheduling
pub mod Buffered
pub mod Emissions
pub mod Collecting
