-- ===== src/Actions.antt =====
-- aether/actions: the stages that a queue runs one after the other, the task that repeats, and the
-- pool that destroys the actions that finished.
pub mod Queue
pub mod Repeat
pub mod Pool
