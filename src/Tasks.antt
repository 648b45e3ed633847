-- ===== src/Tasks.antt =====
-- aether/tasks: the tasks of the scheduler, their queues, and the subscriptions that cancel them.
pub mod Queues
pub mod Links
pub mod Scheduler
