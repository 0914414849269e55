-- ===== src/Tasks.antt =====
-- tasks.py: the datasets of a task, the coordinator of tasks, the dispatcher of the worker's job and
-- the throttle of writes.
pub mod Datasets
pub mod Throttle
pub mod Dispatch
pub mod Coordinator
