-- ===== src/Scheduler.antt =====
-- internal/scheduler: when tasks fire, the task store and the dispatcher.
pub mod Calendar
pub mod Schedule
pub mod Builder
pub mod Store
pub mod Tool
pub mod Tests
