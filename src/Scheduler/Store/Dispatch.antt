-- ===== src/Scheduler/Store/Dispatch.antt =====
-- The dispatcher: it sends each due task once, and settles every task of the store.
pub mod Loop
pub mod Selection
pub mod Settled
pub mod Reachable
pub mod Ticks
