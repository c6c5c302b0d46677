-- ===== src/Agent.antt =====
-- internal/agent/main: the agent that works on the todo queue.
pub mod History
pub mod Prompt
pub mod Loop
mod Tests
