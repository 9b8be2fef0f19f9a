-- ===== src/Agent.antt =====
-- pkg/agent: the configuration of the agent and its main loop.
pub mod Config
pub mod Gather
pub mod Start
pub mod Run
pub mod Tests
pub mod RunTests
