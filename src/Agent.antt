-- ===== src/Agent.antt =====
-- The agent: the program that runs on each managed machine.
pub mod IpGuard
pub mod Files
pub mod Executor
pub mod Server
pub mod Startup
pub mod Audit
