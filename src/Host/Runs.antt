-- ===== src/Host/Runs.antt =====
-- A one-shot run of a plugin (crates/agentmesh-host/src/run.rs): the steps of `execute_run_with`
-- before `finish`. A step may go on, leave for `finish` early, or panic.
pub mod Steps
pub mod Exchange
pub mod Finish
pub mod Sound
pub mod Outcomes
pub mod Closing
pub mod Answers
pub mod Reporting
pub mod Success
