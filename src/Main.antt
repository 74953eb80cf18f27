-- ===== src/Main.antt =====
-- src/main.rs: the sources and tasks of a run, its event loop and the report behind it.
pub mod Setup
pub mod Loop
pub mod Finish
mod Runs
