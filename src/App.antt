-- ===== src/App.antt =====
-- src/app: desktop entries, and launching applications in units.
pub mod Naming
pub mod Field
pub mod Entry
pub mod Find
pub mod Terminal
pub mod Launch
pub mod Daemon
