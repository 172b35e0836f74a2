-- ===== src/Session.antt =====
-- src/session: the checks before a start, the state files that a session's processes share, and the
-- processes.
pub mod Check
pub mod State
pub mod Steps
pub mod Stop
pub mod Start
pub mod Process
