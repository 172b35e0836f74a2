-- ===== src/Tests.antt =====
-- The theorems at concrete inputs.
pub mod Units
pub mod Env
pub mod Session
pub mod App
pub mod Launch
pub mod Process
pub mod Lifetime
pub mod Bus
