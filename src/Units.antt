-- ===== src/Units.antt =====
-- src/units: the systemd units, their ownership, and the plans that change them.
pub mod Templates
pub mod Manifest
pub mod Plan
pub mod Generate
pub mod Escape
