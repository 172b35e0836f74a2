-- ===== src/Env.antt =====
-- src/env, src/filter.rs and src/varnames.rs: which variables are exported, unset and cleaned up.
pub mod Filter
pub mod Varnames
pub mod Delta
pub mod Files
pub mod Dump
