-- ===== src/Policy.antt =====
-- The policy engine: userspace/daemon/vsecplat_policy.c.
pub mod Text
pub mod Objects
pub mod Rules
pub mod Store
pub mod Forward
pub mod Duplicates
pub mod Dispatch
pub mod Load
