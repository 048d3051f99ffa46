-- ===== src/Record.antt =====
-- The statistics of the packets seen: userspace/daemon/vsecplat_record.c and
-- userspace/lib/nm_jhash.c.
pub mod Jhash
pub mod Table
pub mod Report
