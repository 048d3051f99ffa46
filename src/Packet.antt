-- ===== src/Packet.antt =====
-- The packet thread: userspace/daemon/packet.c, with the header pointers of an `nm_skb`.
pub mod Buffer
pub mod Handle
