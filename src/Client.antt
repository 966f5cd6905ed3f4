-- ===== src/Client.antt =====
-- The client library: src/libdeltafs/deltafs_client.cc.
pub mod Files
pub mod Slots
pub mod Closed
pub mod Reached
pub mod Paths
pub mod Clean
