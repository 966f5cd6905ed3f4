-- ===== src/Mds.antt =====
-- The metadata service.
pub mod Types
pub mod Db
pub mod Table
pub mod Laws
pub mod Server
pub mod Dirs
pub mod Handler
pub mod Enter
pub mod Read
pub mod Write
pub mod Frame
pub mod Quiet
pub mod Stored
pub mod Visible
pub mod Gone
pub mod Reload
pub mod Updated
pub mod Permitted
pub mod Isolation
pub mod Inodes
pub mod Sessions
pub mod Update
pub mod Perm
pub mod Rpc
pub mod Leases
