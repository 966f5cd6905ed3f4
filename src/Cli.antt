-- ===== src/Cli.antt =====
-- The client of the metadata servers: src/libdeltafs/mds_cli.cc, mds_cli.h, util/lookup_cache.cc
-- and util/index_cache.cc.
pub mod State
pub mod Access
pub mod Redirect
pub mod Find
pub mod Resolve
pub mod Ops
pub mod Parents
pub mod Listing
pub mod Ends
pub mod Walk
pub mod Cached
