-- ===== src/Mds/Rpc.antt =====
-- The MDS interface over messages: src/libdeltafs/mds_api.cc.
pub mod Wire
pub mod Calls
pub mod Codec
pub mod Results
pub mod Peers
pub mod Requests
pub mod Answers
pub mod Transparent
pub mod Bounded
pub mod Server
pub mod Remote
