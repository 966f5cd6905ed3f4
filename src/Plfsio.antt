-- ===== src/Plfsio.antt =====
-- The filters of plfsio, src/libdeltafs/plfsio/v1/filter.cc, and the handles of format.cc.
pub mod Bytewise
pub mod Bloom
pub mod Bitmap
pub mod Bufio
pub mod Compressed
pub mod Cuckoo
pub mod Delta
pub mod Handles
