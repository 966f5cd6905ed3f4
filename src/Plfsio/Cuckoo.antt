-- ===== src/Plfsio/Cuckoo.antt =====
-- The cuckoo filter of src/libdeltafs/plfsio/v1/cuckoo.cc.
pub mod Bits
pub mod Power
pub mod Table
pub mod Kept
pub mod Cells
pub mod Moves
pub mod Block
pub mod Filter
pub mod Bytes
pub mod Values
pub mod Search
pub mod Loop
pub mod Fresh
pub mod Added
pub mod Staged
pub mod More
pub mod Finished
pub mod Trailer
pub mod Matches
pub mod Stray
pub mod Overflow
