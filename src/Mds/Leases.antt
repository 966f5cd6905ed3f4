-- ===== src/Mds/Leases.antt =====
-- The leases that Lookup gives and Uperm retires.
pub mod Find
pub mod Issue
pub mod Block
pub mod Safety
pub mod Change
pub mod Protocol
