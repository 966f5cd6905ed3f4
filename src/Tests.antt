-- ===== src/Tests.antt =====
-- Runs of the definitions, and the theorems at concrete inputs.
pub mod Sample
pub mod Mds
pub mod Leases
pub mod Perm
pub mod Wire
pub mod Rpc
pub mod Plfsio
pub mod Cli
pub mod Client
pub mod Cuckoo
pub mod Bufio
pub mod Handles
