-- ===== src/Examples.antt =====
-- The theorems at concrete inputs.
pub mod World
pub mod Paths
pub mod Entries
pub mod Files
pub mod Renames
pub mod Runs
pub mod Routes
pub mod Dirs
pub mod Loops
