-- ===== src/Proc.antt =====
-- 实验4 and 实验5: the modules that make a file in /proc.
pub mod Value
pub mod Entries
pub mod Walk
pub mod Ticks
pub mod Tasks
pub mod Texts
pub mod Listing
pub mod Snapshot
pub mod Shown
pub mod Reader
