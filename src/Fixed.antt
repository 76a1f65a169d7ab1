-- ===== src/Fixed.antt =====
-- 实验7/main.c: the driver that keeps its data in one block of 16 bytes.
pub mod Block
pub mod Bytes
pub mod Stored
pub mod Start
pub mod Balance
