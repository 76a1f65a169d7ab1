-- ===== src/Pointed.antt =====
-- 实验7/parta/main.c and 实验7/parta/scull.h: the driver of 实验7/main.c with a header in which the data
-- of a device is a pointer.
pub mod Block
pub mod Null
pub mod Start
pub mod Stop
