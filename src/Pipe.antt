-- ===== src/Pipe.antt =====
-- 实验7/scull/pipe.c: the pipe device.
pub mod Ring
pub mod Files
pub mod Contents
pub mod Shape
pub mod Reading
pub mod Fitting
pub mod Writing
pub mod Fifo
pub mod Waits
pub mod Opens
pub mod Uses
pub mod Listing
pub mod Window
