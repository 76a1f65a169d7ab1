-- ===== src/Scull.antt =====
-- 实验7/scull: the bare character device of main.c.
pub mod Device
pub mod Transfer
pub mod Geometry
pub mod Shape
pub mod Walk
pub mod Trim
pub mod Place
pub mod Put
pub mod Effect
pub mod Store
pub mod Assign
pub mod Item
pub mod Write
pub mod Writing
pub mod Fetch
pub mod Reading
pub mod Seek
pub mod Session
pub mod Faults
pub mod Debug
pub mod Procmem
pub mod Room
pub mod ProcFiles
pub mod Ioctl
pub mod Commands
pub mod Exchange
