-- ===== src/Module.antt =====
-- 实验7/scull: how the module takes its device numbers, devices and memory, and gives them back.
pub mod Pipes
pub mod Start
pub mod Stop
pub mod Growth
pub mod Balance
