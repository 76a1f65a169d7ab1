-- ===== src/Access.antt =====
-- 实验7/scull/access.c: the devices that control who may open them.
pub mod Owner
pub mod Ownership
pub mod Turns
pub mod Single
pub mod Private
pub mod Start
pub mod Release
