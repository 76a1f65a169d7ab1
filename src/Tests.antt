-- ===== src/Tests.antt =====
-- Tests by evaluation, and the theorems at concrete inputs.
mod Sample
mod Scull
mod Pipe
mod Driver
mod Debug
mod Access
mod Fixed
mod Pointed
mod Module
mod Event
mod Timer
mod Proc
mod Shell
mod Observer
