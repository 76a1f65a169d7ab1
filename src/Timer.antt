-- ===== src/Timer.antt =====
-- 实验3/mytimer.c: three processes compute Fibonacci numbers and time themselves with three timers.
pub mod Fibonacci
pub mod Clock
pub mod Program
pub mod Elapsed
pub mod Wall
pub mod Interrupts
pub mod Reports
