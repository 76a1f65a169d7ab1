-- ===== src/Shell.antt =====
-- 实验2/exp2.c: a shell, from a line that is typed to the processes that it starts.
pub mod Tokens
pub mod Line
pub mod Loop
pub mod Words
pub mod Ends
pub mod Parts
pub mod Jobs
