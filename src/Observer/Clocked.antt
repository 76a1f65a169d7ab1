-- ===== src/Observer/Clocked.antt =====
-- 实验1/exp1_proc_1.c: the same program, which shows the time in part A by its own sums.
use linux_kernel_experiment.Prelude.{ℕ, List, ℤ, pos, quot_ℤ, rem_ℤ}
use linux_kernel_experiment.Observer.Output.{Output, at_clock, Result, World}
use linux_kernel_experiment.Observer.Program.{run_with}

-- the seconds of the day, and its hours, minutes and seconds
abbrev pub clocked : ℤ → Output
clocked tv_sec =
    let stoday = rem_ℤ tv_sec (pos 86400) in
    at_clock (quot_ℤ stoday (pos 3600)) (quot_ℤ (rem_ℤ stoday (pos 3600)) (pos 60))
      (rem_ℤ (rem_ℤ stoday (pos 3600)) (pos 60))

-- `main`, by the arguments after the program's name
abbrev pub observe_clocked : World → List (List ℕ) → Result
observe_clocked w args = run_with clocked w args
