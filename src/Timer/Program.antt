-- ===== src/Timer/Program.antt =====
-- 实验3/mytimer.c: `main`. What the C library and the kernel do is a parameter: `atoi`, the results
-- of `fork`, and how the timers go while a process computes.
use linux_kernel_experiment.Prelude.{
  ℕ, Option, none, some, List, ℤ, pos, bits32, eqb_ℤ, get_elem?, length, ltb, if◌then◌else◌,
}
use linux_kernel_experiment.Timer.Fibonacci.{fibonacci}
use linux_kernel_experiment.Timer.Clock.{Clock, Clocks, Course, ten_seconds, timed}

-- the static variables of one process
abbrev pub unset : Clock
unset = record {
  secs = pos 0;
  itimer = record { interval_sec = 0; interval_usec = 0; value_sec = 0; value_usec = 0 };
}

abbrev pub unset_clocks : Clocks
unset_clocks = record { real = unset; virtual = unset; prof = unset }

-- `setitimer` of one timer with its four assignments
abbrev pub armed : Clock → Clock
armed c = record c { itimer = ten_seconds }

-- the three timers of the parent, of child 1 and of child 2, which are set alike
abbrev pub arm : Clocks → Clocks
arm c = record { real = armed c.real; virtual = armed c.virtual; prof = armed c.prof }

-- how the three timers of a process go
pub record Courses : Type 0 where
  pub real : Course
  pub virtual : Course
  pub prof : Course

-- what a process prints: the number, and the seconds and microseconds of its timers
pub record Report : Type 0 where
  pub fib : ℕ
  pub real : ℤ × ℤ
  pub virtual : ℤ × ℤ
  pub prof : ℤ × ℤ

abbrev pub report : Courses → Clocks → ℕ → Report
report k c n = record {
  fib = fibonacci n;
  real = timed k.real c.real;
  virtual = timed k.virtual c.virtual;
  prof = timed k.prof c.prof;
}

-- `argv[i]`, through `atoi` and the conversion to `unsigned int`; `none` where there is none
abbrev pub number : (List ℕ → ℤ) → Option (List ℕ) → Option ℕ
number atoi none = none
number atoi (some text) = some (bits32 (atoi text))

abbrev pub report_if : Courses → Clocks → Option ℕ → Option Report
report_if k c none = none
report_if k c (some n) = some (report k c n)

-- what each of the processes does from its `fork` on
abbrev pub child1 : (List ℕ → ℤ) → List (List ℕ) → Courses → Clocks → Option Report
child1 atoi argv k c = report_if k (arm c) (number atoi (get_elem? argv 1))

abbrev pub child2 : (List ℕ → ℤ) → List (List ℕ) → Courses → Clocks → Option Report
child2 atoi argv k c = report_if k (arm c) (number atoi (get_elem? argv 2))

abbrev pub parent : (List ℕ → ℤ) → List (List ℕ) → Courses → Clocks → Option Report
parent atoi argv k c = report_if k c (number atoi (get_elem? argv 3))

-- The process that goes on, by the results of the two calls of `fork`: 0 in the new process, and
-- child 1 does not come to the second call.
abbrev pub branch : (List ℕ → ℤ) → List (List ℕ) → Courses → ℤ → ℤ → Option Report
branch atoi argv k pid1 pid2 =
    if eqb_ℤ pid1 (pos 0)
    then child1 atoi argv k unset_clocks
    else if eqb_ℤ pid2 (pos 0)
    then child2 atoi argv k unset_clocks
    else parent atoi argv k (arm unset_clocks)

-- `main`: the usage is printed, or a process reports
unfoldable pub main : (List ℕ → ℤ) → List (List ℕ) → Courses → ℤ → ℤ → Option Report
main atoi argv k pid1 pid2 = if ltb (length argv) 4 then none else branch atoi argv k pid1 pid2
