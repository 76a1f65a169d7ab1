-- ===== src/Timer/Elapsed.antt =====
-- 实验3/mytimer.c: the times printed, against the time that has passed.
use linux_kernel_experiment.Prelude.{
  ℕ, zero, suc, ◌+◌, ◌-◌, ◌*◌, ◌^◌, ◌≤◌, ◌<◌, ◌≡◌, Option, none, some, ℤ, pos_part,
}
use linux_kernel_experiment.Timer.Clock.{Itimer, Clock, Course, ten_seconds}
use linux_kernel_experiment.Timer.Program.{Courses, Report}

-- the microseconds of two printed numbers
abbrev pub micros : ℤ × ℤ → ℕ
micros (s, u) = pos_part s * 1000000 + pos_part u

-- the microseconds of an interval timer: until its first signal, and between two of them
abbrev pub first_micros : Itimer → ℕ
first_micros t = t.value_sec * 1000000 + t.value_usec

abbrev pub interval_micros : Itimer → ℕ
interval_micros t = t.interval_sec * 1000000 + t.interval_usec

-- the microseconds that passed since a timer was set: what is gone of the time until its first signal,
-- or all of that, the whole intervals since, and what is gone of the current one
abbrev pub elapsed_with : Itimer → ℕ → ℕ → ℕ
elapsed_with t zero left = first_micros t - left
elapsed_with t (suc n) left = first_micros t + n * interval_micros t + (interval_micros t - left)

abbrev pub elapsed : Itimer → Course → ℕ
elapsed t k = elapsed_with t k.signals (k.left_sec * 1000000 + k.left_usec)

-- how a timer can go: no more is left than the longest time to wait, and its seconds fit a `long`
abbrev pub IsCourse : Course → Type 0
IsCourse k = (k.left_sec ≤ 9) × (k.left_usec ≤ 999999) × (k.signals * 10 + 10 < 2 ^ 31)

-- the two printed numbers are the time that passed since the timer was set, one second and one
-- microsecond, and one more microsecond for every signal
abbrev pub IsLate : Itimer → Course → ℤ × ℤ → Type 0
IsLate t k p = micros p ≡ elapsed t k + 1000001 + k.signals

-- what a process reports for its three timers is late
abbrev AreLate : Courses → Option Report → Type 0
AreLate k none = Unit
AreLate k (some r) =
    IsLate ten_seconds k.real r.real
    × IsLate ten_seconds k.virtual r.virtual
    × IsLate ten_seconds k.prof r.prof
