-- ===== src/Timer/Clock.antt =====
-- 实验3/mytimer.c: the interval timers, the handlers of their signals, and the times printed.
use linux_kernel_experiment.Prelude.{ℕ, zero, suc, ℤ, pos, ◌+ℤ◌, ◌-ℤ◌, to_int}

-- `struct itimerval`
pub record Itimer : Type 0 where
  pub interval_sec : ℕ
  pub interval_usec : ℕ
  pub value_sec : ℕ
  pub value_usec : ℕ

-- one of the three timers of a process, and the seconds that its handler counts
pub record Clock : Type 0 where
  pub secs : ℤ
  pub itimer : Itimer

-- the three timers of a process
pub record Clocks : Type 0 where
  pub real : Clock
  pub virtual : Clock
  pub prof : Clock

-- 9.999999 seconds, again and again
abbrev pub ten_seconds : Itimer
ten_seconds = record {
  interval_sec = 9;
  interval_usec = 999999;
  value_sec = 9;
  value_usec = 999999;
}

-- `..._secs += 10`, in a `long` of 32 bits
abbrev pub on_signal : Clock → Clock
on_signal c = record c { secs = to_int (c.secs +ℤ pos 10) }

-- What happens to one timer while the process computes: how often its signal comes, and what
-- `getitimer` then says is left of the current interval.
pub record Course : Type 0 where
  pub signals : ℕ
  pub left_sec : ℕ
  pub left_usec : ℕ

abbrev pub after : ℕ → Clock → Clock
after zero c = c
after (suc n) c = after n (on_signal c)

-- `getitimer`
abbrev pub observe : Course → Clock → Clock
observe k c = record c {
  itimer = record c.itimer { value_sec = k.left_sec; value_usec = k.left_usec };
}

-- the two numbers that `printf` gets for a timer
abbrev pub printed : Clock → ℤ × ℤ
printed c = (
  to_int (to_int (c.secs +ℤ pos 10) -ℤ pos c.itimer.value_sec),
  to_int (pos 1000000 -ℤ pos c.itimer.value_usec),
)

-- the handlers and the calls of `getitimer` and `printf` for one timer
abbrev pub timed : Course → Clock → ℤ × ℤ
timed k c = printed (observe k (after k.signals c))
