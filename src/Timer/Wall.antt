-- ===== src/Timer/Wall.antt =====
-- 实验3/exp3a.c, which counts the seconds since its start, and 实验3/exp3b.c, a clock on the wall.
use linux_kernel_experiment.Prelude.{
  ℕ, zero, suc, ◌+◌, ◌*◌, ◌/◌, ◌%◌, ◌^◌, ◌<◌, ◌≡◌, refl, ap, ◌∙◌, List, [], ◌∷◌, ℤ, pos, ◌+ℤ◌,
  to_int, quot_ℤ, rem_ℤ, arith, tabulate,
}
use linux_kernel_experiment.Timer.Clock.{Itimer}

-- the timer of exp3a.c: every second
abbrev pub every_second : Itimer
every_second = record { interval_sec = 1; interval_usec = 0; value_sec = 1; value_usec = 0 }

-- `sighandle` of exp3a.c: `second`, which it prints
abbrev pub next_second : ℤ → ℤ
next_second second = to_int (second +ℤ pos 1)

-- the numbers that `n` signals print
abbrev pub seconds : ℕ → ℤ → List ℤ
seconds zero second = []
seconds (suc n) second = next_second second ∷ seconds n (next_second second)

-- the timer of exp3b.c: every microsecond
abbrev pub every_microsecond : Itimer
every_microsecond = record { interval_sec = 0; interval_usec = 1; value_sec = 0; value_usec = 1 }

-- the four numbers that exp3b.c prints
pub record Face : Type 0 where
  pub hour : ℤ
  pub minute : ℤ
  pub second : ℤ
  pub usec : ℤ

-- `sighandle` of exp3b.c, by what `gettimeofday` gives
abbrev pub wall : (tv_sec tv_usec : ℤ) → Face
wall tv_sec tv_usec =
    let today = rem_ℤ tv_sec (pos 86400) in
    record {
      hour = quot_ℤ today (pos 3600);
      minute = quot_ℤ (rem_ℤ today (pos 3600)) (pos 60);
      second = rem_ℤ (rem_ℤ today (pos 3600)) (pos 60);
      usec = tv_usec;
    }

next-pos : (k : ℕ) → k + 1 < 2 ^ 31 → next_second (pos k) ≡ pos (suc k)
unfolding to_int ◌+ℤ◌
next-pos k h = ground arith

-- From 0 on, the signals print 1, 2, 3, ..., as long as the number fits an `int`.
seconds_from : (n k : ℕ) → n + k < 2 ^ 31 → seconds n (pos k) ≡ tabulate (λ i. pos i) (suc k) n
seconds_from zero k h = refl
seconds_from (suc n) k h =
    let next = next-pos k (omega arith) in
    ap (λ z. z ∷ seconds n z) next ∙ ap (◌∷◌ (pos (suc k))) (seconds_from n (suc k) (omega arith))

-- The clock of a time that is not negative shows an hour below 24, and a minute and a second below 60,
-- which add up to the seconds of the day.
wall_lem :
    (n : ℕ) (usec : ℤ)
    → (h : ℕ) × (m : ℕ) × (s : ℕ) × (wall (pos n) usec
        ≡ record { hour = pos h; minute = pos m; second = pos s; usec = usec })
      × (h < 24)
      × (m < 60)
      × (s < 60)
      × (h * 3600 + m * 60 + s ≡ n % 86400)
unfolding quot_ℤ rem_ℤ
wall_lem n usec = (
  n % 86400 / 3600,
  n % 86400 % 3600 / 60,
  n % 86400 % 3600 % 60,
  refl,
  omega arith,
  omega arith,
  omega arith,
  omega arith,
)
