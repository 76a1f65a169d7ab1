-- ===== src/Observer.antt =====
-- 实验1/exp1_proc.c: the time since the start of the system, and the samples of its load. What is read
-- from /proc is a parameter.
pub mod Output
pub mod Program
pub mod Clocked
pub mod Ends
pub mod Codes
use linux_kernel_experiment.Prelude.{
  ℕ, zero, suc, ◌+◌, ◌*◌, ◌/◌, ◌%◌, ◌^◌, ◌<◌, ◌≤◌, ◌≡◌, refl, ap, ◌∙◌, Option, none, some, ℤ, pos,
  ◌+ℤ◌, to_int, ltb, quot_ℤ, rem_ℤ, ltb_ℤ, if◌then◌else◌, arith, inl, inr, Bool-cases, lt→ltb,
  le→ltb, ltb→lt,
}

-- the four numbers that `sampleTime` prints
pub record Parts : Type 0 where
  pub day : ℤ
  pub hour : ℤ
  pub minute : ℤ
  pub second : ℤ

abbrev pub parts : ℤ → Parts
parts uptime =
    let i = rem_ℤ uptime (pos 86400) in
    let j = rem_ℤ i (pos 3600) in
    record {
      day = quot_ℤ uptime (pos 86400);
      hour = quot_ℤ i (pos 3600);
      minute = quot_ℤ j (pos 60);
      second = rem_ℤ j (pos 60);
    }

-- `sampleTime`; `none` is a file that cannot be opened, and the end of the program
abbrev pub sample_time : Option ℤ → Option Parts
sample_time none = none
sample_time (some uptime) = some (parts uptime)

-- The parts of a time that is not negative are those of a clock, and add up to it.
parts_lem :
    (n : ℕ)
    → (d : ℕ) × (h : ℕ) × (m : ℕ) × (s : ℕ) × (parts (pos n)
        ≡ record { day = pos d; hour = pos h; minute = pos m; second = pos s })
      × (h < 24)
      × (m < 60)
      × (s < 60)
      × (d * 86400 + h * 3600 + m * 60 + s ≡ n)
unfolding quot_ℤ rem_ℤ
parts_lem n = (
  n / 86400,
  n % 86400 / 3600,
  n % 86400 % 3600 / 60,
  n % 86400 % 3600 % 60,
  refl,
  omega arith,
  omega arith,
  omega arith,
  omega arith,
)

abbrev pub one_more : Option ℕ → Option ℕ
one_more none = none
one_more (some n) = some (suc n)

-- the loop of `sampleLoadAvg`: how many samples are printed; `none` is a loop longer than the fuel
unfoldable pub sample_load : ℕ → (interval duration iteration : ℤ) → Option ℕ
sample_load zero interval duration iteration = if ltb_ℤ iteration duration then none else some 0
sample_load (suc n) interval duration iteration =
    let rest = sample_load n interval duration (to_int (iteration +ℤ interval)) in
    if ltb_ℤ iteration duration then one_more rest else some 0

add_interval : (a b : ℕ) → a + b < 2 ^ 31 → to_int (pos a +ℤ pos b) ≡ pos (a + b)
unfolding to_int ◌+ℤ◌
add_interval a b h = ground arith

-- With an interval above 0, and no overflow of the sum, the loop ends.
sample_load-ends :
    (fuel i d t : ℕ)
    → d + i < 2 ^ 31
    → 0 < i
    → d ≤ t + fuel
    → (n : ℕ) × (sample_load fuel (pos i) (pos d) (pos t) ≡ some n)
unfolding sample_load
sample_load-ends zero i d t small up enough = (0, rw (le→ltb (t + 0) (d + 0) (omega arith)) refl)
sample_load-ends (suc fuel) i d t small up enough = elim (Bool-cases (ltb (t + 0) (d + 0))) [
  | inr over ↦ (0, rw over refl)
  | inl more ↦
      let before = ltb→lt (t + 0) (d + 0) more in
      let (n, run) = sample_load-ends fuel i d (t + i) small up (omega arith) in
      (
        suc n,
        rw more (
            ap (λ j. one_more (sample_load fuel (pos i) (pos d) j)) (add_interval t i (omega arith))
            ∙ ap one_more run),
      )
]

-- With an interval of 0 it never does.
sample_load_endless : (fuel d : ℕ) → 0 < d → sample_load fuel (pos 0) (pos d) (pos 0) ≡ none
unfolding sample_load
sample_load_endless zero d h = rw (lt→ltb 0 (d + 0) (omega arith)) refl
sample_load_endless (suc fuel) d h = rw (lt→ltb 0 (d + 0) (omega arith)) (
    ap (λ j. one_more (sample_load fuel (pos 0) (pos d) j)) (add_interval 0 0 (omega arith))
    ∙ ap one_more (sample_load_endless fuel d h))
