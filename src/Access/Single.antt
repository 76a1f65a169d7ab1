-- ===== src/Access/Single.antt =====
-- 实验7/scull/access.c: the single-open device. The counter `scull_s_available` is atomic, and the
-- calls of several processes interleave between the two atomic operations of `scull_s_open`.
use linux_kernel_experiment.Prelude.{
  ℕ, zero, suc, replicate, subst, ◌+◌, ◌≤◌, ◌≡◌, inl, inr, refl, ap, length-replicate, Bool, List,
  [], ◌∷◌, if◌then◌else◌, arith, Bool-cases, ℤ, pos, negsuc, ◌-ℤ◌, ◌+ℤ◌, eqb_ℤ, to_int, pos_part,
  neg_part, length, ◌^◌, ◌<◌,
}
use linux_kernel_experiment.Kernel.{Memory, Reply, error, ebusy, Run, done}
use linux_kernel_experiment.Scull.Device.{Dev, Params}
use linux_kernel_experiment.Access.Owner.{copied_open}

-- Where a process stands: it has the device closed; it has lost the race and has still to put the
-- counter back; it has the device open.
pub data Stage : Type 0 where
  outside undoing inside : Stage

-- the counter and the stages of the processes
pub record Single : Type 0 where
  pub available : ℤ
  pub stages : List Stage

-- `atomic_dec_and_test`, on 32 bits: the new counter, and whether it is 0
abbrev pub dec_and_test : ℤ → ℤ × Bool
dec_and_test a = let a' = to_int (a -ℤ pos 1) in (a', eqb_ℤ a' (pos 0))

-- the next atomic operation of a process: `atomic_dec_and_test` of an open, `atomic_inc` of an open
-- that fails with EBUSY, or `atomic_inc` of the release
unfoldable pub advance : ℤ → Stage → ℤ × Stage
advance a outside = let (a', free) = dec_and_test a in (a', if free then inside else undoing)
advance a undoing = (to_int (a +ℤ pos 1), outside)
advance a inside = (to_int (a +ℤ pos 1), outside)

-- `scull_s_open` by a process that nothing interrupts: the counter, and the rest of the call
abbrev pub s_open : Params → ℕ → ℤ → Dev → Memory → ℤ × Run (Dev × Memory × Reply)
s_open g flags a d m =
    let (a', stage) = advance a outside in
    elim stage [
      | inside ↦ (a', copied_open g flags d m)
      | undoing ↦ ((advance a' undoing).0, done (d, m, error ebusy))
      | outside ↦ (a', done (d, m, error ebusy))
    ]

-- the process `i` of a list makes its next step; with no such process nothing happens
unfoldable pub schedule : ℕ → ℤ → List Stage → ℤ × List Stage
schedule i a [] = (a, [])
schedule zero a (s ∷ ss) = let (a', s') = advance a s in (a', s' ∷ ss)
schedule (suc i) a (s ∷ ss) = let (a', ss') = schedule i a ss in (a', s ∷ ss')

-- any schedule
unfoldable pub run : List ℕ → ℤ → List Stage → ℤ × List Stage
run [] a ss = (a, ss)
run (i ∷ is) a ss = let (a', ss') = schedule i a ss in run is a' ss'

-- how many processes are not outside, and how many are inside
abbrev pub weight : Stage → ℕ
weight outside = 0
weight undoing = 1
weight inside = 1

abbrev pub hold : Stage → ℕ
hold outside = 0
hold undoing = 0
hold inside = 1

abbrev pub busy : List Stage → ℕ
busy [] = 0
busy (s ∷ ss) = weight s + busy ss

abbrev pub holders : List Stage → ℕ
holders [] = 0
holders (s ∷ ss) = hold s + holders ss

-- the counter is 1 less a count
abbrev pub Counts : ℤ → ℕ → Type 0
Counts a n = pos_part a + n ≡ neg_part a + 1

-- a step down and a step up do not wrap while fewer than 2 ^ 31 processes count
dec-Counts : (a : ℤ) (n : ℕ) → n + 1 < 2 ^ 31 → Counts a n → to_int (a -ℤ pos 1) ≡ a -ℤ pos 1
unfolding to_int ◌-ℤ◌
dec-Counts (pos x) n h c = ground arith
dec-Counts (negsuc x) n h c = ground arith

inc-Counts : (a : ℤ) (n : ℕ) → n < 2 ^ 31 → 0 < n → Counts a n → to_int (a +ℤ pos 1) ≡ a +ℤ pos 1
unfolding to_int ◌+ℤ◌
inc-Counts (pos x) n h some_held c = ground arith
inc-Counts (negsuc x) n h some_held c = ground arith

advance-Counts :
    (a : ℤ) (s : Stage) (rest : ℕ)
    → rest + 1 < 2 ^ 31
    → Counts a (weight s + rest)
    → Counts (advance a s).0 (weight (advance a s).1 + rest)
unfolding advance ◌-ℤ◌ ◌+ℤ◌
advance-Counts a outside rest small h =
    rw (dec-Counts a rest small (omega (arith, h)))
      (elim (Bool-cases (eqb_ℤ (a -ℤ pos 1) (pos 0))) [
        | inl free ↦ rw free (ground arith)
        | inr taken ↦ rw taken (ground arith)
      ])
advance-Counts a undoing rest small h =
    rw (inc-Counts a (1 + rest) (omega arith) (omega arith) h) (ground arith)
advance-Counts a inside rest small h =
    rw (inc-Counts a (1 + rest) (omega arith) (omega arith) h) (ground arith)

holders-le-busy : (ss : List Stage) → holders ss ≤ busy ss
holders-le-busy [] = omega arith
holders-le-busy (outside ∷ ss) = omega (arith, holders-le-busy ss)
holders-le-busy (undoing ∷ ss) = omega (arith, holders-le-busy ss)
holders-le-busy (inside ∷ ss) = omega (arith, holders-le-busy ss)

busy-le-length : (ss : List Stage) → busy ss ≤ length ss
busy-le-length [] = omega arith
busy-le-length (outside ∷ ss) = omega (arith, busy-le-length ss)
busy-le-length (undoing ∷ ss) = omega (arith, busy-le-length ss)
busy-le-length (inside ∷ ss) = omega (arith, busy-le-length ss)

weight-le-one : (s : Stage) → weight s ≤ 1
weight-le-one outside = omega arith
weight-le-one undoing = omega arith
weight-le-one inside = omega arith

hold-le-weight : (s : Stage) → hold s ≤ weight s
hold-le-weight outside = omega arith
hold-le-weight undoing = omega arith
hold-le-weight inside = omega arith

-- an open that finds the counter at 1 is the only one
advance-alone :
    (a : ℤ) (s : Stage) (others held : ℕ)
    → others + 1 < 2 ^ 31
    → Counts a (weight s + others)
    → held ≤ others
    → hold s + held ≤ 1
    → hold (advance a s).1 + held ≤ 1
unfolding advance ◌-ℤ◌ ◌+ℤ◌
advance-alone a outside others held small h le one =
    rw (dec-Counts a others small (omega (arith, h)))
      (elim (Bool-cases (eqb_ℤ (a -ℤ pos 1) (pos 0))) [
        | inl free ↦ rw free (ground arith)
        | inr taken ↦ rw taken (ground arith)
      ])
advance-alone a undoing others held small h le one = omega arith
advance-alone a inside others held small h le one = omega arith

-- the counter is right and at most one process is inside, with some more processes counted apart
abbrev Exclusive : ℤ → List Stage → ℕ → ℕ → Type 0
Exclusive a ss others held = Counts a (busy ss + others) × (holders ss + held ≤ 1)

schedule-Exclusive :
    (i : ℕ) (a : ℤ) (ss : List Stage) (others held : ℕ)
    → length ss + others < 2 ^ 31
    → held ≤ others
    → Exclusive a ss others held
    → Exclusive (schedule i a ss).0 (schedule i a ss).1 others held
unfolding schedule
schedule-Exclusive i a [] others held small le h = h
schedule-Exclusive zero a (s ∷ ss) others held small le (counts, one) =
    let room : busy ss + others + 1 < 2 ^ 31 = omega (arith, small, busy-le-length ss) in
    let counts' = advance-Counts a s (busy ss + others) room (omega (arith, counts)) in
    let one' =
      advance-alone a s (busy ss + others) (holders ss + held) room (omega (arith, counts))
        (omega (arith, le, holders-le-busy ss)) (omega (arith, one)) in
    (omega (arith, counts'), omega (arith, one'))
schedule-Exclusive (suc i) a (s ∷ ss) others held small le (counts, one) =
    let fewer : hold s + held ≤ weight s + others = omega (arith, le, hold-le-weight s) in
    let after =
      schedule-Exclusive i a ss (weight s + others) (hold s + held)
        (omega (arith, small, weight-le-one s)) fewer (omega (arith, counts), omega (arith, one)) in
    (omega (arith, after.0), omega (arith, after.1))

-- no process comes or goes
length-schedule : (i : ℕ) (a : ℤ) (ss : List Stage) → length (schedule i a ss).1 ≡ length ss
unfolding schedule
length-schedule i a [] = refl
length-schedule zero a (s ∷ ss) = refl
length-schedule (suc i) a (s ∷ ss) = ap suc (length-schedule i a ss)

run-Exclusive :
    (is : List ℕ) (a : ℤ) (ss : List Stage)
    → length ss < 2 ^ 31
    → Exclusive a ss 0 0
    → Exclusive (run is a ss).0 (run is a ss).1 0 0
unfolding run
run-Exclusive [] a ss small h = h
run-Exclusive (i ∷ is) a ss small h =
    run-Exclusive is (schedule i a ss).0 (schedule i a ss).1
      (omega (arith, small, length-schedule i a ss))
      (schedule-Exclusive i a ss 0 0 (omega arith) (omega arith) h)

outside-holders : (n : ℕ) → holders (replicate n outside) ≡ 0
outside-holders zero = refl
outside-holders (suc n) = omega (arith, outside-holders n)

outside-busy : (n : ℕ) → busy (replicate n outside) ≡ 0
outside-busy zero = refl
outside-busy (suc n) = omega (arith, outside-busy n)

-- However the atomic operations of `n` processes, fewer than 2 ^ 31, interleave on the 32-bit
-- counter, from its initial 1 on, at most one process has the single-open device open, and the counter is 1 less the number of the processes that
-- have it open or are about to put back what a failed open took.
pub run-exclusive :
    (n : ℕ) (is : List ℕ) (a : ℤ) (ss : List Stage)
    → n < 2 ^ 31
    → run is (pos 1) (replicate n outside) ≡ (a, ss)
    → (holders ss ≤ 1) × Counts a (busy ss)
run-exclusive n is a ss small e =
    let start : Exclusive (pos 1) (replicate n outside) 0 0 =
      (omega (arith, outside-busy n), omega (arith, outside-holders n)) in
    let after =
      subst (λ (st : ℤ × List Stage). Exclusive st.0 st.1 0 0) e
        (run-Exclusive is (pos 1) (replicate n outside) (omega (arith, length-replicate n outside))
          start) in
    (omega (arith, after.1), omega (arith, after.0))

-- While somebody has the single-open device open, `scull_s_open` replies EBUSY and leaves the counter,
-- the device and the memory as they are; while nobody has, it goes on as the bare device does.
pub s_open-counter :
    (g : Params) (flags : ℕ) (d : Dev) (m : Memory)
    → (s_open g flags (pos 0) d m ≡ (pos 0, done (d, m, error ebusy)))
      × (s_open g flags (pos 1) d m ≡ (pos 0, copied_open g flags d m))
unfolding advance to_int ◌-ℤ◌ ◌+ℤ◌
s_open-counter g flags d m = (refl, refl)
