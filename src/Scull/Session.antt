-- ===== src/Scull/Session.antt =====
-- 实验7/scull/main.c: a device in use. Processes open it, read and write in any order, and at the end
-- `scull_cleanup_module` trims it.
use linux_kernel_experiment.Prelude.{
  ℕ, ◌+◌, ◌^◌, ◌<◌, ◌≤◌, ◌≡◌, refl, sym, subst, Bool, true, false, List, [], ◌∷◌, All, pos, arith,
  Bool-cases, inl, inr,
}
use linux_kernel_experiment.Kernel.{Kernel, Memory, kfree, Run, done, crash, Reply}
use linux_kernel_experiment.Scull.Device.{Dev, Params, empty_dev, trim}
use linux_kernel_experiment.Scull.Transfer.{Call, Outcome, read, write}
use linux_kernel_experiment.Scull.Geometry.{Geometry}
use linux_kernel_experiment.Scull.Shape.{IsValid, blocks}
use linux_kernel_experiment.Scull.Trim.{trim-blocks}
use linux_kernel_experiment.Scull.Seek.{is_write_only, open_dev}
use linux_kernel_experiment.Scull.Writing.{write_total, write-granted}
use linux_kernel_experiment.Scull.Reading.{read_total}

-- One system call: `interrupted` is the result of its `down_interruptible`.
pub data Command : Type 0 where
  opens : (flags : ℕ) → (interrupted : Bool) → Command
  reads writes : (f_pos : ℕ) → (user : List ℕ) → (n : ℕ) → (interrupted : Bool) → Command

abbrev pub State : Type 0
State = Dev × Memory

abbrev of_open : Run (Dev × Memory × Reply) → Run State
of_open crash = crash
of_open (done (d, m, r)) = done (d, m)

abbrev of_call : Run Outcome → Run State
of_call crash = crash
of_call (done out) = done (out.dev, out.memory)

abbrev call_at : Kernel → Memory → ℕ → List ℕ → ℕ → Call
call_at k m p user n = record { kernel = k; memory = m; f_pos = p; user = user; n = n }

module _ (k : Kernel) (g : Params) where
  unfoldable pub step : State → Command → Run State
  step (d, m) (opens flags i) = of_open (open_dev g flags i d m)
  step (d, m) (reads p user n i) = of_call (read (call_at k m p user n) i d)
  step (d, m) (writes p user n i) = of_call (write (call_at k m p user n) i d)

  abbrev after : Run State → (State → Run State) → Run State
  after crash f = crash
  after (done s) f = f s

  unfoldable pub run : State → List Command → Run State
  run st [] = done st
  run st (c ∷ cs) = elim (step st c) [ crash ↦ crash | done st' ↦ run st' cs ]

-- Positions fit a `long`, as those of a file below 2 GiB do.
abbrev pub IsLow : Command → Type 0
IsLow (opens flags i) = Unit
IsLow (reads p user n i) = Unit
IsLow (writes p user n i) = (p < 2 ^ 31) × (p + n ≤ 2 ^ 31)

-- A valid device that owns all the blocks that were granted and not freed.
pub record IsSound (q s : ℕ) (st : State) : Type 0 where
  pub valid : IsValid q s st.0
  pub balanced : st.1.granted ≡ st.1.freed + blocks st.0.qsets

module _ {q s : ℕ} (geometry : Geometry q s) (k : Kernel) (g : Params)
    (quantum : g.scull_quantum ≡ pos q) (qset : g.scull_qset ≡ pos s) where
  abbrev Runs : Run State → Type 0
  Runs r = (st' : State) × (r ≡ done st') × IsSound q s st'

  empty_dev-IsValid : IsValid q s (empty_dev g)
  empty_dev-IsValid = record {
    quantum = quantum;
    qset = qset;
    items = tt;
    covered = omega arith;
    limit = omega arith;
  }

  -- the device that `scull_init_module` sets up
  start-IsSound : (m : Memory) → m.granted ≡ m.freed → IsSound q s (empty_dev g, m)
  unfolding blocks
  start-IsSound m e = record { valid = empty_dev-IsValid; balanced = omega arith }

  trimmed-IsSound :
      (d : Dev) (m : Memory)
      → IsSound q s (d, m)
      → IsSound q s (empty_dev g, kfree (blocks d.qsets) m)
  unfolding blocks
  trimmed-IsSound d m sound = record {
    valid = empty_dev-IsValid;
    balanced = omega (arith, sound.balanced);
  }

  step-IsSound : (st : State) (c : Command) → IsLow c → IsSound q s st → Runs (step k g st c)
  unfolding step open_dev
  step-IsSound (d, m) (opens flags i) low sound = elim (Bool-cases (is_write_only flags)) [
    | inr other ↦ ((d, m), rw (step, open_dev, other), sound)
    | inl trims ↦ elim (Bool-cases i) [
      | inl yes_i ↦ ((d, m), rw (step, open_dev, trims, yes_i), sound)
      | inr no_i ↦ (
        (empty_dev g, kfree (blocks d.qsets) m),
        rw (step, open_dev, trims, no_i, trim-blocks q s g d m sound.valid),
        trimmed-IsSound d m sound,
      )
    ]
  ]
  step-IsSound (d, m) (reads p user n true) low sound = ((d, m), unfold read in refl, sound)
  step-IsSound (d, m) (reads p user n false) low sound =
      let (out, ran, same, same_m, _) = read_total geometry (call_at k m p user n) d sound.valid in
      (
        (out.dev, out.memory),
        rw (step, ran),
        subst (λ (st : State). IsSound q s st) (λ i. (sym same i, sym same_m i)) sound,
      )
  step-IsSound (d, m) (writes p user n true) low sound = ((d, m), unfold write in refl, sound)
  step-IsSound (d, m) (writes p user n false) low sound =
      let c = call_at k m p user n in
      let (out, ran, valid, _, _) = write_total geometry c d sound.valid low.0 low.1 in
      let account = write-granted geometry c d sound.valid low.0 low.1 out ran in
      (
        (out.dev, out.memory),
        rw (step, ran),
        record { valid = valid; balanced = omega (arith, sound.balanced, account.0, account.1) },
      )

  run-IsSound :
      (st : State) (cs : List Command) → All IsLow cs → IsSound q s st → Runs (run k g st cs)
  unfolding run
  run-IsSound st [] low sound = (st, refl, sound)
  run-IsSound st (c ∷ cs) low sound =
      let (st', ran, sound') = step-IsSound st c low.0 sound in
      let (st'', ran', sound'') = run-IsSound st' cs low.1 sound' in
      (st'', rw (run, ran) ran', sound'')

  -- If the parameters are a quantum and a set size that a device can have, and no block is
  -- outstanding, then from a fresh device every sequence of opens, reads and writes below 2 GiB
  -- runs without a fault to a valid device that owns all the blocks outstanding; and the
  -- `scull_trim` of the module's cleanup then frees every block that was ever granted.
  pub session_trim :
      (m : Memory) (cs : List Command)
      → m.granted ≡ m.freed
      → All IsLow cs
      → (d' : Dev) × (m' m'' : Memory) × (run k g (empty_dev g, m) cs ≡ done (d', m'))
        × IsSound q s (d', m')
        × (trim g d' m' ≡ done (empty_dev g, m''))
        × (m''.granted ≡ m''.freed)
  session_trim m cs e low =
      let ((d', m'), ran, sound) = run-IsSound (empty_dev g, m) cs low (start-IsSound m e) in
      (
        d',
        m',
        kfree (blocks d'.qsets) m',
        ran,
        sound,
        trim-blocks q s g d' m' sound.valid,
        sound.balanced,
      )
