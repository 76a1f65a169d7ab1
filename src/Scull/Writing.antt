-- ===== src/Scull/Writing.antt =====
-- 实验7/scull/main.c: the properties of `scull_write`.
use native.Mathlib.Nat.{mul-le-mul_right}
use linux_kernel_experiment.Prelude.{
  ℕ, ◌+◌, ◌*◌, ◌^◌, ◌<◌, ◌≤◌, ◌≡◌, ◌⊎◌, inl, inr, ap, sym, ◌∙◌, subst, false, none, arith, length,
  get_elem?, get_elem?-of_lt, some, ltb, if◌then◌else◌,
}
use linux_kernel_experiment.Kernel.{Run, done, count, error, efault, enomem}
use linux_kernel_experiment.Scull.Device.{Dev}
use linux_kernel_experiment.Scull.Transfer.{Call, Outcome, write}
use linux_kernel_experiment.Scull.Geometry.{Geometry, q_of-lt}
use linux_kernel_experiment.Scull.Shape.{IsValid, byte_at, blocks}
use linux_kernel_experiment.Scull.Assign.{span-le}
use linux_kernel_experiment.Scull.Effect.{span, Result, stored, faulted, refused, Effect}
use linux_kernel_experiment.Scull.Write.{write-Effect}

pub done-injective : {A : Type 0} {a b : A} → ◌≡◌ {A = Run A} (done a) (done b) → a ≡ b
done-injective e = cc

pub count-injective : (n k : ℕ) → count n ≡ count k → n ≡ k
count-injective n k e = cc

module _ {q s : ℕ} (g : Geometry q s) (c : Call) (d : Dev) (v : IsValid q s d)
    (low : c.f_pos < 2 ^ 31) (small : c.f_pos + c.n ≤ 2 ^ 31) where
  run-Effect : (out : Outcome) → write c false d ≡ done out → Effect q s c d c.memory out
  run-Effect out e =
      let (out', ran, f) = write-Effect g c low small d v in
      subst (Effect q s c d c.memory) (done-injective (sym ran ∙ e)) f

  within : span q s c.f_pos c.n ≤ c.n
  within = (span-le q s c.f_pos c.n (q_of-lt g c.f_pos)).1

  Result-limit :
      (out : Outcome) → Result q s c d out → (out.dev.size ≤ 2 ^ 31) × (d.size ≤ out.dev.size)
  Result-limit out (stored n w r f z z' b k u) = rw z (ground (arith, v.limit, within))
  Result-limit out (faulted r f z k) = omega (arith, v.limit)
  Result-limit out (refused r f z k) = omega (arith, v.limit)

  Result-covered :
      (out : Outcome)
      → length d.qsets ≤ length out.dev.qsets
      → Result q s c d out
      → out.dev.size ≤ length out.dev.qsets * (q * s)
  Result-covered out l (stored n w r f z z' b k u) = z'
  Result-covered out l (faulted r f z k) = omega (arith, v.covered, mul-le-mul_right (q * s) l)
  Result-covered out l (refused r f z k) = omega (arith, v.covered, mul-le-mul_right (q * s) l)

  -- On a valid device, at a position that fits a `long`, `scull_write` returns without a fault; the
  -- device is valid afterwards, with the same geometry, and its size has not gone down. The reply is
  -- the number of bytes asked for, cut at the end of the quantum, or EFAULT or ENOMEM.
  pub write_total :
      (out : Outcome) × (write c false d ≡ done out)
      × IsValid q s out.dev
      × (d.size ≤ out.dev.size)
      × ((out.reply ≡ count (span q s c.f_pos c.n))
          ⊎ (out.reply ≡ error efault)
          ⊎ (out.reply ≡ error enomem))
  write_total =
      let (out, ran, f) = write-Effect g c low small d v in
      (
        out,
        ran,
        record {
          quantum = f.quantum ∙ v.quantum;
          qset = f.qset ∙ v.qset;
          items = f.items;
          covered = Result-covered out f.longer f.result;
          limit = (Result-limit out f.result).0;
        },
        (Result-limit out f.result).1,
        replies out f.result,
      )
    where
      replies :
          (out : Outcome)
          → Result q s c d out
          → (out.reply ≡ count (span q s c.f_pos c.n))
            ⊎ (out.reply ≡ error efault)
            ⊎ (out.reply ≡ error enomem)
      replies out (stored n w r f z z' b k u) = inl (r ∙ ap count w)
      replies out (faulted r f z k) = inr (inl r)
      replies out (refused r f z k) = inr (inr r)

  module _ (out : Outcome) (ran : write c false d ≡ done out) where
    -- If `scull_write`, on a valid device and at a position that fits a `long`, says that it wrote
    -- `n` bytes, then the `i`-th of them is the `i`-th byte of the user's buffer, and the file
    -- position has moved by `n`.
    pub write-stores :
        (n i : ℕ)
        → out.reply ≡ count n
        → i < n
        → (b : ℕ) × (get_elem? c.user i ≡ some b)
          × (byte_at q s out.dev.qsets (c.f_pos + i) ≡ some b)
          × (out.f_pos ≡ c.f_pos + n)
    write-stores n i e h = by (run-Effect out ran).result
      where
        by :
            Result q s c d out
            → (b : ℕ) × (get_elem? c.user i ≡ some b)
              × (byte_at q s out.dev.qsets (c.f_pos + i) ≡ some b)
              × (out.f_pos ≡ c.f_pos + n)
        by (stored k w r f z z' b keeps u) =
            let k-eq : k ≡ n = count-injective k n (sym r ∙ e) in
            let (x, there) = get_elem?-of_lt c.user i (omega arith) in
            (x, there, b i (omega arith) ∙ there, omega arith)
        by (faulted r f z k) = cc
        by (refused r f z k) = cc

    -- the size covers what was written, which lies in one quantum
    pub write_extent :
        (n : ℕ) → out.reply ≡ count n → (c.f_pos + n ≤ out.dev.size) × (n ≡ span q s c.f_pos c.n)
    write_extent n e = by (run-Effect out ran).result
      where
        by : Result q s c d out → (c.f_pos + n ≤ out.dev.size) × (n ≡ span q s c.f_pos c.n)
        by (stored k w r f z z' b keeps u) =
            let k-eq : k ≡ n = count-injective k n (sym r ∙ e) in (rw z (ground arith), omega arith)
        by (faulted r f z k) = cc
        by (refused r f z k) = cc

    -- The device is valid after any call.
    pub write-IsValid : IsValid q s out.dev
    write-IsValid =
        let (out', ran', valid, _, _) = write_total in
        subst (λ o. IsValid q s o.dev) (done-injective (sym ran' ∙ ran)) valid

    -- Every byte that a valid device held outside the part of the quantum that was to be written,
    -- at a position that fits a `long`, is still there, whatever `scull_write` replies.
    pub write-keeps :
        (p : ℕ)
        → (p < c.f_pos) ⊎ (c.f_pos + span q s c.f_pos c.n ≤ p)
        → (byte_at q s out.dev.qsets p ≡ byte_at q s d.qsets p) ⊎ (byte_at q s d.qsets p ≡ none)
    write-keeps p h = by (run-Effect out ran).result
      where
        by :
            Result q s c d out
            → (byte_at q s out.dev.qsets p ≡ byte_at q s d.qsets p) ⊎ (byte_at q s d.qsets p ≡ none)
        by (stored k w r f z z' b keeps u) = keeps p (omega arith)
        by (faulted r f z keeps) = keeps p h
        by (refused r f z same) = inl (same p)

    -- On a valid device, at a position that fits a `long`, a write that fails leaves the position
    -- and the size as they were; one that writes `n` bytes makes the size the larger of the old
    -- size and the new position.
    write-size :
        ((out.f_pos ≡ c.f_pos) × (out.dev.size ≡ d.size))
        ⊎ ((n : ℕ) × (out.reply ≡ count n)
            × (out.dev.size ≡ (if ltb d.size (c.f_pos + n) then c.f_pos + n else d.size)))
    write-size = by (run-Effect out ran).result
      where
        by :
            Result q s c d out
            → ((out.f_pos ≡ c.f_pos) × (out.dev.size ≡ d.size))
              ⊎ ((n : ℕ) × (out.reply ≡ count n)
                  × (out.dev.size ≡ (if ltb d.size (c.f_pos + n) then c.f_pos + n else d.size)))
        by (stored k w r f z z' b keeps u) = inr (k, r, z)
        by (faulted r f z keeps) = inl (f, z)
        by (refused r f z same) = inl (f, z)

    -- On a valid device, at a position that fits a `long`, `scull_write` loses no block and frees
    -- none: `kmalloc` has granted exactly as many blocks as the device has gained.
    pub write-granted :
        (out.memory.granted + blocks d.qsets ≡ c.memory.granted + blocks out.dev.qsets)
        × (out.memory.freed ≡ c.memory.freed)
    write-granted = ((run-Effect out ran).granted, (run-Effect out ran).freed)
