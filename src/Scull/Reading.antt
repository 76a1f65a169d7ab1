-- ===== src/Scull/Reading.antt =====
-- 实验7/scull/main.c: the properties of `scull_read`, and of a write followed by a read.
use linux_kernel_experiment.Prelude.{
  ℕ, zero, suc, ◌+◌, ◌^◌, ◌<◌, ◌≤◌, ◌≡◌, ◌⊎◌, inl, inr, refl, ap, sym, ◌∙◌, subst, false, none,
  some, List, [], ◌∷◌, ◌++◌, arith, length, get_elem?, get_elem?-of_lt, drop,
}
use linux_kernel_experiment.Kernel.{done, count, error, efault}
use linux_kernel_experiment.Scull.Device.{Dev}
use linux_kernel_experiment.Scull.Transfer.{Call, Outcome, write, read}
use linux_kernel_experiment.Scull.Geometry.{Geometry}
use linux_kernel_experiment.Scull.Shape.{IsValid, byte_at}
use linux_kernel_experiment.Scull.Effect.{span}
use linux_kernel_experiment.Scull.Fetch.{
  extent, Fetched, ended, hole, copied, faulted, Read, read-Reads,
}
use linux_kernel_experiment.Scull.Writing.{
  done-injective, count-injective, write-stores, write_extent, write-IsValid,
}

get_elem?-append_left :
    (xs ys : List ℕ) (i : ℕ) → i < length xs → get_elem? (xs ++ ys) i ≡ get_elem? xs i
get_elem?-append_left [] ys i h = elim h [ ]
get_elem?-append_left (x ∷ xs) ys zero h = refl
get_elem?-append_left (x ∷ xs) ys (suc i) h = get_elem?-append_left xs ys i (omega arith)

module _ {q s : ℕ} (g : Geometry q s) (c : Call) (d : Dev) (v : IsValid q s d) where
  run-Read : (out : Outcome) → read c false d ≡ done out → Read q s c d out
  run-Read out e =
      let (out', ran, f) = read-Reads g c d v in
      subst (Read q s c d) (done-injective (sym ran ∙ e)) f

  -- On a valid device `scull_read` returns without a fault, whatever the position, and changes
  -- neither the device nor the allocator. Past the end of the data and in a hole it replies 0; else
  -- it replies how many bytes lie before the end of the data, of the quantum and of the request, or
  -- EFAULT.
  pub read_total :
      (out : Outcome) × (read c false d ≡ done out)
      × (out.dev ≡ d)
      × (out.memory ≡ c.memory)
      × (((out.reply ≡ count 0) × ((d.size ≤ c.f_pos) ⊎ (byte_at q s d.qsets c.f_pos ≡ none)))
          ⊎ (out.reply ≡ count (extent q s d c.f_pos c.n))
          ⊎ (out.reply ≡ error efault))
  read_total =
      let (out, ran, f) = read-Reads g c d v in (out, ran, f.dev, f.memory, replies out f.fetched)
    where
      replies :
          (out : Outcome)
          → Fetched q s c d out
          → ((out.reply ≡ count 0) × ((d.size ≤ c.f_pos) ⊎ (byte_at q s d.qsets c.f_pos ≡ none)))
            ⊎ (out.reply ≡ count (extent q s d c.f_pos c.n))
            ⊎ (out.reply ≡ error efault)
      replies out (ended h r f u) = inl (r, inl h)
      replies out (hole h r f u) = inl (r, inr h)
      replies out (copied bytes l r f u b) = inr (inl (r ∙ ap count l))
      replies out (faulted r f) = inr (inr r)

  -- If `scull_read` on a valid device says that it read `n` bytes, the `i`-th byte of the user's
  -- buffer is the byte that the device holds `i` past the position, and the position has moved by
  -- `n`.
  pub read-returns :
      (out : Outcome)
      → read c false d ≡ done out
      → (n i : ℕ) → out.reply ≡ count n
      → i < n
      → (b : ℕ) × (get_elem? out.user i ≡ some b)
        × (byte_at q s d.qsets (c.f_pos + i) ≡ some b)
        × (out.f_pos ≡ c.f_pos + n)
  read-returns out ran n i e h = by (run-Read out ran).fetched
    where
      by :
          Fetched q s c d out
          → (b : ℕ) × (get_elem? out.user i ≡ some b)
            × (byte_at q s d.qsets (c.f_pos + i) ≡ some b)
            × (out.f_pos ≡ c.f_pos + n)
      by (ended p r f u) = absurd (omega (arith, count-injective n 0 (sym e ∙ r)))
      by (hole p r f u) = absurd (omega (arith, count-injective n 0 (sym e ∙ r)))
      by (copied bytes l r f u at) =
          let same : length bytes ≡ n = count-injective _ _ (sym r ∙ e) in
          let (b, held) = get_elem?-of_lt bytes i (omega arith) in
          (
            b,
            rw u (get_elem?-append_left bytes (drop (length bytes) c.user) i (omega arith) ∙ held),
            at i (omega arith) ∙ held,
            f ∙ ap (◌+◌ c.f_pos) same,
          )
      by (faulted r f) = cc

module _ {q s : ℕ} (g : Geometry q s) (c : Call) (d : Dev) (v : IsValid q s d)
    (low : c.f_pos < 2 ^ 31) (small : c.f_pos + c.n ≤ 2 ^ 31) where
  -- What was written on a valid device is read back: after a write, at a position that fits a
  -- `long`, that replied `n`, a read of `n` bytes at the same position on the device it left
  -- replies `n`, and its `i`-th byte is the `i`-th of the writer's buffer; or user memory cannot
  -- be written, and it replies EFAULT.
  pub read-write :
      (out : Outcome)
      → write c false d ≡ done out
      → (n i : ℕ) → out.reply ≡ count n
      → i < n
      → (c' : Call) → c'.f_pos ≡ c.f_pos
      → c'.n ≡ n
      → (back : Outcome) → read c' false out.dev ≡ done back
      → ((back.reply ≡ count n) × (get_elem? back.user i ≡ get_elem? c.user i))
        ⊎ (back.reply ≡ error efault)
  read-write out ran n i e h c' ep en back ran' = by (run-Read g c' out.dev valid back ran').fetched
    where
      valid : IsValid q s out.dev
      valid = write-IsValid g c d v low small out ran

      covered : (c.f_pos + n ≤ out.dev.size) × (n ≡ span q s c.f_pos c.n)
      covered = write_extent g c d v low small out ran n e

      stored_at :
          (j : ℕ)
          → j < n
          → (b : ℕ) × (get_elem? c.user j ≡ some b)
            × (byte_at q s out.dev.qsets (c.f_pos + j) ≡ some b)
            × (out.f_pos ≡ c.f_pos + n)
      stored_at j hj = write-stores g c d v low small out ran n j e hj

      whole : extent q s out.dev c'.f_pos c'.n ≡ n
      whole = rw (ep, en) (ground (arith, covered.0, covered.1))

      by :
          Fetched q s c' out.dev back
          → ((back.reply ≡ count n) × (get_elem? back.user i ≡ get_elem? c.user i))
            ⊎ (back.reply ≡ error efault)
      by (ended p r f u) = absurd (omega (arith, covered.0))
      by (hole p r f u) =
          let (b, _, there, _) = stored_at 0 (omega arith) in
          let same : c'.f_pos ≡ c.f_pos + 0 = omega arith in
          cc (sym p ∙ ap (byte_at q s out.dev.qsets) same ∙ there)
      by (copied bytes l r f u at) =
          let (b, sent, there, _) = stored_at i h in
          let inside : i < length bytes = omega (arith, whole) in
          inl (
            r ∙ ap count (l ∙ whole),
            ap (λ k. get_elem? k i) u
                ∙ get_elem?-append_left bytes (drop (length bytes) c'.user) i inside
                ∙ sym (at i inside)
                ∙ ap (λ p. byte_at q s out.dev.qsets (p + i)) ep
                ∙ there
                ∙ sym sent,
          )
      by (faulted r f) = inr r
