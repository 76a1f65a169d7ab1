-- ===== src/Scull/Store.antt =====
-- 实验7/scull/main.c: `scull_write` on a valid device, step by step.
use native.Mathlib.Decide.{ℕ_discrete}
use linux_kernel_experiment.Prelude.{
  ℕ, ◌+◌, ◌*◌, ◌/◌, ◌<◌, ◌≤◌, ◌≡◌, ◌⊎◌, inl, inr, refl, sym, ◌∙◌, none, some, List, arith, length,
  get_elem?, splice, get_elem?-splice_in, get_elem?-splice_out,
}
use linux_kernel_experiment.Scull.Device.{Quantum, Qset}
use linux_kernel_experiment.Scull.Transfer.{put_block}
use linux_kernel_experiment.Scull.Geometry.{Geometry, s_of, q_of}
use linux_kernel_experiment.Scull.Place.{place-add, same_quantum}
use linux_kernel_experiment.Scull.Shape.{cell, byte_at}
use linux_kernel_experiment.Scull.Put.{cell-put_self, cell-put_item, cell-put_other}
use linux_kernel_experiment.Scull.Effect.{Keeps}

-- The block assigned to a slot is the block that was there, or there was none.
abbrev pub Replaces : Quantum → List ℕ → Type 0
Replaces b block = (b ≡ some block) ⊎ (b ≡ none)

module _ {q s : ℕ} (g : Geometry q s) (p : ℕ) where
  abbrev item_of : ℕ
  item_of = p / (q * s)

  module _ (l : List Qset) (qs : List Quantum) {b : Quantum} (block bytes : List ℕ)
      (item : get_elem? l item_of ≡ some (record { quanta = some qs }))
      (slot : get_elem? qs (s_of q s p) ≡ some b) (full : length block ≡ q)
      (fits : q_of q s p + length bytes ≤ q) where
    abbrev pub after : List Qset
    after = put_block l item_of qs (s_of q s p) (splice block (q_of q s p) bytes)

    -- The bytes are there afterwards,
    pub after-bytes : (i : ℕ) → i < length bytes → byte_at q s after (p + i) ≡ get_elem? bytes i
    unfolding byte_at
    after-bytes i h =
        rw
          (
            here.0,
            here.1,
            here.2,
            cell-put_self l item_of qs (s_of q s p) (splice block (q_of q s p) bytes) item slot,
          )
          (get_elem?-splice_in block (q_of q s p) bytes i (q_of q s p + i) refl h (omega arith))
      where
        here :
            ((p + i) / (q * s) ≡ item_of)
            × (s_of q s (p + i) ≡ s_of q s p)
            × (q_of q s (p + i) ≡ q_of q s p + i)
        here = place-add g p i (omega arith)

    -- and no byte that the device held elsewhere has changed.
    after-quantum :
        Replaces b block
        → (o : ℕ) → (o < q_of q s p) ⊎ (q_of q s p + length bytes ≤ o)
        → (cell after item_of (s_of q s p) o ≡ cell l item_of (s_of q s p) o)
          ⊎ (cell l item_of (s_of q s p) o ≡ none)
    after-quantum (inl e) o h = inl (
        cell-put_self l item_of qs (s_of q s p) (splice block (q_of q s p) bytes) item slot o
        ∙ get_elem?-splice_out block (q_of q s p) bytes o h
        ∙ sym held)
      where
        held : cell l item_of (s_of q s p) o ≡ get_elem? block o
        held = rw (item, slot, e)
    after-quantum (inr e) o h = inr (rw (item, slot, e))

    pub after-Keeps : Replaces b block → Keeps q s p (length bytes) l after
    unfolding byte_at
    after-Keeps r p' h = elim (ℕ_discrete item_of (p' / (q * s))) [
      | no ne ↦ inl (
          cell-put_other l item_of qs (s_of q s p) (splice block (q_of q s p) bytes) item slot _ _ _
            ne)
      | yes e ↦ elim (ℕ_discrete (s_of q s p) (s_of q s p')) [
        | no ne ↦ inl (
            rw (← e) (
              cell-put_item l item_of qs (s_of q s p) (splice block (q_of q s p) bytes) item slot _
                _ ne))
        | yes e' ↦
            rw (← e, ← e')
              (after-quantum r (q_of q s p') (omega (arith, same_quantum g p p' (sym e) (sym e'))))
      ]
    ]
