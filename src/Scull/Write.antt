-- ===== src/Scull/Write.antt =====
-- 实验7/scull/main.c: `scull_write` on a valid device never faults, and has an `Effect`.
use native.Mathlib.Nat.{mul-le-mul_right}
use linux_kernel_experiment.Prelude.{
  ℕ, ◌+◌, ◌*◌, ◌/◌, ◌^◌, ◌<◌, ◌≤◌, ◌≡◌, refl, ap₂, Bool, true, false, List, arith, length,
  get_elem?-of_lt, pos, ◌∙◌,
}
use linux_kernel_experiment.Kernel.{Memory, done}
use linux_kernel_experiment.Scull.Device.{Qset, Dev, follow}
use linux_kernel_experiment.Scull.Transfer.{Call, Outcome, reached, write_item, write_locked, write}
use linux_kernel_experiment.Scull.Geometry.{Geometry, locate-pos}
use linux_kernel_experiment.Scull.Shape.{IsItem, IsValid, blocks, byte_at}
use linux_kernel_experiment.Scull.Walk.{follow-items, follow-length, follow-cell, follow-blocks}
use linux_kernel_experiment.Scull.Effect.{Same, Effect, Effect-before}
use linux_kernel_experiment.Scull.Assign.{Ready}
use linux_kernel_experiment.Scull.Item.{place, nothing, refused-Effect, write_item-Effect}

module _ {q s : ℕ} (g : Geometry q s) (c : Call) (low : c.f_pos < 2 ^ 31)
    (small : c.f_pos + c.n ≤ 2 ^ 31) where
  module _ (d : Dev) (v : IsValid q s d) where
    abbrev m : Memory
    m = c.memory

    abbrev followed : List Qset
    followed = (follow c.kernel d.qsets (c.f_pos / (q * s)) m).0

    abbrev grown : Dev
    grown = record d { qsets = followed }

    grown-Ready : Ready q s grown
    grown-Ready = record {
      items = follow-items c.kernel (IsItem q s) tt d.qsets (c.f_pos / (q * s)) m v.items;
      covered = omega (
        arith,
        v.covered,
        mul-le-mul_right (q * s) (follow-length c.kernel d.qsets (c.f_pos / (q * s)) m).0,
      );
    }

    grown-Same : Same q s d.qsets followed
    unfolding byte_at
    grown-Same p = follow-cell c.kernel d.qsets (c.f_pos / (q * s)) m _ _ _

    reach_item :
        (found : Bool) (m' : Memory)
        → (found ≡ true → c.f_pos / (q * s) < length followed)
        → (out : Outcome) × (write_item c
              (pos q)
              (pos s)
              grown
              m'
              (reached found followed (c.f_pos / (q * s)))
              (place g c low small)
            ≡ done out)
          × Effect q s c grown m' out
    unfolding write_item
    reach_item true m' h =
        let (it, item) = get_elem?-of_lt followed (c.f_pos / (q * s)) (h refl) in
        rw item (write_item-Effect g c low small grown grown-Ready m' it.quanta item)
    reach_item false m' h = (
      nothing g c low small grown m',
      refl,
      refused-Effect g c low small grown m' m'.requests grown-Ready,
    )

    -- Whatever the allocator and the copy do, `scull_write` returns, and has an effect.
    write_locked-Effect :
        (out : Outcome) × (write_locked c (pos q) (pos s) d ≡ done out) × Effect q s c d m out
    unfolding write_locked
    write_locked-Effect = finish (
        reach_item (follow c.kernel d.qsets (c.f_pos / (q * s)) m).1
          (follow c.kernel d.qsets (c.f_pos / (q * s)) m).2
          (follow-length c.kernel d.qsets (c.f_pos / (q * s)) m).1)
      where
        account :
            let m' = (follow c.kernel d.qsets (c.f_pos / (q * s)) m).2 in
            (m'.granted + blocks d.qsets ≡ m.granted + blocks followed) × (m'.freed ≡ m.freed)
        account = follow-blocks c.kernel d.qsets (c.f_pos / (q * s)) m

        finish :
            let (l, found, m') = follow c.kernel d.qsets (c.f_pos / (q * s)) m in
            (out : Outcome) × (write_item c
                  (pos q)
                  (pos s)
                  grown
                  m'
                  (reached found l (c.f_pos / (q * s)))
                  (place g c low small)
                ≡ done out)
              × Effect q s c grown m' out
            → (out : Outcome) × (write_locked c (pos q) (pos s) d ≡ done out) × Effect q s c d m out
        finish (out, ran, e) = (
          out,
          rw (write_locked, locate-pos g c.f_pos low) ran,
          Effect-before q s refl refl refl (follow-length c.kernel d.qsets (c.f_pos / (q * s)) m).0
              account.0 account.1 grown-Same e,
        )

    pub write-Effect : (out : Outcome) × (write c false d ≡ done out) × Effect q s c d m out
    unfolding write
    write-Effect = (write_locked-Effect.0, same_call ∙ write_locked-Effect.1, write_locked-Effect.2)
      where
        same_call : write_locked c d.quantum d.qset d ≡ write_locked c (pos q) (pos s) d
        same_call = ap₂ (λ a b. write_locked c a b d) v.quantum v.qset
