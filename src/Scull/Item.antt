-- ===== src/Scull/Item.antt =====
-- 实验7/scull/main.c: the part of `scull_write` after `scull_follow`, which returns with an `Effect`.
use linux_kernel_experiment.Prelude.{
  ℕ, ◌+◌, ◌*◌, ◌/◌, ◌^◌, ◌<◌, ◌≤◌, ◌≡◌, inl, inr, refl, ap, Option, none, some, List, arith, length,
  get_elem?, get_elem?-of_lt, All-get, length-set, pos, bits32, bits32-pos, Option-cases, tabulate,
  length-tabulate, replicate, ◌∙◌,
}
use linux_kernel_experiment.Kernel.{Memory, kmalloc, done, error, enomem}
use linux_kernel_experiment.Scull.Device.{Quantum, Dev}
use linux_kernel_experiment.Scull.Transfer.{
  Call, Outcome, Place, clip, array_size, write_quantum, write_quanta, write_item,
}
use linux_kernel_experiment.Scull.Geometry.{
  Geometry, s_of, q_of, q_of-lt, s_of-lt, quantum_small, clip-pos, array_size-eq,
}
use linux_kernel_experiment.Scull.Shape.{IsQuantum, IsArray, IsItem, byte_at}
use linux_kernel_experiment.Scull.Put.{
  with_array, fresh-item, cell-fresh, blocks-fresh, fresh-items,
}
use linux_kernel_experiment.Scull.Effect.{refused, Same, Effect, Effect-before}
use linux_kernel_experiment.Scull.Assign.{Ready, width, write_block-Effect}

module _ {q s : ℕ} (g : Geometry q s) (c : Call) (low : c.f_pos < 2 ^ 31)
    (small : c.f_pos + c.n ≤ 2 ^ 31) where
  abbrev pub place : Place
  place = record {
    item = c.f_pos / (q * s);
    s_pos = pos (s_of q s c.f_pos);
    q_pos = pos (q_of q s c.f_pos);
  }

  abbrev pub nothing : Dev → Memory → Outcome
  nothing d m = record { dev = d; memory = m; f_pos = c.f_pos; user = c.user; reply = error enomem }

  -- A refused allocation changes nothing.
  pub refused-Effect :
      (d : Dev) (m : Memory) (asked : ℕ)
      → Ready q s d
      → Effect q s c d m (nothing d (record m { requests = asked }))
  refused-Effect d m asked ready = record {
    quantum = refl;
    qset = refl;
    items = ready.items;
    longer = omega arith;
    granted = refl;
    freed = refl;
    user = refl;
    result = refused refl refl refl (λ p. refl);
  }

  clip-width : clip (pos q) (pos (q_of q s c.f_pos)) c.n ≡ width g c low small
  clip-width = clip-pos g (q_of q s c.f_pos) c.n (q_of-lt g c.f_pos)

  module _ (d : Dev) (ready : Ready q s d) (qs : List Quantum)
      (item : get_elem? d.qsets (c.f_pos / (q * s)) ≡ some (record { quanta = some qs })) where
    array : IsArray q s (some qs)
    array = All-get (IsItem q s) d.qsets (c.f_pos / (q * s)) ready.items item

    write_quantum-Effect :
        (m : Memory) (b : Quantum)
        → get_elem? qs (s_of q s c.f_pos) ≡ some b
        → (out : Outcome) × (write_quantum c (pos q) d m (s_of q s c.f_pos) qs place c.n b
            ≡ done out)
          × Effect q s c d m out
    unfolding write_quantum
    write_quantum-Effect m (some block) slot = rw clip-width (
        write_block-Effect g c low small d ready qs item m m slot block
          (All-get (IsQuantum q s) qs (s_of q s c.f_pos) array.1 slot) (inl refl) refl refl)
    write_quantum-Effect m none slot =
        elim (Option-cases (c.kernel.kmalloc m.requests (bits32 (pos q)))) [
          | inl full ↦ (
            nothing d (record m { requests = m.requests + 1 }),
            ground arith,
            refused-Effect d m (m.requests + 1) ready,
          )
          | inr (f, got) ↦
              rw (write_quantum, got, clip-width)
                (write_block-Effect g c low small d ready qs item m
                  (kmalloc c.kernel (bits32 (pos q)) m).1 slot (tabulate f 0 (bits32 (pos q)))
                  (length-tabulate f 0 (bits32 (pos q))
                    ∙ bits32-pos q (omega (arith, quantum_small g)))
                  (inr refl) (rw got (omega arith)) (rw got refl))
        ]

    write_quanta-Effect :
        (m : Memory)
        → (out : Outcome) × (write_quanta c (pos q) d m qs place c.n ≡ done out)
          × Effect q s c d m out
    unfolding write_quanta
    write_quanta-Effect m =
        let (b, slot) =
          get_elem?-of_lt qs (s_of q s c.f_pos) (omega (arith, array.0, s_of-lt g c.f_pos)) in
        rw (slot, write_quanta) (write_quantum-Effect m b slot)

  module _ (d : Dev) (ready : Ready q s d) (m : Memory) where
    -- the device with a new array in the item
    abbrev arrayed : Dev
    arrayed = record d { qsets = with_array d.qsets (c.f_pos / (q * s)) s }

    arrayed-Ready :
        get_elem? d.qsets (c.f_pos / (q * s)) ≡ some (record { quanta = none }) → Ready q s arrayed
    arrayed-Ready item = record {
      items = fresh-items d.qsets (c.f_pos / (q * s)) s item q ready.items;
      covered = omega (
        arith,
        ready.covered,
        ap (λ k. k * (q * s))
            (length-set d.qsets (c.f_pos / (q * s)) (record { quanta = some (replicate s none) })),
      );
    }

    pub write_item-Effect :
        (a : Option (List Quantum))
        → get_elem? d.qsets (c.f_pos / (q * s)) ≡ some (record { quanta = a })
        → (out : Outcome) × (write_item c (pos q) (pos s) d m (some (record { quanta = a })) place
            ≡ done out)
          × Effect q s c d m out
    unfolding write_item byte_at
    write_item-Effect (some qs) item = write_quanta-Effect d ready qs item m
    write_item-Effect none item =
        elim (Option-cases (c.kernel.kmalloc m.requests (array_size (pos s)))) [
          | inl full ↦ (
            nothing d (record m { requests = m.requests + 1 }),
            ground arith,
            refused-Effect d m (m.requests + 1) ready,
          )
          | inr (f, got) ↦ finish f got (
              write_quanta-Effect arrayed (arrayed-Ready item) (replicate s none)
                (fresh-item d.qsets (c.f_pos / (q * s)) s item)
                (kmalloc c.kernel (array_size (pos s)) m).1)
        ]
      where
        set_length : length arrayed.qsets ≡ length d.qsets
        set_length =
            length-set d.qsets (c.f_pos / (q * s)) (record { quanta = some (replicate s none) })

        cells :
            get_elem? d.qsets (c.f_pos / (q * s)) ≡ some (record { quanta = none })
            → Same q s d.qsets arrayed.qsets
        cells item p = cell-fresh d.qsets (c.f_pos / (q * s)) s item _ _ _

        array_slots : array_size (pos s) / 4 ≡ s
        array_slots = omega (arith, array_size-eq g)

        finish :
            (f : ℕ → ℕ)
            → c.kernel.kmalloc m.requests (array_size (pos s)) ≡ some f
            → (out : Outcome) × (write_quanta c
                  (pos q)
                  arrayed
                  (kmalloc c.kernel (array_size (pos s)) m).1
                  (replicate s none)
                  place
                  c.n
                ≡ done out)
              × Effect q s c arrayed (kmalloc c.kernel (array_size (pos s)) m).1 out
            → (out : Outcome) × (write_item c
                  (pos q)
                  (pos s)
                  d
                  m
                  (some (record { quanta = none }))
                  place
                ≡ done out)
              × Effect q s c d m out
        finish f got (out, ran, e) = (
          out,
          rw (write_item, got, array_slots) ran,
          Effect-before q s refl refl refl (omega (arith, set_length))
              (rw got (omega (arith, blocks-fresh d.qsets (c.f_pos / (q * s)) s item)))
              (rw got refl) (cells item) e,
        )
