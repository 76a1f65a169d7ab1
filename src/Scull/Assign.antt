-- ===== src/Scull/Assign.antt =====
-- 实验7/scull/main.c: the last step of `scull_write`, from the copy into the quantum on, on a device
-- of any geometry. It never faults, and has an `Effect`.
use native.Mathlib.Nat.{mod-eq_of_lt, mul-le-mul_right}
use linux_kernel_experiment.Prelude.{
  ℕ, ◌+◌, ◌*◌, ◌/◌, ◌%◌, ◌^◌, ◌<◌, ◌≤◌, ◌≡◌, inl, inr, refl, ◌∙◌, ap, false, some, List, arith,
  length, get_elem?, All, splice, length-splice, length-set, pos, ltb, ◌==◌, if◌then◌else◌,
  Bool-cases, get_elem?-take, length-take, ==→eq, le→ltb, set, subst, get_elem?-lt,
}
use linux_kernel_experiment.Kernel.{Memory, done, count, error, efault}
use linux_kernel_experiment.Scull.Device.{Quantum, Qset, Dev, block_count}
use linux_kernel_experiment.Scull.Transfer.{Call, Outcome, put_block, write_block}
use linux_kernel_experiment.Scull.Geometry.{Geometry, s_of, q_of, q_of-lt}
use linux_kernel_experiment.Scull.Place.{quantum_end}
use linux_kernel_experiment.Scull.Shape.{IsItem, byte_at, blocks}
use linux_kernel_experiment.Scull.Put.{blocks-put, put-items}
use linux_kernel_experiment.Scull.Store.{Replaces, after-bytes, after-Keeps}
use linux_kernel_experiment.Scull.Effect.{span, Keeps, Result, stored, faulted, Effect}

-- The device a step works on: its items are of the geometry, and its size stays within its list.
pub record Ready (q s : ℕ) (d : Dev) : Type 0 where
  pub items : All (IsItem q s) d.qsets
  pub covered : d.size ≤ length d.qsets * (q * s)

pub span-le : (q s p n : ℕ) → q_of q s p < q → (q_of q s p + span q s p n ≤ q) × (span q s p n ≤ n)
span-le q s p n h = ground arith

module _ {q s : ℕ} (g : Geometry q s) (c : Call) (low : c.f_pos < 2 ^ 31)
    (small : c.f_pos + c.n ≤ 2 ^ 31) where
  abbrev pub here : ℕ
  here = c.f_pos / (q * s)

  abbrev pub width : ℕ
  width = span q s c.f_pos c.n

  module _ (d : Dev) (ready : Ready q s d) (qs : List Quantum)
      (item : get_elem? d.qsets here ≡ some (record { quanta = some qs })) where
    module _ (m₀ m : Memory) {b : Quantum} (slot : get_elem? qs (s_of q s c.f_pos) ≡ some b)
        (block : List ℕ) (full : length block ≡ q) (r : Replaces b block)
        (granted : m.granted + block_count b ≡ m₀.granted + 1) (freed : m.freed ≡ m₀.freed) where
      abbrev bytes : List ℕ
      bytes = (c.kernel.copy_from_user c.user width).0

      abbrev written : List Qset
      written = put_block d.qsets here qs (s_of q s c.f_pos) (splice block (q_of q s c.f_pos) bytes)

      length-bytes : length bytes ≡ width
      length-bytes = c.kernel.length-copy_from_user c.user width

      within : (q_of q s c.f_pos + width ≤ q) × (width ≤ c.n)
      within = span-le q s c.f_pos c.n (q_of-lt g c.f_pos)

      written-items : All (IsItem q s) written
      written-items =
          put-items d.qsets here qs (s_of q s c.f_pos) (splice block (q_of q s c.f_pos) bytes) item
            slot q s (length-splice block (q_of q s c.f_pos) bytes ∙ full) ready.items

      written-blocks : m.granted + blocks d.qsets ≡ m₀.granted + blocks written
      written-blocks = omega (
        arith,
        granted,
        blocks-put d.qsets here qs (s_of q s c.f_pos) (splice block (q_of q s c.f_pos) bytes) item
            slot,
      )

      written-Keeps : Keeps q s c.f_pos width d.qsets written
      written-Keeps =
          subst (λ n. Keeps q s c.f_pos n d.qsets written) length-bytes
            (after-Keeps g c.f_pos d.qsets qs block bytes item slot full
              (omega (arith, within.0, length-bytes)) r)

      written-bytes :
          (c.kernel.copy_from_user c.user width).1 ≡ 0
          → (i : ℕ) → i < width
          → byte_at q s written (c.f_pos + i) ≡ get_elem? c.user i
      written-bytes all i h =
          after-bytes g c.f_pos d.qsets qs block bytes item slot full
            (omega (arith, within.0, length-bytes)) i (omega (arith, length-bytes))
          ∙ (ap (λ bs. get_elem? bs i) (c.kernel.copy_from_user_all c.user width all)
              ∙ get_elem?-take width c.user i h)

      enough : (c.kernel.copy_from_user c.user width).1 ≡ 0 → width ≤ length c.user
      enough all = omega (
        arith,
        length-bytes,
        ap length (c.kernel.copy_from_user_all c.user width all),
        length-take width c.user,
      )

      written-longer : length d.qsets ≤ length written
      written-longer = omega (
        arith,
        length-set d.qsets here (record {
          quanta = some (set qs (s_of q s c.f_pos) (some (splice block (q_of q s c.f_pos) bytes)));
        }),
      )

      end : c.f_pos + width ≤ length written * (q * s)
      end = omega (
        arith,
        quantum_end g c.f_pos width within.0,
        mul-le-mul_right (q * s) (get_elem?-lt d.qsets here item),
        ap (λ k. k * (q * s))
            (length-set d.qsets here (record {
              quanta =
                  some (set qs (s_of q s c.f_pos) (some (splice block (q_of q s c.f_pos) bytes)));
            })),
      )

      abbrev ok_out : Outcome
      ok_out = record {
        dev = record d {
          qsets = written;
          size = if ltb d.size (c.f_pos + width) then (c.f_pos + width) % 2 ^ 32 else d.size;
        };
        memory = m;
        f_pos = c.f_pos + width;
        user = c.user;
        reply = count width;
      }

      abbrev bad_out : Outcome
      bad_out = record {
        dev = record d { qsets = written };
        memory = m;
        f_pos = c.f_pos;
        user = c.user;
        reply = error efault;
      }

      no_wrap : ok_out.dev.size ≡ (if ltb d.size (c.f_pos + width) then c.f_pos + width else d.size)
      no_wrap = rw (mod-eq_of_lt {n = c.f_pos + width} {m = 2 ^ 32} (omega (arith, within.1))) refl

      size_within : ok_out.dev.size ≤ length written * (q * s)
      size_within =
          rw no_wrap (ground (arith, end, ready.covered, mul-le-mul_right (q * s) written-longer))

      effect :
          (out : Outcome)
          → out.dev.quantum ≡ d.quantum
          → out.dev.qset ≡ d.qset
          → out.dev.qsets ≡ written
          → out.memory ≡ m
          → out.user ≡ c.user
          → Result q s c d out
          → Effect q s c d m₀ out
      effect out a b e f u res = record {
        quantum = a;
        qset = b;
        items = rw e written-items;
        longer = rw e written-longer;
        granted = rw (e, f) written-blocks;
        freed = rw f freed;
        user = u;
        result = res;
      }

      pub write_block-Effect :
          (out : Outcome) × (write_block c d m here qs
              (s_of q s c.f_pos)
              block
              (pos (q_of q s c.f_pos))
              width
            ≡ done out)
          × Effect q s c d m₀ out
      unfolding write_block
      write_block-Effect = elim (Bool-cases ((c.kernel.copy_from_user c.user width).1 == 0)) [
        | inl all ↦ (
          ok_out,
          rw (room, all),
          effect ok_out refl refl refl refl refl (
              stored width refl refl refl no_wrap size_within (written-bytes (==→eq _ _ all))
                written-Keeps (enough (==→eq _ _ all))),
        )
        | inr some_left ↦ (
          bad_out,
          rw (room, some_left),
          effect bad_out refl refl refl refl refl (faulted refl refl refl written-Keeps),
        )
      ]
        where
          room : ltb (length block) (q_of q s c.f_pos + width) ≡ false
          room = le→ltb _ _ (omega (arith, within.0, full))
