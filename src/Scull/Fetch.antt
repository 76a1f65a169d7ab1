-- ===== src/Scull/Fetch.antt =====
-- 实验7/scull/main.c: `scull_read` on a valid device, step by step.
use native.Mathlib.Nat.{div-lt_iff_lt-mul}
use linux_kernel_experiment.Prelude.{
  ℕ, ◌+◌, ◌*◌, ◌/◌, ◌<◌, ◌≤◌, ◌≡◌, inl, inr, refl, ap, ap₂, ◌∙◌, sym, subst, false, Option, none,
  some, List, ◌++◌, arith, length, get_elem?, get_elem?-of_lt, All-get, pos, leb, ◌==◌, Bool-cases,
  ==→eq, le→ltb, leb→le, lt→leb, drop, slice, length-slice, get_elem?-slice,
}
use linux_kernel_experiment.Kernel.{Run, done, count, error, efault}
use linux_kernel_experiment.Scull.Device.{Quantum, Qset, Dev}
use linux_kernel_experiment.Scull.Transfer.{
  Call, Outcome, Place, available, leave, read_block, read_item, read_locked, read,
}
use linux_kernel_experiment.Scull.Geometry.{
  Geometry, s_of, q_of, q_of-lt, s_of-lt, clip-pos, locate-pos, item_pos,
}
use linux_kernel_experiment.Scull.Place.{place-add}
use linux_kernel_experiment.Scull.Shape.{IsQuantum, IsArray, IsItem, IsValid, byte_at, cell}
use linux_kernel_experiment.Scull.Walk.{follow-within}
use linux_kernel_experiment.Scull.Effect.{span}
use linux_kernel_experiment.Scull.Assign.{span-le}

-- the bytes that a read may return: up to the end of the data, and of the quantum
abbrev pub extent : ℕ → ℕ → Dev → ℕ → ℕ → ℕ
extent q s d p n = span q s p (available d.size p n)

-- The position is past the data, it lies in a hole, bytes were returned, or user memory could not
-- be written.
pub data Fetched (q s : ℕ) (c : Call) (d : Dev) (out : Outcome) : Type 0 where
  ended :
      d.size ≤ c.f_pos
      → out.reply ≡ count 0
      → out.f_pos ≡ c.f_pos
      → out.user ≡ c.user
      → Fetched q s c d out
  hole :
      byte_at q s d.qsets c.f_pos ≡ none
      → out.reply ≡ count 0
      → out.f_pos ≡ c.f_pos
      → out.user ≡ c.user
      → Fetched q s c d out
  copied :
      (bytes : List ℕ)
      → length bytes ≡ extent q s d c.f_pos c.n
      → out.reply ≡ count (length bytes)
      → out.f_pos ≡ c.f_pos + length bytes
      → out.user ≡ bytes ++ drop (length bytes) c.user
      → ((i : ℕ) → i < length bytes → byte_at q s d.qsets (c.f_pos + i) ≡ get_elem? bytes i)
      → Fetched q s c d out
  faulted : out.reply ≡ error efault → out.f_pos ≡ c.f_pos → Fetched q s c d out

-- what a read leaves: the device and the allocator as they were
pub record Read (q s : ℕ) (c : Call) (d : Dev) (out : Outcome) : Type 0 where
  pub dev : out.dev ≡ d
  pub memory : out.memory ≡ c.memory
  pub fetched : Fetched q s c d out

module _ {q s : ℕ} (g : Geometry q s) (c : Call) (d : Dev) (v : IsValid q s d) where
  abbrev place : Place
  place = record {
    item = c.f_pos / (q * s);
    s_pos = pos (s_of q s c.f_pos);
    q_pos = pos (q_of q s c.f_pos);
  }

  abbrev Reads : Run Outcome → Type 0
  Reads r = (out : Outcome) × (r ≡ done out) × Read q s c d out

  abbrev wanted : ℕ
  wanted = available d.size c.f_pos c.n

  at_hole : byte_at q s d.qsets c.f_pos ≡ none → Reads (leave c d c.memory (count 0))
  at_hole e = (_, refl, record { dev = refl; memory = refl; fetched = hole e refl refl refl })

  module _ (block : List ℕ) (full : length block ≡ q)
      (held : (o : ℕ)
        → cell d.qsets (c.f_pos / (q * s)) (s_of q s c.f_pos) o ≡ get_elem? block o) where
    abbrev size : ℕ
    size = extent q s d c.f_pos c.n

    abbrev bytes : List ℕ
    bytes = slice block (q_of q s c.f_pos) size

    inside : q_of q s c.f_pos + size ≤ length block
    inside = omega (arith, full, (span-le q s c.f_pos wanted (q_of-lt g c.f_pos)).0)

    length-bytes : length bytes ≡ size
    length-bytes = length-slice block (q_of q s c.f_pos) size inside

    bytes_at : (i : ℕ) → i < length bytes → byte_at q s d.qsets (c.f_pos + i) ≡ get_elem? bytes i
    unfolding byte_at
    bytes_at i h =
        rw (next.0, next.1, next.2)
          (held (q_of q s c.f_pos + i)
            ∙ sym (get_elem?-slice block (q_of q s c.f_pos) size i (omega (arith, length-bytes))))
      where
        next :
            ((c.f_pos + i) / (q * s) ≡ c.f_pos / (q * s))
            × (s_of q s (c.f_pos + i) ≡ s_of q s c.f_pos)
            × (q_of q s (c.f_pos + i) ≡ q_of q s c.f_pos + i)
        next = place-add g c.f_pos i (omega (arith, length-bytes, inside, full))

    read_block-Reads : Reads (read_block c d c.memory block (pos (q_of q s c.f_pos)) size)
    unfolding read_block
    read_block-Reads = elim (Bool-cases ((c.kernel.copy_to_user c.user bytes).1 == 0)) [
      | inl all ↦ (
        record {
          dev = d;
          memory = c.memory;
          f_pos = c.f_pos + size;
          user = (c.kernel.copy_to_user c.user bytes).0;
          reply = count size;
        },
        rw (le→ltb _ _ inside, all),
        record {
          dev = refl;
          memory = refl;
          fetched =
              copied bytes length-bytes (ap count (sym length-bytes))
                (ap (◌+◌ c.f_pos) (sym length-bytes))
                (c.kernel.copy_to_user_all c.user bytes (==→eq _ _ all)) bytes_at;
        },
      )
      | inr some_left ↦ (
        record {
          dev = d;
          memory = c.memory;
          f_pos = c.f_pos;
          user = (c.kernel.copy_to_user c.user bytes).0;
          reply = error efault;
        },
        rw (le→ltb _ _ inside, some_left),
        record { dev = refl; memory = refl; fetched = faulted refl refl },
      )
    ]

  module _ (a : Option (List Quantum))
      (item : get_elem? d.qsets (c.f_pos / (q * s)) ≡ some (record { quanta = a })) where
    read_quantum-Reads :
        (qs : List Quantum)
        → a ≡ some qs
        → (b : Quantum) → get_elem? qs (s_of q s c.f_pos) ≡ some b
        → Reads (read_item c (pos q) d c.memory (some (record { quanta = some qs })) place wanted)
    unfolding read_item byte_at
    read_quantum-Reads qs e none slot = rw (read_item, slot) (at_hole (rw (item, e, slot)))
    read_quantum-Reads qs e (some block) slot =
        rw (read_item, slot, clip-pos g (q_of q s c.f_pos) wanted (q_of-lt g c.f_pos))
          (read_block-Reads block (All-get (IsQuantum q s) qs (s_of q s c.f_pos) array.1 slot) held)
      where
        array : IsArray q s (some qs)
        array =
            subst (IsArray q s) e (All-get (IsItem q s) d.qsets (c.f_pos / (q * s)) v.items item)

        held : (o : ℕ) → cell d.qsets (c.f_pos / (q * s)) (s_of q s c.f_pos) o ≡ get_elem? block o
        held o = rw (item, e, slot)

  read_item-Reads :
      (a : Option (List Quantum))
      → get_elem? d.qsets (c.f_pos / (q * s)) ≡ some (record { quanta = a })
      → Reads (read_item c (pos q) d c.memory (some (record { quanta = a })) place wanted)
  unfolding read_item byte_at
  read_item-Reads none item = at_hole (rw item)
  read_item-Reads (some qs) item =
      let (b, slot) =
        get_elem?-of_lt qs (s_of q s c.f_pos) (omega (arith, array.0, s_of-lt g c.f_pos)) in
      read_quantum-Reads (some qs) item qs refl b slot
    where
      array : IsArray q s (some qs)
      array = All-get (IsItem q s) d.qsets (c.f_pos / (q * s)) v.items item

  read_data-Reads : c.f_pos < d.size → Reads (read_locked c (pos q) (pos s) d)
  unfolding read_locked
  read_data-Reads h =
      rw
        (
          lt→leb _ _ h,
          read_locked,
          locate-pos g c.f_pos (omega (arith, v.limit)),
          follow-within c.kernel d.qsets (c.f_pos / (q * s)) c.memory in_list,
          found.1,
        )
        (read_item-Reads found.0.quanta found.1)
    where
      in_list : c.f_pos / (q * s) < length d.qsets
      in_list = (div-lt_iff_lt-mul (item_pos g)).1 (omega (arith, v.covered))

      found : (it : Qset) × (get_elem? d.qsets (c.f_pos / (q * s)) ≡ some it)
      found = get_elem?-of_lt d.qsets (c.f_pos / (q * s)) in_list

  read_locked-Reads : Reads (read_locked c (pos q) (pos s) d)
  unfolding read_locked
  read_locked-Reads = elim (Bool-cases (leb d.size c.f_pos)) [
    | inl past ↦ (
      record { dev = d; memory = c.memory; f_pos = c.f_pos; user = c.user; reply = count 0 },
      rw (read_locked, past),
      record { dev = refl; memory = refl; fetched = ended (leb→le _ _ past) refl refl refl },
    )
    | inr before ↦ read_data-Reads (ground arith)
  ]

  pub read-Reads : (out : Outcome) × (read c false d ≡ done out) × Read q s c d out
  unfolding read
  read-Reads = (read_locked-Reads.0, same_call ∙ read_locked-Reads.1, read_locked-Reads.2)
    where
      same_call : read_locked c d.quantum d.qset d ≡ read_locked c (pos q) (pos s) d
      same_call = ap₂ (λ a b. read_locked c a b d) v.quantum v.qset
