-- ===== src/Scull/Put.antt =====
-- 实验7/scull/main.c: what an assignment to `dev->data[item]->data[s_pos]` does to the bytes of a
-- device and to the number of its blocks.
use native.Mathlib.Decide.{ℕ_discrete}
use linux_kernel_experiment.Prelude.{
  ℕ, zero, suc, ◌+◌, ◌≡◌, ◌≢◌, refl, subst, Option, none, some, List, [], ◌∷◌, arith, length,
  get_elem?, set, get_elem?-set_self, get_elem?-set_ne, get_elem?-lt, All-set, All-get, All,
  replicate, All-replicate, length-set, length-replicate,
}
use linux_kernel_experiment.Scull.Device.{Quantum, Qset, block_count}
use linux_kernel_experiment.Scull.Transfer.{put_block}
use linux_kernel_experiment.Scull.Shape.{
  IsQuantum, IsArray, IsItem, cell, blocks, blocks_quanta, blocks_array, quantum_byte,
}

-- The counts before and after an assignment.
blocks_quanta-set :
    (qs : List Quantum) (j : ℕ) (b b' : Quantum)
    → get_elem? qs j ≡ some b
    → blocks_quanta (set qs j b') + block_count b ≡ blocks_quanta qs + block_count b'
unfolding blocks_quanta
blocks_quanta-set [] j b b' e = absurd (cc)
blocks_quanta-set (x ∷ qs) zero b b' e = ground arith
blocks_quanta-set (x ∷ qs) (suc j) b b' e = omega (arith, blocks_quanta-set qs j b b' e)

pub blocks-set :
    (l : List Qset) (i : ℕ) (a a' : Option (List Quantum))
    → get_elem? l i ≡ some (record { quanta = a })
    → blocks (set l i (record { quanta = a' })) + blocks_array a ≡ blocks l + blocks_array a'
unfolding blocks
blocks-set [] i a a' e = absurd (cc)
blocks-set (x ∷ l) zero a a' e = ground arith
blocks-set (x ∷ l) (suc i) a a' e = omega (arith, blocks-set l i a a' e)

pub blocks_quanta-empty : (n : ℕ) → blocks_quanta (replicate n none) ≡ 0
unfolding blocks_quanta
blocks_quanta-empty zero = refl
blocks_quanta-empty (suc n) = omega (arith, blocks_quanta-empty n)

pub quantum_byte-empty : (n j o : ℕ) → quantum_byte (get_elem? (replicate n none) j) o ≡ none
quantum_byte-empty zero j o = refl
quantum_byte-empty (suc n) zero o = refl
quantum_byte-empty (suc n) (suc j) o = quantum_byte-empty n j o

module _ (l : List Qset) (i : ℕ) (qs : List Quantum) (j : ℕ) {b : Quantum} (block : List ℕ)
    (item : get_elem? l i ≡ some (record { quanta = some qs }))
    (slot : get_elem? qs j ≡ some b) where
  -- The assigned quantum holds the block.
  pub cell-put_self : (o : ℕ) → cell (put_block l i qs j block) i j o ≡ get_elem? block o
  cell-put_self o = rw (
    get_elem?-set_self l i (record { quanta = some (set qs j (some block)) })
        (get_elem?-lt l i item),
    get_elem?-set_self qs j (some block) (get_elem?-lt qs j slot),
  )

  -- The other quanta of the item keep their bytes,
  pub cell-put_item : (j' o : ℕ) → j ≢ j' → cell (put_block l i qs j block) i j' o ≡ cell l i j' o
  cell-put_item j' o ne = rw (
    get_elem?-set_self l i (record { quanta = some (set qs j (some block)) })
        (get_elem?-lt l i item),
    get_elem?-set_ne qs (some block) ne,
    item,
  )

  -- and so do the other items.
  pub cell-put_other :
      (i' j' o : ℕ) → i ≢ i' → cell (put_block l i qs j block) i' j' o ≡ cell l i' j' o
  cell-put_other i' j' o ne =
      rw (get_elem?-set_ne l (record { quanta = some (set qs j (some block)) }) ne)

  -- One block more, if there was none.
  pub blocks-put : blocks (put_block l i qs j block) + block_count b ≡ blocks l + 1
  blocks-put = omega (
    arith,
    blocks-set l i (some qs) (some (set qs j (some block))) item,
    blocks_quanta-set qs j b (some block) slot,
  )

  -- The shape stays.
  pub put-items :
      (q s : ℕ)
      → length block ≡ q
      → All (IsItem q s) l
      → All (IsItem q s) (put_block l i qs j block)
  put-items q s e h = All-set (IsItem q s) l i _ h (
    rw (length-set qs j (some block)) array.0,
    All-set (IsQuantum q s) qs j (some block) array.1 e,
  )
    where
      array : IsArray q s (some qs)
      array = All-get (IsItem q s) l i h item

abbrev pub with_array : List Qset → ℕ → ℕ → List Qset
with_array l i n = set l i (record { quanta = some (replicate n none) })

-- An array of NULLs in place of none: no byte changes, and there is one block more.
module _ (l : List Qset) (i n : ℕ) (item : get_elem? l i ≡ some (record { quanta = none })) where
  abbrev fresh : List Qset
  fresh = with_array l i n

  pub fresh-item : get_elem? fresh i ≡ some (record { quanta = some (replicate n none) })
  fresh-item =
      get_elem?-set_self l i (record { quanta = some (replicate n none) }) (get_elem?-lt l i item)

  cell-fresh_self : (j o : ℕ) → cell fresh i j o ≡ cell l i j o
  cell-fresh_self j o = rw (fresh-item, item) (quantum_byte-empty n j o)

  pub cell-fresh : (i' j o : ℕ) → cell fresh i' j o ≡ cell l i' j o
  cell-fresh i' j o = elim (ℕ_discrete i i') [
    | yes e ↦ subst (λ x. cell fresh x j o ≡ cell l x j o) e (cell-fresh_self j o)
    | no ne ↦ rw (get_elem?-set_ne l (record { quanta = some (replicate n none) }) ne)
  ]

  pub blocks-fresh : blocks fresh ≡ blocks l + 1
  blocks-fresh =
      omega (arith, blocks-set l i none (some (replicate n none)) item, blocks_quanta-empty n)

  pub fresh-items : (q : ℕ) → All (IsItem q n) l → All (IsItem q n) fresh
  fresh-items q h =
      All-set (IsItem q n) l i _ h
        (length-replicate n none, All-replicate (IsQuantum q n) n none tt)
