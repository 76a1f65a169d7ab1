-- ===== src/Scull/Walk.antt =====
-- 实验7/scull/main.c: `scull_follow` reaches the item that is asked for. What it appends is empty,
-- so no byte of the device changes, and every block that it was granted hangs in the list.
use linux_kernel_experiment.Prelude.{
  ℕ, zero, suc, ◌+◌, ◌≤◌, ◌<◌, ◌≡◌, refl, true, List, [], ◌∷◌, All, length, arith,
}
use linux_kernel_experiment.Kernel.{Kernel, Memory, kmalloc}
use linux_kernel_experiment.Scull.Device.{Qset, empty_qset, walk, follow}
use linux_kernel_experiment.Scull.Shape.{cell, blocks}

module _ (k : Kernel) where
  walk-items :
      (P : Qset → Type 0)
      → P empty_qset
      → (n : ℕ) (it : Qset) (l : List Qset) (m : Memory) → P it
      → All P l
      → All P (walk k n it l m).0
  unfolding walk
  walk-items P e zero it l m p h = (p, h)
  walk-items P e (suc n) it [] m p h =
      ground (arith, walk-items P e n empty_qset [] (kmalloc k 8 m).1 e tt)
  walk-items P e (suc n) it (r ∷ l) m p h = (p, walk-items P e n r l m h.0 h.1)

  walk-length :
      (n : ℕ) (it : Qset) (l : List Qset) (m : Memory)
      → (suc (length l) ≤ length (walk k n it l m).0)
        × ((walk k n it l m).1 ≡ true → n < length (walk k n it l m).0)
  unfolding walk
  walk-length zero it l m = omega arith
  walk-length (suc n) it [] m = ground (arith, walk-length n empty_qset [] (kmalloc k 8 m).1)
  walk-length (suc n) it (r ∷ l) m = ground (arith, walk-length n r l m)

  walk-cell :
      (n : ℕ) (it : Qset) (l : List Qset) (m : Memory) (i j o : ℕ)
      → cell (walk k n it l m).0 i j o ≡ cell (it ∷ l) i j o
  unfolding walk
  walk-cell zero it l m i j o = refl
  walk-cell (suc n) it [] m zero j o = ground arith
  walk-cell (suc n) it [] m (suc zero) j o =
      ground (arith, walk-cell n empty_qset [] (kmalloc k 8 m).1 0 j o)
  walk-cell (suc n) it [] m (suc (suc i)) j o =
      ground (arith, walk-cell n empty_qset [] (kmalloc k 8 m).1 (suc i) j o)
  walk-cell (suc n) it (r ∷ l) m zero j o = refl
  walk-cell (suc n) it (r ∷ l) m (suc i) j o = walk-cell n r l m i j o

  walk-blocks :
      (n : ℕ) (it : Qset) (l : List Qset) (m : Memory)
      → let (l', found, m') = walk k n it l m in
        (m'.granted + blocks (it ∷ l) ≡ m.granted + blocks l') × (m'.freed ≡ m.freed)
  unfolding walk blocks
  walk-blocks zero it l m = (refl, refl)
  walk-blocks (suc n) it [] m = ground (arith, walk-blocks n empty_qset [] (kmalloc k 8 m).1)
  walk-blocks (suc n) it (r ∷ l) m = ground (arith, walk-blocks n r l m)

  walk-within :
      (n : ℕ) (it : Qset) (l : List Qset) (m : Memory)
      → n < suc (length l)
      → walk k n it l m ≡ (it ∷ l, true, m)
  unfolding walk
  walk-within zero it l m h = refl
  walk-within (suc n) it [] m h = absurd (omega arith)
  walk-within (suc n) it (r ∷ l) m h = rw (walk-within n r l m (omega arith))

  -- `P` of every item, also of those that are appended
  pub follow-items :
      (P : Qset → Type 0)
      → P empty_qset
      → (l : List Qset) (n : ℕ) (m : Memory) → All P l
      → All P (follow k l n m).0
  unfolding follow
  follow-items P e [] n m h = ground (arith, walk-items P e n empty_qset [] (kmalloc k 8 m).1 e tt)
  follow-items P e (it ∷ l) n m h = walk-items P e n it l m h.0 h.1

  -- The list does not get shorter, and an item that was reached is in it.
  pub follow-length :
      (l : List Qset) (n : ℕ) (m : Memory)
      → (length l ≤ length (follow k l n m).0)
        × ((follow k l n m).1 ≡ true → n < length (follow k l n m).0)
  unfolding follow
  follow-length [] n m = ground (arith, walk-length n empty_qset [] (kmalloc k 8 m).1)
  follow-length (it ∷ l) n m = walk-length n it l m

  -- No byte of the device changes.
  pub follow-cell :
      (l : List Qset) (n : ℕ) (m : Memory) (i j o : ℕ)
      → cell (follow k l n m).0 i j o ≡ cell l i j o
  unfolding follow
  follow-cell [] n m zero j o = ground (arith, walk-cell n empty_qset [] (kmalloc k 8 m).1 0 j o)
  follow-cell [] n m (suc i) j o =
      ground (arith, walk-cell n empty_qset [] (kmalloc k 8 m).1 (suc i) j o)
  follow-cell (it ∷ l) n m i j o = walk-cell n it l m i j o

  -- Every block that was granted is in the list.
  pub follow-blocks :
      (l : List Qset) (n : ℕ) (m : Memory)
      → let (l', found, m') = follow k l n m in
        (m'.granted + blocks l ≡ m.granted + blocks l') × (m'.freed ≡ m.freed)
  unfolding follow blocks
  follow-blocks [] n m = ground (arith, walk-blocks n empty_qset [] (kmalloc k 8 m).1)
  follow-blocks (it ∷ l) n m = ground (arith, walk-blocks n it l m)

  -- An item of the list is reached with no allocation.
  pub follow-within :
      (l : List Qset) (n : ℕ) (m : Memory) → n < length l → follow k l n m ≡ (l, true, m)
  unfolding follow
  follow-within [] n m h = absurd (omega arith)
  follow-within (it ∷ l) n m h = walk-within n it l m h
