-- ===== src/Scull/Device.antt =====
-- 实验7/scull/scull.h and main.c: the bare device, a list of quantum sets, and the two functions
-- that every other operation goes through, `scull_trim` and `scull_follow`.
-- The list is owned by `dev->data` and each block by one pointer, so the blocks form a tree: a
-- `next` of NULL is the end of the list, a NULL `data` or quantum is `none`.
use linux_kernel_experiment.Prelude.{
  ℕ, zero, suc, ◌+◌, Bool, true, false, Option, none, some, List, [], ◌∷◌, ℤ, pos_part,
}
use linux_kernel_experiment.Kernel.{Kernel, Memory, kmalloc, kfree, Run, done, crash}

-- a quantum: NULL or a block of bytes
abbrev pub Quantum : Type 0
Quantum = Option (List ℕ)

-- `struct scull_qset`, its `next` being the tail of the list that it stands in
pub record Qset : Type 0 where
  pub quanta : Option (List Quantum)

-- `struct scull_dev`, without the fields that the kernel alone uses
pub record Dev : Type 0 where
  pub qsets : List Qset
  pub quantum : ℤ
  pub qset : ℤ
  pub size : ℕ

-- the module's parameters, which `ioctl` may change
pub record Params : Type 0 where
  pub scull_quantum : ℤ
  pub scull_qset : ℤ
  pub scull_p_buffer : ℤ

-- a zeroed `struct scull_qset`
abbrev pub empty_qset : Qset
empty_qset = record { quanta = none }

-- `kfree(NULL)` frees nothing.
abbrev pub block_count {ℓ} : {A : Type ℓ} → Option A → ℕ
block_count none = 0
block_count (some b) = 1

-- `for (i = 0; i < qset; i++) kfree(dptr->data[i])`: the number of blocks freed, or `none` where
-- `data[i]` is outside the array
unfoldable pub free_quanta : ℕ → List Quantum → Option ℕ
free_quanta zero qs = some 0
free_quanta (suc n) [] = none
free_quanta (suc n) (b ∷ qs) = elim (free_quanta n qs) [
  | none ↦ none
  | some c ↦ some (block_count b + c)
]

-- the body of the loop over the list: the quanta, their array and the item itself
unfoldable pub free_qset : ℕ → Qset → Option ℕ
free_qset n q = elim q.quanta [
  | none ↦ some 1
  | some qs ↦ elim (free_quanta n qs) [ none ↦ none | some c ↦ some (c + 2) ]
]

unfoldable pub free_list : ℕ → List Qset → Option ℕ
free_list n [] = some 0
free_list n (q ∷ l) = elim (free_qset n q) [
  | none ↦ none
  | some c ↦ elim (free_list n l) [ none ↦ none | some d ↦ some (c + d) ]
]

abbrev pub empty_dev : Params → Dev
empty_dev g = record { qsets = []; quantum = g.scull_quantum; qset = g.scull_qset; size = 0 }

-- `scull_trim`. A negative `qset` makes no round of the inner loop.
unfoldable pub trim : Params → Dev → Memory → Run (Dev × Memory)
trim g dev m = elim (free_list (pos_part dev.qset) dev.qsets) [
  | none ↦ crash
  | some n ↦ done (empty_dev g, kfree n m)
]

-- `while (n--)` from the item `q` whose `next` leads to `rest`: the list as it then is, whether the
-- item was reached, and the allocator. A missing item is allocated on the way.
unfoldable pub walk : Kernel → ℕ → Qset → List Qset → Memory → List Qset × Bool × Memory
walk k zero q rest m = (q ∷ rest, true, m)
walk k (suc n) q [] m =
    let (block, m') = kmalloc k 8 m in
    elim block [
      | none ↦ (q ∷ [], false, m')
      | some _ ↦ let (l, found, m'') = walk k n empty_qset [] m' in (q ∷ l, found, m'')
    ]
walk k (suc n) q (r ∷ rest) m = let (l, found, m') = walk k n r rest m in (q ∷ l, found, m')

-- `scull_follow`. The counter `n` is an `int` that the loop counts down to 0, round the whole range
-- if it is negative: as many rounds as its 32 bits say.
unfoldable pub follow : Kernel → List Qset → ℕ → Memory → List Qset × Bool × Memory
follow k [] n m =
    let (block, m') = kmalloc k 8 m in
    elim block [ none ↦ ([], false, m') | some _ ↦ walk k n empty_qset [] m' ]
follow k (q ∷ rest) n m = walk k n q rest m
