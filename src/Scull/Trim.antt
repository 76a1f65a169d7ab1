-- ===== src/Scull/Trim.antt =====
-- 实验7/scull/main.c: `scull_trim` frees every block that the device owns, each once, and touches
-- nothing outside its arrays.
use linux_kernel_experiment.Prelude.{
  ℕ, ◌+◌, ◌≡◌, refl, Option, none, some, List, [], ◌∷◌, All, length, arith,
}
use linux_kernel_experiment.Kernel.{Memory, kfree, done}
use linux_kernel_experiment.Scull.Device.{
  Quantum, Qset, Dev, Params, empty_dev, free_quanta, free_qset, free_list, trim,
}
use linux_kernel_experiment.Scull.Shape.{
  IsArray, IsItem, IsValid, blocks, blocks_quanta, blocks_array,
}

free_quanta-blocks : (qs : List Quantum) → free_quanta (length qs) qs ≡ some (blocks_quanta qs)
unfolding free_quanta blocks_quanta
free_quanta-blocks [] = refl
free_quanta-blocks (b ∷ qs) = ground (arith, free_quanta-blocks qs)

module _ (q s : ℕ) where
  free_qset-blocks :
      (a : Option (List Quantum))
      → IsArray q s a
      → free_qset s (record { quanta = a }) ≡ some (blocks_array a + 1)
  unfolding free_qset
  free_qset-blocks none h = refl
  free_qset-blocks (some qs) h = ground (arith, free_quanta-blocks qs)

  free_list-blocks : (l : List Qset) → All (IsItem q s) l → free_list s l ≡ some (blocks l)
  unfolding free_list blocks
  free_list-blocks [] h = refl
  free_list-blocks (it ∷ l) h =
      ground (arith, free_qset-blocks it.quanta h.0, free_list-blocks l h.1)

  -- On a valid device, of any geometry, `scull_trim` runs without a fault, leaves the empty device
  -- with the module's current parameters, and frees exactly the blocks that the device owned.
  pub trim-blocks :
      (g : Params) (d : Dev) (m : Memory)
      → IsValid q s d
      → trim g d m ≡ done (empty_dev g, kfree (blocks d.qsets) m)
  unfolding trim
  trim-blocks g d m v = ground (arith, free_list-blocks d.qsets v.items)
