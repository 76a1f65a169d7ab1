-- ===== src/Fixed/Balance.antt =====
-- 实验7/main.c: the driver gives back what it took.
use linux_kernel_experiment.Prelude.{
  ℕ, zero, suc, ◌≡◌, refl, ap, Option, none, some, List, [], ◌∷◌, length, arith,
}
use linux_kernel_experiment.Kernel.{done}
use linux_kernel_experiment.Chrdev.{
  Host, Ledger, Slot, cdev_del, unregister_chrdev_region, give_back,
}
use linux_kernel_experiment.Chrdev.Tally.{one, used}
use linux_kernel_experiment.Module.Stop.{
  Less, Less-trans, Less-refl, cdev_del-Less, give_back-Less, unregister-Less, IsFull, in_array,
  none_of,
}
use linux_kernel_experiment.Fixed.Block.{Block}
use linux_kernel_experiment.Fixed.Start.{
  Driver, own_numbers, drop_blocks, drop_all, free_array, without_devices, stop,
}

drop_blocks-Less :
    (n : ℕ) (slots : List (Slot Block)) (l : Ledger)
    → length slots ≡ n
    → (l' : Ledger) × (drop_blocks n slots l ≡ done l') × Less l l' none_of (λ k. used k slots) 0
unfolding drop_blocks
drop_blocks-Less zero [] l e = (l, refl, Less-refl l)
drop_blocks-Less zero (s ∷ slots) l e = absurd (omega arith)
drop_blocks-Less (suc n) [] l e = absurd (omega arith)
drop_blocks-Less (suc n) (s ∷ slots) l e =
    let (l', run, less) = drop_blocks-Less n slots (cdev_del s.cdev l) (omega arith) in
    (
      l',
      run,
      Less-trans (cdev_del-Less s.cdev l) less (λ k. omega arith) (λ k. omega arith) (omega arith),
    )

drop_all-Less :
    (n : ℕ) (slots : Option (List (Slot Block))) (l : Ledger)
    → IsFull n slots
    → (l' : Ledger) × (drop_all n slots l ≡ done l')
      × Less l l' none_of (λ k. in_array (used k) slots) (in_array (λ a. 1) slots)
drop_all-Less n none l e = (l, refl, Less-refl l)
drop_all-Less n (some slots) l e =
    let (l', run, less) = drop_blocks-Less n slots l e in
    (
      give_back 1 l',
      ap free_array run,
      Less-trans less (give_back-Less 1 l') (λ k. omega arith) (λ k. omega arith) (omega arith),
    )

-- With all its devices in their array, or without an array, the cleanup runs to its end: the numbers
-- and the devices are registered no more, and the array is freed.
stop-Less :
    (h : Host) (s : Driver)
    → IsFull s.devs s.devices
    → (t : Driver) × (stop h s ≡ done t)
      × Less s.ledger t.ledger
          (λ k. one k (own_numbers h s))
          (λ k. in_array (used k) s.devices)
          (in_array (λ a. 1) s.devices)
stop-Less h s e =
    let (l, run, less) = drop_all-Less s.devs s.devices s.ledger e in
    (
      record s { ledger = unregister_chrdev_region (own_numbers h s) l },
      ap (without_devices h s) run,
      Less-trans less (unregister-Less (own_numbers h s) l) (λ k. omega arith) (λ k. omega arith)
          (omega arith),
    )
