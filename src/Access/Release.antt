-- ===== src/Access/Release.antt =====
-- 实验7/scull/access.c: what `scull_access_cleanup` gives back.
use linux_kernel_experiment.Prelude.{ℕ, ◌+◌, ◌≡◌, refl, ap, ◌∙◌, List, [], ◌∷◌, All, arith}
use linux_kernel_experiment.Kernel.{done}
use linux_kernel_experiment.Scull.Device.{Dev, Params}
use linux_kernel_experiment.Scull.Shape.{IsValid, blocks}
use linux_kernel_experiment.Scull.Trim.{trim-blocks}
use linux_kernel_experiment.Chrdev.{
  Ledger, Span, Slot, cdev_del, give_back, unregister_chrdev_region,
}
use linux_kernel_experiment.Chrdev.Tally.{one, one?, used}
use linux_kernel_experiment.Module.Stop.{
  Less, Less-trans, Less-refl, cdev_del-Less, give_back-Less, unregister-Less, IsSound,
  device_blocks, none_of,
}
use linux_kernel_experiment.Access.Private.{Item}
use linux_kernel_experiment.Access.Start.{
  AccessModule, access_devs, after, drop_static, drop_cloned, access_cleanup,
}

-- a cloned device of any valid shape, and the blocks of all
abbrev pub IsKept : Item → Type 0
IsKept x = (q : ℕ) × (n : ℕ) × IsValid q n x.device

abbrev pub cloned_blocks : List Item → ℕ
cloned_blocks [] = 0
cloned_blocks (x ∷ items) = blocks x.device.qsets + 1 + cloned_blocks items

drop_static-Less :
    (g : Params) (slots : List (Slot Dev)) (l : Ledger)
    → All IsSound slots
    → (l' : Ledger) × (drop_static g slots l ≡ done l')
      × Less l l' none_of (λ k. used k slots) (device_blocks slots)
unfolding drop_static
drop_static-Less g [] l h = (l, refl, Less-refl l)
drop_static-Less g (s ∷ slots) l h =
    let (q, n, v) = h.0 in
    let b = blocks s.dev.qsets in
    let l1 = cdev_del s.cdev l in
    let (l', run, less) = drop_static-Less g slots (give_back b l1) h.1 in
    (
      l',
      rw (trim-blocks q n g s.dev l1.memory v) run,
      Less-trans
          (Less-trans {c'' = λ k. one? k s.cdev} (cdev_del-Less s.cdev l) (give_back-Less b l1)
            (λ k. refl) (λ k. omega arith) refl)
          less (λ k. omega arith) (λ k. omega arith) (omega arith),
    )

drop_cloned-Less :
    (g : Params) (items : List Item) (l : Ledger)
    → All IsKept items
    → (l' : Ledger) × (drop_cloned g items l ≡ done l')
      × Less l l' none_of none_of (cloned_blocks items)
unfolding drop_cloned
drop_cloned-Less g [] l h = (l, refl, Less-refl l)
drop_cloned-Less g (x ∷ items) l h =
    let (q, n, v) = h.0 in
    let b = blocks x.device.qsets in
    let (l', run, less) = drop_cloned-Less g items (give_back 1 (give_back b l)) h.1 in
    (
      l',
      rw (trim-blocks q n g x.device l.memory v) run,
      Less-trans
          (Less-trans {r'' = none_of} {c'' = none_of} (give_back-Less b l)
            (give_back-Less 1 (give_back b l)) (λ k. refl) (λ k. refl) refl)
          less (λ k. omega arith) (λ k. omega arith) (omega arith),
    )

-- With valid devices the cleanup runs to its end: the numbers and the four devices are registered no
-- more, and every block of the four devices and of the cloned ones, and every item, is freed.
access_cleanup-Less :
    (g : Params) (s : AccessModule)
    → All IsSound s.slots
    → All IsKept s.list
    → (l' : Ledger) × (access_cleanup g s ≡ done l')
      × Less s.ledger l'
          (λ k. one k (record { first = s.first; count = access_devs }))
          (λ k. used k s.slots)
          (device_blocks s.slots + cloned_blocks s.list)
unfolding access_cleanup
access_cleanup-Less g s sound kept =
    let a : Span = record { first = s.first; count = access_devs } in
    let (l1, run1, less1) = drop_static-Less g s.slots s.ledger sound in
    let (l2, run2, less2) = drop_cloned-Less g s.list l1 kept in
    (
      unregister_chrdev_region a l2,
      ap
            (λ r.
              after r
                (λ l. after (drop_cloned g s.list l) (λ l'. done (unregister_chrdev_region a l'))))
            run1
          ∙ ap (λ r. after r (λ l'. done (unregister_chrdev_region a l'))) run2,
      Less-trans
          (Less-trans {r'' = none_of} {c'' = λ k. used k s.slots} less1 less2 (λ k. refl)
            (λ k. omega arith) refl)
          (unregister-Less a l2) (λ k. omega arith) (λ k. omega arith) (omega arith),
    )
