-- ===== src/Access/Start.antt =====
-- 实验7/scull/access.c: `scull_access_init` and `scull_access_cleanup`. The calls of the two in main.c are
-- commented out.
use linux_kernel_experiment.Prelude.{ℕ, suc, Option, none, some, List, [], ◌∷◌}
use linux_kernel_experiment.Kernel.{Memory, Run, done, crash, Errno, kfree}
use linux_kernel_experiment.Scull.Device.{Dev, Params, trim}
use linux_kernel_experiment.Chrdev.{
  Host, Ledger, Slot, add_cdev, cdev_del, enter, unregister_chrdev_region,
}
use linux_kernel_experiment.Access.Private.{Item}

-- `SCULL_N_ADEVS`
abbrev pub access_devs : ℕ
access_devs = 4

-- `scull_a_firstdev`, the devices of the table `scull_access_devs`, `scull_c_list`, and what is registered
pub record AccessModule : Type 0 where
  pub first : ℕ
  pub slots : List (Slot Dev)
  pub list : List Item
  pub ledger : Ledger

-- `scull_access_setup` on each device of the table
unfoldable pub access_setup :
    Host → Params → ℕ → List (Slot Dev) → Ledger → List (Slot Dev) × Ledger
access_setup h g devno [] l = ([], l)
access_setup h g devno (s ∷ slots) l =
    let (c, l') = add_cdev h devno l in
    let (rest, l'') = access_setup h g (suc devno) slots l' in
    (
      record { dev = record s.dev { quantum = g.scull_quantum; qset = g.scull_qset }; cdev = c }
          ∷ rest,
      l'',
    )

-- by the result of the registration; the error is printed
abbrev pub access_init_with : Host → Params → ℕ → AccessModule → Option Errno → ℕ × AccessModule
access_init_with h g first s (some e) = (0, s)
access_init_with h g first s none =
    let (slots, l) =
      access_setup h g first s.slots
        (enter (record { first = first; count = access_devs }) s.ledger) in
    (access_devs, record s { first = first; slots = slots; ledger = l })

-- `scull_access_init`: how many devices there are
unfoldable pub access_init : Host → Params → ℕ → AccessModule → ℕ × AccessModule
access_init h g first s =
    access_init_with h g first s
      (h.register_chrdev_region s.ledger (record { first = first; count = access_devs }))

abbrev pub in_ledger : Ledger → Run (Dev × Memory) → Run Ledger
in_ledger l crash = crash
in_ledger l (done (d, m)) = done (record l { memory = m })

abbrev pub after : Run Ledger → (Ledger → Run Ledger) → Run Ledger
after crash f = crash
after (done l) f = f l

-- the loop over the table: `cdev_del` and `scull_trim`
unfoldable pub drop_static : Params → List (Slot Dev) → Ledger → Run Ledger
drop_static g [] l = done l
drop_static g (s ∷ slots) l =
    let l' = cdev_del s.cdev l in
    after (in_ledger l' (trim g s.dev l'.memory)) (λ l''. drop_static g slots l'')

abbrev pub free_item : Ledger → Ledger
free_item l = record l { memory = kfree 1 l.memory }

-- the loop over the cloned devices: `scull_trim` and `kfree`
unfoldable pub drop_cloned : Params → List Item → Ledger → Run Ledger
drop_cloned g [] l = done l
drop_cloned g (x ∷ items) l =
    after (in_ledger l (trim g x.device l.memory)) (λ l'. drop_cloned g items (free_item l'))

-- `scull_access_cleanup`
unfoldable pub access_cleanup : Params → AccessModule → Run Ledger
access_cleanup g s = after (drop_static g s.slots s.ledger) (λ l.
    after (drop_cloned g s.list l)
      (λ l'. done (unregister_chrdev_region (record { first = s.first; count = access_devs }) l')))
