-- ===== src/Pointed/Start.antt =====
-- 实验7/parta/main.c: `scull_init_module` and `scull_cleanup_module`.
use linux_kernel_experiment.Prelude.{
  ℕ, zero, suc, ◌+◌, ◌*◌, ◌%◌, ◌^◌, ◌⊎◌, inl, inr, Option, none, some, List, [], ◌∷◌, leb,
  if◌then◌else◌,
}
use linux_kernel_experiment.Kernel.{Run, done, crash, Errno, Reply, count, error, enomem}
use linux_kernel_experiment.Chrdev.{
  Host, Ledger, Span, Slot, add_each, cdev_del, request, give_back, enter, unregister_chrdev_region,
}
use linux_kernel_experiment.Pointed.Block.{Pointed, trim_pointed}

-- `scull_major`, `scull_minor`, `scull_nr_devs`, `scull_devices`, and what is registered
pub record Driver : Type 0 where
  pub major : ℕ
  pub minor : ℕ
  pub devs : ℕ
  pub devices : Option (List (Slot Pointed))
  pub ledger : Ledger

-- the numbers of the devices
abbrev pub own_numbers : Host → Driver → Span
own_numbers h s = record { first = h.mkdev s.major s.minor; count = s.devs }

-- a given major, or any
abbrev pub taken : Host → Driver → Option Errno → Option Errno × Driver
taken h s (some e) = (some e, s)
taken h s none = (none, record s { ledger = enter (own_numbers h s) s.ledger })

abbrev pub taken_any : Host → Driver → Errno ⊎ ℕ → Option Errno × Driver
taken_any h s (inl e) = (some e, record s { major = h.major_of 0 })
taken_any h s (inr dev) = (
  none,
  record s {
    major = h.major_of dev;
    ledger = enter (record { first = dev; count = s.devs }) s.ledger;
  },
)

abbrev pub take_numbers : Host → Driver → ℕ → Option Errno × Driver
take_numbers h s zero = taken_any h s (h.alloc_chrdev_region s.ledger s.minor s.devs)
take_numbers h s (suc m) = taken h s (h.register_chrdev_region s.ledger (own_numbers h s))

-- `scull_trim` and `cdev_del` of a device, and the rest of the loop
abbrev pub after_trim : Run Ledger → Run Pointed → Run Ledger
after_trim rest crash = crash
after_trim rest (done d) = rest

-- the loop of `scull_cleanup_module`
abbrev pub drop_pointed : ℕ → List (Slot Pointed) → Ledger → Run Ledger
drop_pointed zero slots l = done l
drop_pointed (suc n) [] l = crash
drop_pointed (suc n) (s ∷ slots) l =
    after_trim (drop_pointed n slots (cdev_del s.cdev l)) (trim_pointed s.dev)

abbrev pub free_array : Run Ledger → Run Ledger
free_array crash = crash
free_array (done l) = done (give_back 1 l)

-- `if (scull_devices)`
abbrev pub drop_all : ℕ → Option (List (Slot Pointed)) → Ledger → Run Ledger
drop_all n none l = done l
drop_all n (some slots) l = free_array (drop_pointed n slots l)

abbrev pub without_devices : Host → Driver → Run Ledger → Run Driver
without_devices h s crash = crash
without_devices h s (done l) =
    done (record s { ledger = unregister_chrdev_region (own_numbers h s) l })

-- `scull_cleanup_module`
abbrev pub stop : Host → Driver → Run Driver
stop h s = without_devices h s (drop_all s.devs s.devices s.ledger)

-- a device of the zeroed array
abbrev pub zeroed : Pointed
zeroed = record { bytes = none; size = 0 }

-- `scull_setup_cdev` on each of the new devices
abbrev pub setup_pointed : Host → Driver → List (Slot Pointed) × Ledger
setup_pointed h s = add_each h zeroed (λ i. h.mkdev s.major (s.minor + i)) 0 s.devs s.ledger

abbrev pub no_memory : Run Driver → Run (Reply × Driver)
no_memory crash = crash
no_memory (done s) = done (error enomem, s)

-- the new devices, or the way to `fail`
abbrev pub set_up : Host → Driver → Option (ℕ → ℕ) → Run (Reply × Driver)
set_up h s none = no_memory (stop h (record s { devices = none }))
set_up h s (some b) =
    let (slots, l) = setup_pointed h s in
    if leb (2 ^ 32) (s.devs * h.dev_bytes)
    then crash
    else done (count 0, record s { devices = some slots; ledger = l })

abbrev pub start_with : Host → Option Errno × Driver → Run (Reply × Driver)
start_with h (some e, s) = done (error e, s)
start_with h (none, s) =
    let (block, l) = request h (s.devs * h.dev_bytes % 2 ^ 32) s.ledger in
    set_up h (record s { ledger = l }) block

-- `scull_init_module`
abbrev pub start : Host → Driver → Run (Reply × Driver)
start h s = start_with h (take_numbers h s s.major)
