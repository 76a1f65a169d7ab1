-- ===== src/Module/Start.antt =====
-- 实验7/scull/main.c: `scull_init_module` and `scull_cleanup_module`.
use linux_kernel_experiment.Prelude.{
  ℕ, zero, suc, ◌+◌, ◌*◌, ◌%◌, ◌^◌, ◌⊎◌, inl, inr, Option, none, some, List, [], ◌∷◌, leb,
  if◌then◌else◌,
}
use linux_kernel_experiment.Kernel.{Memory, Run, done, crash, Errno, Reply, count, error, enomem}
use linux_kernel_experiment.Scull.Device.{Dev, Params, empty_dev, trim}
use linux_kernel_experiment.Chrdev.{
  Host, Ledger, Span, Slot, add_each, cdev_del, request, give_back, enter, unregister_chrdev_region,
}
use linux_kernel_experiment.Module.Pipes.{Pipes, p_init, p_cleanup}

-- `scull_minor`, `scull_nr_devs` and `scull_p_nr_devs`, which nothing changes
pub record Config : Type 0 where
  pub minor : ℕ
  pub devs : ℕ
  pub pipes : ℕ

-- `scull_major`, `scull_devices`, the pipes' part, and what is registered
pub record Module : Type 0 where
  pub major : ℕ
  pub devices : Option (List (Slot Dev))
  pub pipes : Pipes
  pub ledger : Ledger

-- the numbers of the bare devices
abbrev pub numbers : Host → Config → ℕ → Span
numbers h c major = record { first = h.mkdev major c.minor; count = c.devs }

-- the two ways to get them: the major number, the error, and what is registered
abbrev pub claim_given : Host → Config → ℕ → Ledger → Option Errno → ℕ × Option Errno × Ledger
claim_given h c major l (some e) = (major, some e, l)
claim_given h c major l none = (major, none, enter (numbers h c major) l)

abbrev pub claim_any : Host → Config → Ledger → Errno ⊎ ℕ → ℕ × Option Errno × Ledger
claim_any h c l (inl e) = (h.major_of 0, some e, l)
claim_any h c l (inr dev) = (h.major_of dev, none, enter (record { first = dev; count = c.devs }) l)

-- `if (scull_major) ... else ...`
unfoldable pub claim : Host → Config → ℕ → Ledger → ℕ × Option Errno × Ledger
claim h c zero l = claim_any h c l (h.alloc_chrdev_region l c.minor c.devs)
claim h c (suc m) l = claim_given h c (suc m) l (h.register_chrdev_region l (numbers h c (suc m)))

-- `scull_setup_cdev` on each of the new devices
abbrev pub setup_devices : Host → Config → Params → ℕ → Ledger → List (Slot Dev) × Ledger
setup_devices h c g major l = add_each h (empty_dev g) (λ i. h.mkdev major (c.minor + i)) 0 c.devs l

-- `scull_trim` and `cdev_del` of one device
abbrev pub drop_device : Option Span → Ledger → Run (Dev × Memory) → Run Ledger
drop_device c l crash = crash
drop_device c l (done (d, m)) = done (cdev_del c (record l { memory = m }))

abbrev pub and_then : Run Ledger → (Ledger → Run Ledger) → Run Ledger
and_then crash f = crash
and_then (done l) f = f l

-- the loop of `scull_cleanup_module`
unfoldable pub drop_devices : Params → ℕ → List (Slot Dev) → Ledger → Run Ledger
drop_devices g zero slots l = done l
drop_devices g (suc n) [] l = crash
drop_devices g (suc n) (s ∷ slots) l =
    and_then (drop_device s.cdev l (trim g s.dev l.memory)) (λ l'. drop_devices g n slots l')

-- the devices, their array, or nothing
abbrev pub drop_array : Params → ℕ → Option (List (Slot Dev)) → Ledger → Run Ledger
drop_array g n none l = done l
drop_array g n (some slots) l = and_then (drop_devices g n slots l) (λ l'. done (give_back 1 l'))

abbrev pub cleaned : Module → Run (Pipes × Ledger) → Run Module
cleaned s crash = crash
cleaned s (done (p, l)) = done (record s { pipes = p; ledger = l })

abbrev pub drop_rest : Host → Config → Module → Run Ledger → Run Module
drop_rest h c s crash = crash
drop_rest h c s (done l) =
    cleaned s (p_cleanup c.pipes s.pipes (unregister_chrdev_region (numbers h c s.major) l))

-- `scull_cleanup_module`
unfoldable pub cleanup : Host → Config → Params → Module → Run Module
cleanup h c g s = drop_rest h c s (drop_array g c.devs s.devices s.ledger)

abbrev pub started : Module → Run (ℕ × Pipes × Ledger) → Run (Reply × Module)
started s crash = crash
started s (done (n, p, l)) = done (count 0, record s { pipes = p; ledger = l })

abbrev pub failed : Run Module → Run (Reply × Module)
failed crash = crash
failed (done s) = done (error enomem, s)

-- by the result of `kmalloc`
unfoldable pub fill : Host → Config → Params → Module → Option (ℕ → ℕ) → Run (Reply × Module)
fill h c g s none = failed (cleanup h c g (record s { devices = none }))
fill h c g s (some b) =
    let (slots, l) = setup_devices h c g s.major s.ledger in
    if leb (2 ^ 32) (c.devs * h.dev_bytes)
    then crash
    else started (record s { devices = some slots })
        (p_init h c.pipes (h.mkdev s.major (c.minor + c.devs)) s.pipes l)

-- by the result of the registration; the error is printed
abbrev pub init_with :
    Host → Config → Params → Module → ℕ × Option Errno × Ledger → Run (Reply × Module)
init_with h c g s (major, some e, l) = done (error e, record s { major = major; ledger = l })
init_with h c g s (major, none, l) =
    let (block, l') = request h (c.devs * h.dev_bytes % 2 ^ 32) l in
    fill h c g (record s { major = major; ledger = l' }) block

-- `scull_init_module`
unfoldable pub init : Host → Config → Params → Module → Run (Reply × Module)
init h c g s = init_with h c g s (claim h c s.major s.ledger)
