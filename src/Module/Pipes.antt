-- ===== src/Module/Pipes.antt =====
-- 实验7/scull/pipe.c: `scull_p_init` and `scull_p_cleanup`.
use linux_kernel_experiment.Prelude.{
  ℕ, zero, suc, ◌+◌, ◌*◌, ◌%◌, ◌^◌, Option, none, some, List, [], ◌∷◌, pos, leb, if◌then◌else◌,
}
use linux_kernel_experiment.Kernel.{Run, done, crash, Errno}
use linux_kernel_experiment.Scull.Device.{block_count}
use linux_kernel_experiment.Pipe.Ring.{Pipe}
use linux_kernel_experiment.Chrdev.{
  Host, Ledger, Slot, add_each, cdev_del, request, give_back, enter, unregister_chrdev_region,
}

-- `scull_p_devno` and `scull_p_devices`
pub record Pipes : Type 0 where
  pub first : ℕ
  pub slots : Option (List (Slot Pipe))

-- a zeroed `struct scull_pipe`
abbrev pub empty_pipe : Pipe
empty_pipe = record {
  buffer = none;
  end_at = pos 0;
  buffersize = pos 0;
  rp = 0;
  wp = 0;
  nreaders = pos 0;
  nwriters = pos 0;
  async_queue = [];
}

-- `scull_p_setup_cdev` on each of the new pipes, or NULL
abbrev pub fill_pipes : Host → ℕ → ℕ → Pipes → Option (ℕ → ℕ) → Ledger → Run (ℕ × Pipes × Ledger)
fill_pipes h n first p none l =
    done (
      0,
      record p { slots = none },
      unregister_chrdev_region (record { first = first; count = n }) l,
    )
fill_pipes h n first p (some b) l =
    let (slots, l') = add_each h empty_pipe (λ i. first + i) 0 n l in
    if leb (2 ^ 32) (n * h.pipe_bytes) then crash else done (n, record p { slots = some slots }, l')

-- by the result of `register_chrdev_region`; the error is printed
abbrev pub p_init_with : Host → ℕ → ℕ → Pipes → Option Errno → Ledger → Run (ℕ × Pipes × Ledger)
p_init_with h n first p (some e) l = done (0, p, l)
p_init_with h n first p none l =
    let (block, l') =
      request h (n * h.pipe_bytes % 2 ^ 32) (enter (record { first = first; count = n }) l) in
    fill_pipes h n first (record p { first = first }) block l'

-- `scull_p_init`: how many pipes there are, the pipes, and what is registered
unfoldable pub p_init : Host → ℕ → ℕ → Pipes → Ledger → Run (ℕ × Pipes × Ledger)
p_init h n first p l =
    p_init_with h n first p (h.register_chrdev_region l (record { first = first; count = n })) l

-- the loop of `scull_p_cleanup`
unfoldable pub free_pipes : ℕ → List (Slot Pipe) → Ledger → Run Ledger
free_pipes zero slots l = done l
free_pipes (suc n) [] l = crash
free_pipes (suc n) (s ∷ slots) l =
    free_pipes n slots (give_back (block_count s.dev.buffer) (cdev_del s.cdev l))

-- the array itself and the numbers
abbrev pub leave_pipes : ℕ → ℕ → Run Ledger → Run (Pipes × Ledger)
leave_pipes n first crash = crash
leave_pipes n first (done l) = done (
  record { first = first; slots = none },
  unregister_chrdev_region (record { first = first; count = n }) (give_back 1 l),
)

-- `if (!scull_p_devices) return`, and what follows
abbrev pub p_cleanup_with : ℕ → ℕ → Option (List (Slot Pipe)) → Ledger → Run (Pipes × Ledger)
p_cleanup_with n first none l = done (record { first = first; slots = none }, l)
p_cleanup_with n first (some slots) l = leave_pipes n first (free_pipes n slots l)

-- `scull_p_cleanup`
unfoldable pub p_cleanup : ℕ → Pipes → Ledger → Run (Pipes × Ledger)
p_cleanup n p l = p_cleanup_with n p.first p.slots l
