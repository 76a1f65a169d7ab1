-- ===== src/Pipe/Files.antt =====
-- 实验7/scull/pipe.c: the open, the release and the fasync of a pipe device.
use linux_kernel_experiment.Prelude.{
  ℕ, Bool, true, false, Option, none, some, List, ℤ, pos, ◌+ℤ◌, ◌-ℤ◌, eqb_ℤ, to_int, bits32,
  if◌then◌else◌, tabulate,
}
use linux_kernel_experiment.Kernel.{
  Kernel, Memory, kmalloc, kfree, Reply, count, error, enomem, erestartsys,
}
use linux_kernel_experiment.Scull.Device.{Params, block_count}
use linux_kernel_experiment.Pipe.Ring.{Pipe, File}

-- `if (b) n++` and `if (b) n--`
abbrev pub count_up : Bool → ℤ → ℤ
count_up b n = if b then to_int (n +ℤ pos 1) else n

abbrev pub count_down : Bool → ℤ → ℤ
count_down b n = if b then to_int (n -ℤ pos 1) else n

-- the part of `scull_p_open` after the buffer
abbrev pub rewind : Params → File → Pipe → Pipe
rewind g f p = record p {
  buffersize = g.scull_p_buffer;
  end_at = g.scull_p_buffer;
  rp = 0;
  wp = 0;
  nreaders = count_up f.for_read p.nreaders;
  nwriters = count_up f.for_write p.nwriters;
}

-- the new buffer, or `if (!dev->buffer) return -ENOMEM`
abbrev pub open_new : Params → File → Pipe → Option (ℕ → ℕ) × Memory → Pipe × Memory × Reply
open_new g f p (none, m) = (p, m, error enomem)
open_new g f p (some bytes, m) = (
  rewind g f (record p { buffer = some (tabulate bytes 0 (bits32 g.scull_p_buffer)) }),
  m,
  count 0,
)

-- `if (!dev->buffer)` and what follows
abbrev pub open_with :
    Kernel → Params → File → Pipe → Memory → Option (List ℕ) → Pipe × Memory × Reply
open_with k g f p m (some b) = (rewind g f p, m, count 0)
open_with k g f p m none = open_new g f p (kmalloc k (bits32 g.scull_p_buffer) m)

-- `scull_p_open`; `interrupted` is the result of `down_interruptible`
unfoldable pub p_open : Kernel → Params → File → Bool → Pipe → Memory → Pipe × Memory × Reply
p_open k g f true p m = (p, m, error erestartsys)
p_open k g f false p m = open_with k g f p m p.buffer

-- the counts that `scull_p_release` leaves
abbrev pub leave_by : File → Pipe → Pipe
leave_by f p = record p {
  nreaders = count_down f.for_read p.nreaders;
  nwriters = count_down f.for_write p.nwriters;
}

abbrev pub nobody_left : Pipe → Bool
nobody_left p = eqb_ℤ (to_int (p.nreaders +ℤ p.nwriters)) (pos 0)

abbrev pub free_buffer : Pipe → Memory → Pipe × Memory
free_buffer p m = (record p { buffer = none }, kfree (block_count p.buffer) m)

-- `scull_p_release`; `forget` is what `fasync_helper(-1, filp, 0, &queue)` makes of the queue
unfoldable pub p_release : (List ℕ → List ℕ) → File → Pipe → Memory → Pipe × Memory × Reply
p_release forget f p m =
    let p' = leave_by f (record p { async_queue = forget p.async_queue }) in
    if nobody_left p'
    then (let (q, m') = free_buffer p' m in (q, m', count 0))
    else (p', m, count 0)

-- `scull_p_fasync`; `helper` is what `fasync_helper(fd, filp, mode, &queue)` makes of the queue, and
-- what it returns
abbrev pub p_fasync : (List ℕ → List ℕ × Reply) → Pipe → Pipe × Reply
p_fasync helper p =
    let (queue, reply) = helper p.async_queue in (record p { async_queue = queue }, reply)
