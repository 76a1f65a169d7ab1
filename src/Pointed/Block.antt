-- ===== src/Pointed/Block.antt =====
-- 实验7/parta/main.c and 实验7/parta/scull.h: a device with a pointer to its bytes, and its operations.
use linux_kernel_experiment.Prelude.{
  ℕ, ◌+◌, ◌%◌, ◌^◌, Bool, true, false, Option, none, some, List, [], ℤ, pos, ◌+ℤ◌, ltb, leb, ◌==◌,
  if◌then◌else◌, length, replicate, splice, slice,
}
use linux_kernel_experiment.Kernel.{
  Run, done, crash, Reply, count, error, erestartsys, efault, enospc, einval,
}
use linux_kernel_experiment.Scull.Seek.{is_write_only, seek_to, to_loff}
use linux_kernel_experiment.Fixed.Block.{Arguments, cut}

-- `SCULL_DATA_SIZE`
abbrev pub data_size : ℕ
data_size = 16

-- `struct scull_dev`, without the fields that the kernel alone uses; the data may be NULL
pub record Pointed : Type 0 where
  pub bytes : Option (List ℕ)
  pub size : ℕ

-- the block that `n` bytes from `at` on are in; nothing is read or written where `n` is 0
abbrev pub reach : Option (List ℕ) → ℕ → ℕ → Run (List ℕ)
reach none at n = if n == 0 then done [] else crash
reach (some b) at n = if ltb (length b) (at + n) then crash else done b

-- the data of a device, with other bytes
abbrev pub with_bytes : Option (List ℕ) → List ℕ → Option (List ℕ)
with_bytes none b = none
with_bytes (some a) b = some b

-- `memset(dev->data, 0, SCULL_DATA_SIZE)` and `dev->size = 0`
abbrev pub cleared : Pointed → Run (List ℕ) → Run Pointed
cleared d crash = crash
cleared d (done b) =
    done (record { bytes = with_bytes d.bytes (splice b 0 (replicate data_size 0)); size = 0 })

-- `scull_trim`
abbrev pub trim_pointed : Pointed → Run Pointed
trim_pointed d = cleared d (reach d.bytes 0 data_size)

abbrev pub opened : Run Pointed → Run (Pointed × Reply)
opened crash = crash
opened (done d) = done (d, count 0)

-- `scull_open`; `interrupted` is the result of `down_interruptible`
abbrev pub open_pointed : ℕ → Bool → Pointed → Run (Pointed × Reply)
open_pointed flags interrupted d =
    if is_write_only flags
    then (if interrupted then done (d, error erestartsys) else opened (trim_pointed d))
    else done (d, count 0)

-- what a call leaves
pub record Returned : Type 0 where
  pub block : Pointed
  pub f_pos : ℕ
  pub user : List ℕ
  pub reply : Reply

abbrev pub leaving : Arguments → Pointed → Reply → Returned
leaving c d r = record { block = d; f_pos = c.f_pos; user = c.user; reply = r }

-- the end of a read, by how many bytes were not copied
abbrev pub finish_read : Arguments → Pointed → ℕ → List ℕ × ℕ → Returned
finish_read c d n (user, left) =
    if left == 0
    then record { block = d; f_pos = c.f_pos + n; user = user; reply = count n }
    else record { block = d; f_pos = c.f_pos; user = user; reply = error efault }

abbrev pub copy_out : Arguments → Pointed → ℕ → Run (List ℕ) → Run Returned
copy_out c d n crash = crash
copy_out c d n (done b) =
    done (finish_read c d n (c.kernel.copy_to_user c.user (slice b c.f_pos n)))

-- `scull_read`
abbrev pub read_pointed : Arguments → Bool → Pointed → Run Returned
read_pointed c true d = done (leaving c d (error erestartsys))
read_pointed c false d =
    let n = cut d.size c.f_pos c.n in
    if leb d.size c.f_pos
    then done (leaving c d (count 0))
    else copy_out c d n (reach d.bytes c.f_pos n)

-- the end of a write, by how many bytes were not copied
abbrev pub finish_write : Arguments → Pointed → ℕ → List ℕ → List ℕ × ℕ → Returned
finish_write c d n b (bytes, left) =
    let stored = with_bytes d.bytes (splice b c.f_pos bytes) in
    if left == 0
    then record {
      block = record { bytes = stored; size = (c.f_pos + n) % 2 ^ 32 };
      f_pos = c.f_pos + n;
      user = c.user;
      reply = count n;
    }
    else leaving c (record { bytes = stored; size = d.size }) (error efault)

abbrev pub copy_in : Arguments → Pointed → ℕ → Run (List ℕ) → Run Returned
copy_in c d n crash = crash
copy_in c d n (done b) = done (finish_write c d n b (c.kernel.copy_from_user c.user n))

-- `scull_write`
abbrev pub write_pointed : Arguments → Bool → Pointed → Run Returned
write_pointed c true d = done (leaving c d (error erestartsys))
write_pointed c false d =
    let n = cut data_size c.f_pos c.n in
    if leb data_size c.f_pos
    then done (leaving c d (error enospc))
    else copy_in c d n (reach d.bytes c.f_pos n)

-- what `off` counts from in `scull_llseek`
abbrev pub origin_of : ℕ → ℕ → Pointed → Option ℕ
origin_of whence f_pos d =
    if whence == 0
    then some 0
    else if whence == 1
    then some f_pos
    else if whence == 2
    then some d.size
    else none

-- `scull_llseek`
abbrev pub seek_pointed : ℕ → ℤ → ℕ → Pointed → ℕ × Reply
seek_pointed f_pos off whence d = elim (origin_of whence f_pos d) [
  | none ↦ (f_pos, error einval)
  | some base ↦ seek_to f_pos (to_loff (pos base +ℤ off))
]
