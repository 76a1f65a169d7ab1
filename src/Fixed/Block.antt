-- ===== src/Fixed/Block.antt =====
-- 实验7/main.c and scull.h: a device is one array of `SCULL_DATA_SIZE` bytes and how many are in use.
use linux_kernel_experiment.Prelude.{
  ℕ, ◌+◌, ◌-◌, ◌%◌, ◌^◌, Bool, true, false, Option, none, some, List, ℤ, pos, ◌+ℤ◌, ltb, leb, ◌==◌,
  if◌then◌else◌, length, replicate, splice, slice,
}
use linux_kernel_experiment.Kernel.{
  Kernel, Run, done, crash, Reply, count, error, erestartsys, efault, enospc, einval,
}
use linux_kernel_experiment.Scull.Seek.{is_write_only, seek_to, to_loff}

abbrev pub data_size : ℕ
data_size = 16

-- `struct scull_dev`, without the fields that the kernel alone uses
pub record Block : Type 0 where
  pub bytes : List ℕ
  pub size : ℕ

-- `scull_trim`
abbrev pub wipe : Block → Block
wipe d = record { bytes = replicate data_size 0; size = 0 }

-- `scull_open`; `interrupted` is the result of `down_interruptible`
abbrev pub open_block : ℕ → Bool → Block → Block × Reply
open_block flags interrupted d =
    if is_write_only flags
    then (if interrupted then (d, error erestartsys) else (wipe d, count 0))
    else (d, count 0)

-- the arguments of one call
pub record Arguments : Type 0 where
  pub kernel : Kernel
  pub f_pos : ℕ
  pub user : List ℕ
  pub n : ℕ

-- what a call leaves
pub record Returned : Type 0 where
  pub block : Block
  pub f_pos : ℕ
  pub user : List ℕ
  pub reply : Reply

abbrev pub leaving : Arguments → Block → Reply → Returned
leaving c d r = record { block = d; f_pos = c.f_pos; user = c.user; reply = r }

-- `count`, cut at `limit`
abbrev pub cut : ℕ → ℕ → ℕ → ℕ
cut limit f_pos n = if ltb limit (f_pos + n) then limit - f_pos else n

-- the end of a read: the new position, by how many bytes were not copied
abbrev pub finish_read : Arguments → Block → ℕ → List ℕ × ℕ → Returned
finish_read c d n (user, left) =
    if left == 0
    then record { block = d; f_pos = c.f_pos + n; user = user; reply = count n }
    else record { block = d; f_pos = c.f_pos; user = user; reply = error efault }

-- the copy of `n` bytes out of the array
unfoldable pub copy_out : Arguments → Block → ℕ → Run Returned
copy_out c d n =
    if ltb (length d.bytes) (c.f_pos + n)
    then crash
    else done (finish_read c d n (c.kernel.copy_to_user c.user (slice d.bytes c.f_pos n)))

-- `scull_read`
unfoldable pub read_bytes : Arguments → Bool → Block → Run Returned
read_bytes c true d = done (leaving c d (error erestartsys))
read_bytes c false d =
    if leb d.size c.f_pos
    then done (leaving c d (count 0))
    else copy_out c d (cut d.size c.f_pos c.n)

-- the end of a write: the new position and size, by how many bytes were not copied
abbrev pub finish_write : Arguments → Block → ℕ → List ℕ × ℕ → Returned
finish_write c d n (bytes, left) =
    let stored = splice d.bytes c.f_pos bytes in
    if left == 0
    then record {
      block = record { bytes = stored; size = (c.f_pos + n) % 2 ^ 32 };
      f_pos = c.f_pos + n;
      user = c.user;
      reply = count n;
    }
    else leaving c (record { bytes = stored; size = d.size }) (error efault)

-- the copy of `n` bytes into the array
unfoldable pub copy_in : Arguments → Block → ℕ → Run Returned
copy_in c d n =
    if ltb (length d.bytes) (c.f_pos + n)
    then crash
    else done (finish_write c d n (c.kernel.copy_from_user c.user n))

-- `scull_write`
unfoldable pub write_bytes : Arguments → Bool → Block → Run Returned
write_bytes c true d = done (leaving c d (error erestartsys))
write_bytes c false d =
    if leb data_size c.f_pos
    then done (leaving c d (error enospc))
    else copy_in c d (cut data_size c.f_pos c.n)

-- what `off` counts from in `scull_llseek`
abbrev pub origin_of : ℕ → ℕ → Block → Option ℕ
origin_of whence f_pos d =
    if whence == 0
    then some 0
    else if whence == 1
    then some f_pos
    else if whence == 2
    then some d.size
    else none

-- `scull_llseek`
abbrev pub seek_block : ℕ → ℤ → ℕ → Block → ℕ × Reply
seek_block f_pos off whence d = elim (origin_of whence f_pos d) [
  | none ↦ (f_pos, error einval)
  | some base ↦ seek_to f_pos (to_loff (pos base +ℤ off))
]
