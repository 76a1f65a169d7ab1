-- ===== src/Kernel.antt =====
-- What the drivers use of the kernel: error numbers, `kmalloc`, and copies to and from user space.
-- None of it is code of this repository, so it enters as the record `Kernel`, a parameter of the
-- operations. Its laws are the documented behaviour of the two copy routines.
use linux_kernel_experiment.Prelude.{
  ℕ, ◌+◌, ◌≡◌, Option, none, some, List, ◌++◌, length, take, drop,
}

-- the negated error numbers that the operations return
pub data Errno : Type 0 where
  eagain ebusy efault einval enomem enospc enotty eperm erestartsys : Errno

-- a `ssize_t` result: a number of bytes, or a negated error number
pub data Reply : Type 0 where
  count : ℕ → Reply
  error : Errno → Reply

-- `crash` is an access outside every allocated block, or a division that traps.
pub data Run (A : Type 0) : Type 0 where
  done : A → Run A
  crash : Run A

pub record Kernel : Type 0 where
  -- `kmalloc`, by the number of the request and its size: `none` is NULL, and a block comes with
  -- the bytes that it happens to hold
  pub kmalloc : ℕ → ℕ → Option (ℕ → ℕ)
  -- `copy_from_user(to, from, n)`: the `n` bytes that `to` then holds, and how many were not copied
  pub copy_from_user : List ℕ → ℕ → List ℕ × ℕ
  -- `copy_to_user(to, from, n)`: what user memory then holds, and how many were not copied
  pub copy_to_user : List ℕ → List ℕ → List ℕ × ℕ
  pub length-copy_from_user : (user : List ℕ) (n : ℕ) → length (copy_from_user user n).0 ≡ n
  pub copy_from_user_all :
      (user : List ℕ) (n : ℕ)
      → (copy_from_user user n).1 ≡ 0
      → (copy_from_user user n).0 ≡ take n user
  pub copy_to_user_all :
      (user bytes : List ℕ)
      → (copy_to_user user bytes).1 ≡ 0
      → (copy_to_user user bytes).0 ≡ bytes ++ drop (length bytes) user

-- The driver's account with the allocator: requests made, blocks granted, blocks freed.
pub record Memory : Type 0 where
  pub requests : ℕ
  pub granted : ℕ
  pub freed : ℕ

abbrev pub granted_block : Memory → Option (ℕ → ℕ) → Option (ℕ → ℕ) × Memory
granted_block m none = (none, record m { requests = m.requests + 1 })
granted_block m (some f) = (some f, record m { requests = m.requests + 1; granted = m.granted + 1 })

abbrev pub kmalloc : Kernel → ℕ → Memory → Option (ℕ → ℕ) × Memory
kmalloc k size m = granted_block m (k.kmalloc m.requests size)

-- `kfree` of `n` blocks
abbrev pub kfree : ℕ → Memory → Memory
kfree n m = record m { freed = m.freed + n }
