-- ===== src/Scull/Seek.antt =====
-- 实验7/scull/main.c: `scull_llseek` and `scull_open`.
use linux_kernel_experiment.Prelude.{
  ℕ, suc, ◌+◌, ◌-◌, ◌%◌, ◌^◌, ◌<◌, ◌≤◌, ◌≡◌, ◌⊎◌, inl, inr, Bool, Option, none, some, ℤ, pos,
  negsuc, ◌+ℤ◌, pos_part, neg_part, ltb, ◌==◌, if◌then◌else◌, arith, Bool-cases, Option-cases,
}
use linux_kernel_experiment.Kernel.{
  Memory, Run, done, crash, Reply, count, error, einval, erestartsys,
}
use linux_kernel_experiment.Scull.Device.{Dev, Params, trim}

-- a `loff_t`: a sum wraps to 64 bits
unfoldable pub to_loff : ℤ → ℤ
to_loff (pos n) =
    if ltb (n % 2 ^ 64) (2 ^ 63) then pos (n % 2 ^ 64) else negsuc (2 ^ 64 - n % 2 ^ 64 - 1)
to_loff (negsuc n) =
    if ltb (n % 2 ^ 64) (2 ^ 63) then negsuc (n % 2 ^ 64) else pos (2 ^ 64 - n % 2 ^ 64 - 1)

-- what `off` counts from: SEEK_SET, SEEK_CUR, SEEK_END, and no other
abbrev pub origin : ℕ → ℕ → Dev → Option ℕ
origin whence f_pos d =
    if whence == 0
    then some 0
    else if whence == 1
    then some f_pos
    else if whence == 2
    then some d.size
    else none

-- the new position of the file and the result
abbrev pub seek_to : ℕ → ℤ → ℕ × Reply
seek_to f_pos (negsuc n) = (f_pos, error einval)
seek_to f_pos (pos n) = (n, count n)

unfoldable pub llseek : ℕ → ℤ → ℕ → Dev → ℕ × Reply
llseek f_pos off whence d = elim (origin whence f_pos d) [
  | none ↦ (f_pos, error einval)
  | some base ↦ seek_to f_pos (to_loff (pos base +ℤ off))
]

-- `(flags & O_ACCMODE) == O_WRONLY`
abbrev pub is_write_only : ℕ → Bool
is_write_only flags = flags % 4 == 1

abbrev pub opened : Run (Dev × Memory) → Run (Dev × Memory × Reply)
opened crash = crash
opened (done (d, m)) = done (d, m, count 0)

-- `scull_open`; `interrupted` is the result of `down_interruptible`
unfoldable pub open_dev : Params → ℕ → Bool → Dev → Memory → Run (Dev × Memory × Reply)
open_dev g flags interrupted d m =
    if is_write_only flags
    then if interrupted then done (d, m, error erestartsys) else opened (trim g d m)
    else done (d, m, count 0)

-- `off` is a `loff_t`, a file position is not negative.
abbrev pub IsLoff : ℤ → Type 0
IsLoff a = (pos_part a < 2 ^ 63) × (neg_part a ≤ 2 ^ 63)

abbrev pub Refuses : ℕ → ℤ → Type 0
Refuses base off = (base + pos_part off < neg_part off) ⊎ (2 ^ 63 ≤ base + pos_part off)

abbrev pub Sum : ℕ → ℤ → ℕ → Type 0
Sum base off n = n + neg_part off ≡ base + pos_part off

seek_to-Sum :
    (f_pos base : ℕ) (off : ℤ)
    → IsLoff off
    → base < 2 ^ 63
    → ((seek_to f_pos (to_loff (pos base +ℤ off)) ≡ (f_pos, error einval)) × Refuses base off)
      ⊎ ((n : ℕ) × Sum base off n × (seek_to f_pos (to_loff (pos base +ℤ off)) ≡ (n, count n)))
unfolding to_loff ◌+ℤ◌
seek_to-Sum f_pos base (pos k) h hb = elim (Bool-cases (ltb (base + k) (2 ^ 63))) [
  | inl fits ↦ inr (base + k, omega arith, ground arith)
  | inr over ↦ inl (ground arith, ground arith)
]
seek_to-Sum f_pos base (negsuc k) h hb = elim (Bool-cases (ltb k base)) [
  | inl fits ↦ inr (base - suc k, ground arith, ground arith)
  | inr under ↦ inl (ground arith, ground arith)
]

origin-lt :
    (f_pos whence base : ℕ) (d : Dev)
    → f_pos < 2 ^ 63
    → d.size < 2 ^ 32
    → origin whence f_pos d ≡ some base
    → base < 2 ^ 63
origin-lt f_pos whence base d hf hd e = ground arith

-- At a position that a `loff_t` can hold, `scull_llseek` moves to the sum of the origin and the
-- offset if that is such a position, and says so; if the sum is negative or too large for a
-- `loff_t`, or `whence` is unknown, it replies EINVAL and does not move.
llseek_lem :
    (f_pos whence : ℕ) (off : ℤ) (d : Dev)
    → IsLoff off
    → f_pos < 2 ^ 63
    → d.size < 2 ^ 32
    → ((llseek f_pos off whence d ≡ (f_pos, error einval))
        × ((origin whence f_pos d ≡ none)
            ⊎ ((base : ℕ) × (origin whence f_pos d ≡ some base) × Refuses base off)))
      ⊎ ((base n : ℕ) × (origin whence f_pos d ≡ some base)
          × Sum base off n
          × (llseek f_pos off whence d ≡ (n, count n)))
unfolding llseek
llseek_lem f_pos whence off d h hf hd = elim (Option-cases (origin whence f_pos d)) [
  | inl unknown ↦ inl (rw (llseek, unknown), inl unknown)
  | inr (base, e) ↦ elim (seek_to-Sum f_pos base off h (origin-lt f_pos whence base d hf hd e)) [
    | inl (r, why) ↦ inl (rw (llseek, e) r, inr (base, e, why))
    | inr (n, sum, r) ↦ inr (base, n, e, sum, rw (llseek, e) r)
  ]
]
