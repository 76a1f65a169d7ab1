-- ===== src/Event/Faults.antt =====
-- 实验6/others/exp6.c: `getpfcount`, which gives the counts of page faults and of ticks to the user.
use linux_kernel_experiment.Prelude.{
  ℕ, ◌/◌, ◌%◌, ◌^◌, List, [], ◌∷◌, ℤ, bits32, ◌==◌, if◌then◌else◌,
}
use linux_kernel_experiment.Kernel.{Kernel, Reply, count, error, efault}

-- the four bytes of a `long`, the lowest first
abbrev pub long_bytes : ℤ → List ℕ
long_bytes n =
    let w = bits32 n in w % 2 ^ 8 ∷ w / 2 ^ 8 % 2 ^ 8 ∷ w / 2 ^ 16 % 2 ^ 8 ∷ w / 2 ^ 24 ∷ []

-- what the call leaves at `pf` and at `jiff`
pub record Counts : Type 0 where
  pub pf : List ℕ
  pub jiff : List ℕ
  pub reply : Reply

-- the second copy, and 0
abbrev pub give_ticks : List ℕ → List ℕ × ℕ → Counts
give_ticks pf (jiff, left) =
    if left == 0
    then record { pf = pf; jiff = jiff; reply = count 0 }
    else record { pf = pf; jiff = jiff; reply = error efault }

-- the first copy, and what follows it
abbrev pub give_faults : Kernel → List ℕ → ℤ → List ℕ × ℕ → Counts
give_faults k jiff jiffies (pf, left) =
    if left == 0
    then give_ticks pf (k.copy_to_user jiff (long_bytes jiffies))
    else record { pf = pf; jiff = jiff; reply = error efault }

-- `getpfcount`
abbrev pub getpfcount : Kernel → (pf jiff : List ℕ) → (pfcount jiffies : ℤ) → Counts
getpfcount k pf jiff pfcount jiffies =
    give_faults k jiff jiffies (k.copy_to_user pf (long_bytes pfcount))
