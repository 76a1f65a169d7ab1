-- ===== src/Tests/Proc.antt =====
-- The files in /proc.
use linux_kernel_experiment.Prelude.{
  ℕ, ◌+◌, ◌-◌, ◌≡◌, ◌⊎◌, inl, inr, refl, Bool, true, false, Option, none, some, List, [], ◌∷◌, ◌++◌,
  pos, length, take, replicate, arith, ℤ, All, ◌==◌, if◌then◌else◌, Bool-cases,
}
use linux_kernel_experiment.Kernel.{done, crash, count, error, efault}
use linux_kernel_experiment.Proc.Value.{Format, text, write_value, newline}
use linux_kernel_experiment.Proc.Walk.{codes, value_size, Task, System, list_tasks}
use linux_kernel_experiment.Proc.Ticks.{write_ticks}
use linux_kernel_experiment.Proc.Texts.{IsByte, kept, write_value-text}
use linux_kernel_experiment.Proc.Listing.{listing, list_tasks-listing}
use linux_kernel_experiment.Proc.Snapshot.{Module, init_snapshot, read_snapshot}
use linux_kernel_experiment.Proc.Shown.{snapshot, read_snapshot-init_snapshot}
use linux_kernel_experiment.Proc.Reader.{show_ticks}
use linux_kernel_experiment.Tests.Sample.{sample}

-- of 3 bytes the last is lost
write_value-text_example :
    (value' : List ℕ) × (length value' ≡ 16)
    × ((write_value sample 16 (replicate 16 1) (codes "abc") 3 ≡ done (value', error efault))
        ⊎ ((write_value sample 16 (replicate 16 1) (codes "abc") 3
              ≡ done (value', count (kept 16 3)))
            × (text value' ≡ some (take (kept 16 3 - 1) (codes "abc")))))
write_value-text_example =
    write_value-text sample 16 (replicate 16 1) (codes "abc") 3 refl (omega arith) (omega arith)
      (omega arith, (omega arith, tt))

-- a write of nothing writes before the array
empty_write : write_ticks sample (replicate 16 1) [] 0 ≡ crash
unfolding write_value
empty_write = refl

abbrev pub format : Format
format = record { decimal = λ n. b'7' ∷ []; page_size = 4096 }

abbrev pub init_task : Task
init_task = record { pid = pos 1; comm = codes "init"; parent = 0 }

abbrev pub child_task : Task
child_task = record { pid = pos 7; comm = codes "sh"; parent = 0 }

abbrev pub two_tasks : System
two_tasks = record {
  tasks = init_task ∷ child_task ∷ [];
  current = child_task;
  queue = init_task ∷ child_task ∷ [];
}

list_tasks-listing_example :
    list_tasks format 1 two_tasks
    ≡ some (
        done (
          listing format two_tasks (init_task ∷ []) ++ newline,
          length (listing format two_tasks (init_task ∷ [])) + 1,
        ))
list_tasks-listing_example =
    list_tasks-listing format 1 two_tasks (init_task ∷ []) (refl, refl, refl) (omega arith)
      (omega arith) (omega arith)

-- a test for the bytes that are not 0
abbrev all_bytes : List ℕ → Bool
all_bytes [] = true
all_bytes (b ∷ l) = let rest = all_bytes l in if b == 0 then false else rest

all_bytes_lem : (l : List ℕ) → all_bytes l ≡ true → All IsByte l
all_bytes_lem [] h = tt
all_bytes_lem (b ∷ l) h = elim (Bool-cases (b == 0)) [
  | inl zero_byte ↦ absurd (cc)
  | inr other ↦ (ground (arith, other), all_bytes_lem l (ground (arith, other, h)))
]

abbrev unset : Module
unset = record { entries = []; value = replicate value_size 1 }

read_snapshot-init_snapshot_example :
    (m' : Module) × (init_snapshot format 1 two_tasks true true unset ≡ some (done (count 0, m')))
    × (read_snapshot format (pos 7) m'
        ≡ done (
          snapshot format two_tasks (init_task ∷ []) ++ b'7' ∷ [] ++ newline,
          length (snapshot format two_tasks (init_task ∷ []) ++ b'7' ∷ [] ++ newline),
        ))
read_snapshot-init_snapshot_example =
    read_snapshot-init_snapshot format 1 two_tasks (init_task ∷ []) unset (pos 7) (refl, refl, refl)
      (omega arith) refl (omega arith)
      (all_bytes_lem (snapshot format two_tasks (init_task ∷ [])) refl) (omega arith)

-- the number 7, from its text
abbrev scan_seven : List ℕ → Option ℤ
scan_seven [] = none
scan_seven (x ∷ l) = if x == b'7' then some (pos 7) else none

-- after a write of 3 bytes the file has no 6 bytes before the number, and the number is lost
number_lost :
    show_ticks scan_seven (pos 99) (some (b'a' ∷ b'b' ∷ b'7' ∷ newline)) ≡ done (pos 99, pos 0)
number_lost = refl
