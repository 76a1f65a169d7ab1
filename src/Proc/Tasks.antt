-- ===== src/Proc/Tasks.antt =====
-- 实验4/partB/exp4b.c, 实验4/partC/exp4c.c and 实验5/test.c: a file in /proc that lists the processes.
use linux_kernel_experiment.Prelude.{
  ℕ, ◌++◌, Bool, Option, some, List, ℤ, pos, eqb_ℤ, if◌then◌else◌,
}
use linux_kernel_experiment.Kernel.{Kernel, Run, Reply}
use linux_kernel_experiment.Proc.Value.{Format, write_value, print_page, newline}
use linux_kernel_experiment.Proc.Entries.{Entry, Names, init_entries, cleanup_entries}
use linux_kernel_experiment.Proc.Walk.{codes, value_size, System, list_tasks}

-- the operations of 实验4/partB/exp4b.c: `proc_read`, `proc_write`, `init_module`, `cleanup_module`
abbrev pub part_b_names : Names
part_b_names = record { dir = codes "exp4dir"; file = codes "exp4b" }

abbrev pub part_b_read : Format → ℕ → System → Option (Run (List ℕ × ℕ))
part_b_read f fuel s = list_tasks f fuel s

abbrev pub part_b_write : Kernel → List ℕ → List ℕ → ℕ → Run (List ℕ × Reply)
part_b_write k value user n = write_value k value_size value user n

abbrev pub part_b_init : (made_dir made_file : Bool) → List Entry → Reply × List Entry
part_b_init made_dir made_file l = init_entries part_b_names made_dir made_file l

abbrev pub part_b_cleanup : List Entry → List Entry
part_b_cleanup l = cleanup_entries part_b_names l

-- the same of 实验4/partC/exp4c.c, where `param` chooses the list or the ticks
abbrev pub part_c_names : Names
part_c_names = record { dir = codes "part4dir"; file = codes "part4" }

abbrev pub part_c_read : Format → ℕ → (param jiffies : ℤ) → System → Option (Run (List ℕ × ℕ))
part_c_read f fuel param jiffies s =
    if eqb_ℤ param (pos 0)
    then list_tasks f fuel s
    else some (print_page f (codes "jiffies=:" ++ f.decimal jiffies ++ newline))

abbrev pub part_c_write : Kernel → List ℕ → List ℕ → ℕ → Run (List ℕ × Reply)
part_c_write k value user n = write_value k value_size value user n

abbrev pub part_c_init : (made_dir made_file : Bool) → List Entry → Reply × List Entry
part_c_init made_dir made_file l = init_entries part_c_names made_dir made_file l

abbrev pub part_c_cleanup : List Entry → List Entry
part_c_cleanup l = cleanup_entries part_c_names l

-- the same of 实验5/test.c, where `param` chooses the list or two readings of the clock
abbrev pub clock_names : Names
clock_names = record { dir = codes "part5dir"; file = codes "part5" }

abbrev pub clock_read : Format → ℕ → (param nsec usec : ℤ) → System → Option (Run (List ℕ × ℕ))
clock_read f fuel param nsec usec s =
    if eqb_ℤ param (pos 0)
    then list_tasks f fuel s
    else some
        (print_page f (codes "nsec=:" ++ f.decimal nsec ++ newline ++ f.decimal usec ++ newline))

abbrev pub clock_write : Kernel → List ℕ → List ℕ → ℕ → Run (List ℕ × Reply)
clock_write k value user n = write_value k value_size value user n

abbrev pub clock_init : (made_dir made_file : Bool) → List Entry → Reply × List Entry
clock_init made_dir made_file l = init_entries clock_names made_dir made_file l

abbrev pub clock_cleanup : List Entry → List Entry
clock_cleanup l = cleanup_entries clock_names l
