-- ===== src/Proc/Ticks.antt =====
-- 实验4/main.c: the file /proc/mydir/myfile, with a text of the user before the number of ticks.
use linux_kernel_experiment.Prelude.{ℕ, ◌++◌, Bool, List, [], ◌∷◌, ℤ, splice}
use linux_kernel_experiment.Kernel.{Kernel, Run, Reply}
use linux_kernel_experiment.Proc.Value.{Format, write_value, read_value}
use linux_kernel_experiment.Proc.Entries.{Entry, Names, init_entries, cleanup_entries}
use linux_kernel_experiment.Proc.Walk.{codes}

-- `MYDATA_LEN`
abbrev pub ticks_size : ℕ
ticks_size = 16

abbrev pub ticks_names : Names
ticks_names = record { dir = codes "mydir"; file = codes "myfile" }

-- `proc_read`
abbrev pub read_ticks : Format → ℤ → List ℕ → Run (List ℕ × ℕ)
read_ticks f jiffies value = read_value f jiffies value

-- `proc_write`
abbrev pub write_ticks : Kernel → List ℕ → List ℕ → ℕ → Run (List ℕ × Reply)
write_ticks k value user n = write_value k ticks_size value user n

-- `init_module`, but for the array
abbrev pub init_ticks : (made_dir made_file : Bool) → List Entry → Reply × List Entry
init_ticks made_dir made_file l = init_entries ticks_names made_dir made_file l

-- `strcpy(mydata.value, "Ticks=")`
abbrev pub first_value : List ℕ → List ℕ
first_value value = splice value 0 (codes "Ticks=" ++ (0 ∷ []))

-- `cleanup_module`
abbrev pub cleanup_ticks : List Entry → List Entry
cleanup_ticks l = cleanup_entries ticks_names l
