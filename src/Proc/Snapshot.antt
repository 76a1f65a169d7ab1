-- ===== src/Proc/Snapshot.antt =====
-- 实验4/exp4b.c: a module that lists the processes once, when it starts, and shows that list.
use linux_kernel_experiment.Prelude.{
  ℕ, ◌++◌, Bool, true, false, Option, none, some, List, [], ◌∷◌, ℤ, splice,
}
use linux_kernel_experiment.Kernel.{Kernel, Run, done, crash, Reply}
use linux_kernel_experiment.Proc.Value.{Format, write_value, read_value, newline}
use linux_kernel_experiment.Proc.Entries.{Entry, Names, init_entries, cleanup_entries}
use linux_kernel_experiment.Proc.Walk.{
  codes, value_size, extend, first_line, blank, System, climb, each_process,
}

abbrev pub snapshot_names : Names
snapshot_names = record { dir = codes "exp4dir"; file = codes "exp4b" }

-- the texts that head the two lists, in UTF-8
abbrev pub ancestors_head : List ℕ
ancestors_head =
    0xe9 ∷ 0x80 ∷ 0x90 ∷ 0xe5 ∷ 0xb1 ∷ 0x82 ∷ 0xe9 ∷ 0x81 ∷ 0x8d ∷ 0xe5 ∷ 0x8e ∷ 0x86 ∷ 0xe7 ∷ 0x88
    ∷ 0xb6 ∷ 0xe8 ∷ 0xbf ∷ 0x9b ∷ 0xe7 ∷ 0xa8 ∷ 0x8b ∷ 0xef ∷ 0xbc ∷ 0x9a ∷ newline

abbrev pub tasks_head : List ℕ
tasks_head =
    blank
    ++ (0xe5 ∷ 0xbd ∷ 0x93 ∷ 0xe5 ∷ 0x89 ∷ 0x8d ∷ 0xe7 ∷ 0x9a ∷ 0x84 ∷ 0xe4 ∷ 0xbb ∷ 0xbb ∷ 0xe5
        ∷ 0x8a ∷ 0xa1 ∷ 0xe9 ∷ 0x98 ∷ 0x9f ∷ 0xe5 ∷ 0x88 ∷ 0x97 ∷ 0xe6 ∷ 0x98 ∷ 0xaf ∷ b':' ∷ [])
    ++ blank
    ++ newline

abbrev pub add_queue : Format → System → Option (Run (List ℕ)) → Option (Run (List ℕ))
add_queue f s none = none
add_queue f s (some acc) = some (each_process f s.queue (extend tasks_head acc))

-- the text that `init_module` makes of the tasks; `none` is a loop longer than the fuel
unfoldable pub take_snapshot : Format → ℕ → System → Option (Run (List ℕ))
take_snapshot f fuel s =
    add_queue f s (
      climb f fuel s.tasks (some s.current) (extend (first_line f s.current) (done ancestors_head)))

-- what the module keeps: its entries, and `mydata.value`
pub record Module : Type 0 where
  pub entries : List Entry
  pub value : List ℕ

-- the text in the array, with a 0 after it
abbrev pub settle : Module → List Entry → Reply → Run (List ℕ) → Run (Reply × Module)
settle m l reply crash = crash
settle m l reply (done t) =
    done (reply, record { entries = l; value = splice m.value 0 (t ++ 0 ∷ []) })

abbrev pub start_with :
    Module → List Entry → Reply → Option (Run (List ℕ)) → Option (Run (Reply × Module))
start_with m l reply none = none
start_with m l reply (some r) = some (settle m l reply r)

-- `init_module`: the listing is made only where both entries are granted
abbrev pub init_snapshot :
    Format → ℕ → System → (made_dir made_file : Bool) → Module → Option (Run (Reply × Module))
init_snapshot f fuel s true true m =
    let (reply, l) = init_entries snapshot_names true true m.entries in
    start_with m l reply (take_snapshot f fuel s)
init_snapshot f fuel s true false m =
    let (reply, l) = init_entries snapshot_names true false m.entries in
    some (done (reply, record m { entries = l }))
init_snapshot f fuel s false made_file m =
    let (reply, l) = init_entries snapshot_names false made_file m.entries in
    some (done (reply, record m { entries = l }))

-- `proc_read`
abbrev pub read_snapshot : Format → ℤ → Module → Run (List ℕ × ℕ)
read_snapshot f jiffies m = read_value f jiffies m.value

-- `proc_write`
abbrev pub write_snapshot : Kernel → List ℕ → ℕ → Module → Run (List ℕ × Reply)
write_snapshot k user n m = write_value k value_size m.value user n

-- `cleanup_module`
abbrev pub cleanup_snapshot : Module → Module
cleanup_snapshot m = record m { entries = cleanup_entries snapshot_names m.entries }
