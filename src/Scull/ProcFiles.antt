-- ===== src/Scull/ProcFiles.antt =====
-- 实验7/scull/main.c, under SCULL_DEBUG: the entries in /proc come and go with the module.
use linux_kernel_experiment.Prelude.{
  ◌≡◌, refl, ap, ◌∙◌, Bool, true, false, ◌&&◌, List, [], ◌∷◌, All,
}
use linux_kernel_experiment.Proc.Entries.{Entry, same_dir, same_text, remove_entry}
use linux_kernel_experiment.Scull.Procmem.{
  mem_entry, seq_entry, make_entry, create_proc, remove_proc,
}

-- an entry of another name or in another directory
abbrev pub IsOther : Entry → Entry → Type 0
IsOther e x = (same_dir e.dir x.dir && same_text e.name x.name) ≡ false

remove_entry_absent : (e : Entry) (l : List Entry) → All (IsOther e) l → remove_entry e l ≡ l
remove_entry_absent e [] h = refl
remove_entry_absent e (x ∷ l) h = rw h.0 (ap (◌∷◌ x) (remove_entry_absent e l h.1))

removed_mem :
    (made : Bool) (l : List Entry)
    → All (IsOther mem_entry) l
    → remove_entry mem_entry (make_entry made mem_entry l) ≡ l
removed_mem false l h = remove_entry_absent mem_entry l h
removed_mem true l h = refl

removed_seq :
    (made : Bool) (l : List Entry)
    → All (IsOther seq_entry) l
    → remove_entry seq_entry (make_entry made seq_entry l) ≡ l
removed_seq false l h = remove_entry_absent seq_entry l h
removed_seq true l h = refl

-- the entry of the other name stands before
past_seq :
    (made : Bool) (l : List Entry)
    → remove_entry mem_entry (make_entry made seq_entry l)
      ≡ make_entry made seq_entry (remove_entry mem_entry l)
past_seq false l = refl
past_seq true l = refl

-- Whichever of the two files the kernel grants, where /proc has no entries of their names yet:
-- the removal after the creation leaves /proc as it was.
remove_proc-create_proc :
    (made_mem made_seq : Bool) (l : List Entry)
    → All (IsOther mem_entry) l
    → All (IsOther seq_entry) l
    → remove_proc (create_proc made_mem made_seq l) ≡ l
remove_proc-create_proc made_mem made_seq l hm hs =
    ap (remove_entry seq_entry) (
      past_seq made_seq (make_entry made_mem mem_entry l)
      ∙ ap (make_entry made_seq seq_entry) (removed_mem made_mem l hm))
    ∙ removed_seq made_seq l hs
