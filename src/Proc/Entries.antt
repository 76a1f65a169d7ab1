-- ===== src/Proc/Entries.antt =====
-- What the /proc modules of 实验4 and 实验5 share: a directory in /proc with one file. The entries are
-- the kernel's; whether it grants a new one is a parameter.
use linux_kernel_experiment.Prelude.{
  ℕ, ◌≡◌, refl, ap, ◌∙◌, ◌⊎◌, inl, inr, ==_refl, Bool, true, false, ◌&&◌, Option, none, some, List,
  [], ◌∷◌, ◌==◌, if◌then◌else◌,
}
use linux_kernel_experiment.Kernel.{Reply, count, error, enomem, eperm}

-- an entry, with the directory that it is in; `none` is /proc itself
pub record Entry : Type 0 where
  pub dir : Option (List ℕ)
  pub name : List ℕ

abbrev pub same_text : List ℕ → List ℕ → Bool
same_text [] [] = true
same_text [] (y ∷ ys) = false
same_text (x ∷ xs) [] = false
same_text (x ∷ xs) (y ∷ ys) = let rest = same_text xs ys in (x == y) && rest

abbrev pub same_dir : Option (List ℕ) → Option (List ℕ) → Bool
same_dir none none = true
same_dir none (some b) = false
same_dir (some a) none = false
same_dir (some a) (some b) = same_text a b

-- `remove_proc_entry`
abbrev pub remove_entry : Entry → List Entry → List Entry
remove_entry e [] = []
remove_entry e (x ∷ l) =
    let rest = remove_entry e l in
    if same_dir e.dir x.dir && same_text e.name x.name then l else x ∷ rest

-- the names of a module's directory and file
pub record Names : Type 0 where
  pub dir : List ℕ
  pub file : List ℕ

-- `create_proc_entry`, and the fields of the new entry
abbrev pub make_file : Names → Bool → List Entry → Reply × List Entry
make_file n false l = (error enomem, remove_entry (record { dir = none; name = n.file }) l)
make_file n true l = (count 0, record { dir = some n.dir; name = n.file } ∷ l)

-- `init_module`: `made_dir` and `made_file` tell what the kernel grants; -1 is `-EPERM`
abbrev pub init_entries : Names → (made_dir made_file : Bool) → List Entry → Reply × List Entry
init_entries n false made_file l = (error eperm, l)
init_entries n true made_file l = make_file n made_file (record { dir = none; name = n.dir } ∷ l)

-- `cleanup_module`
abbrev pub cleanup_entries : Names → List Entry → List Entry
cleanup_entries n l =
    remove_entry (record { dir = none; name = n.dir })
      (remove_entry (record { dir = some n.dir; name = n.file }) l)

same_text_refl : (t : List ℕ) → same_text t t ≡ true
same_text_refl [] = refl
same_text_refl (x ∷ xs) = rw (==_refl x, same_text_refl xs) refl

head_removed :
    (e : Entry) (l : List Entry) → same_dir e.dir e.dir ≡ true → remove_entry e (e ∷ l) ≡ l
head_removed e l h = rw (h, same_text_refl e.name) refl

-- For a file whose name is not the directory's: after a start that returns 0, the end of the module
-- leaves exactly the entries that there were. A start that is refused the directory changes nothing.
-- One that is refused the file leaves the directory, and removes an entry of the file's name from /proc.
cleanup-init_entries :
    (n : Names) (made_dir made_file : Bool) (l : List Entry)
    → same_text n.file n.dir ≡ false
    → let (reply, l') = init_entries n made_dir made_file l in
      ((reply ≡ count 0) × (cleanup_entries n l' ≡ l))
      ⊎ ((reply ≡ error eperm) × (l' ≡ l))
      ⊎ ((reply ≡ error enomem)
          × (l'
              ≡ record { dir = none; name = n.dir }
                ∷ remove_entry (record { dir = none; name = n.file }) l))
cleanup-init_entries n false made_file l h = inr (inl (refl, refl))
cleanup-init_entries n true false l h = inr (inr (refl, rw h refl))
cleanup-init_entries n true true l h =
    let dir : Entry = record { dir = none; name = n.dir } in
    inl (
      refl,
      ap (remove_entry dir) (
            head_removed (record { dir = some n.dir; name = n.file }) (dir ∷ l)
              (same_text_refl n.dir))
          ∙ head_removed dir l refl,
    )
