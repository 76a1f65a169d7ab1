-- ===== src/Proc/Value.antt =====
-- What the /proc modules of 实验4 and 实验5 share: the array `mydata.value`, and what `sprintf` makes.
use linux_kernel_experiment.Prelude.{
  ℕ, zero, suc, Option, none, some, List, [], ◌∷◌, ◌++◌, ℤ, length, splice, set, ltb, leb, ◌==◌,
  if◌then◌else◌,
}
use linux_kernel_experiment.Kernel.{Kernel, Run, done, crash, Reply, count, error, efault}

-- what `printf` makes of a number (`%d` and `%ld`), and the size of a page
pub record Format : Type 0 where
  pub decimal : ℤ → List ℕ
  pub page_size : ℕ

-- the text of an array, up to the first 0; `none` where there is no 0 in it
abbrev pub text : List ℕ → Option (List ℕ)
text [] = none
text (x ∷ l) =
    let rest = text l in
    if x == 0 then some [] else elim rest [ none ↦ none | some t ↦ some (x ∷ t) ]

-- `value[len - 1] = '\0'`; there is no element -1
abbrev pub terminated : List ℕ → ℕ → Run (List ℕ × Reply)
terminated value zero = crash
terminated value (suc n) = done (set value n 0, count (suc n))

-- the copy from the user into the array, by how many bytes were not copied; a copy that is longer than
-- the array writes behind it
abbrev pub stored : List ℕ → ℕ → List ℕ × ℕ → Run (List ℕ × Reply)
stored value len (bytes, left) =
    if ltb (length value) (length bytes)
    then crash
    else if left == 0
    then terminated (splice value 0 bytes) len
    else done (splice value 0 bytes, error efault)

-- `proc_write` on an array of `limit` bytes
unfoldable pub write_value : Kernel → ℕ → List ℕ → List ℕ → ℕ → Run (List ℕ × Reply)
write_value k limit value user n =
    let len = if ltb limit n then limit else n in stored value len (k.copy_from_user user len)

-- `sprintf(page, ...)`: the text and its length, where it fits a page with its 0
abbrev pub print_page : Format → List ℕ → Run (List ℕ × ℕ)
print_page f t = if leb f.page_size (length t) then crash else done (t, length t)

abbrev pub newline : List ℕ
newline = 10 ∷ []

-- `sprintf(page, "%s%ld\n", value, jiffies)`, by the text of the value
abbrev pub print_with : Format → ℤ → Option (List ℕ) → Run (List ℕ × ℕ)
print_with f jiffies none = crash
print_with f jiffies (some t) = print_page f (t ++ f.decimal jiffies ++ newline)

-- `proc_read` of 实验4/main.c
unfoldable pub read_value : Format → ℤ → List ℕ → Run (List ℕ × ℕ)
read_value f jiffies value = print_with f jiffies (text value)
