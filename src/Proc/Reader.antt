-- ===== src/Proc/Reader.antt =====
-- 实验4/exp4a.c: a program that reads the number of ticks from the file of 实验4/main.c.
use linux_kernel_experiment.Prelude.{
  ℕ, ◌+◌, ◌≡◌, ◌≤◌, ◌<◌, ap, ◌∙◌, Option, none, some, List, [], ◌++◌, ℤ, pos, drop, length, arith,
  length-append,
}
use linux_kernel_experiment.Kernel.{Run, done, crash}
use linux_kernel_experiment.Stdio.{fgets, IsLine, line_fits}
use linux_kernel_experiment.Proc.Value.{Format, newline, print_with, read_value}
use linux_kernel_experiment.Proc.Walk.{codes}
use linux_kernel_experiment.Proc.Shown.{text-splice, print_fits}
use linux_kernel_experiment.Proc.Ticks.{ticks_size, first_value, read_ticks}

-- the number at the front of a text, by `%ld`; `none` is no number
abbrev pub Scan : Type 0
Scan = List ℕ → Option ℤ

-- `jiffies` is 0 before
abbrev pub found : Option ℤ → ℤ
found none = pos 0
found (some n) = n

-- `sscanf(str, "%c%c%c%c%c%c%ld", ...)`, by what `fgets` gave
abbrev pub scan_ticks : Scan → Option (List ℕ × List ℕ) → ℤ
scan_ticks scan none = pos 0
scan_ticks scan (some (str, rest)) = found (scan (drop 6 str))

-- `main`: the two printed numbers, by the clock and the file, if it can be opened
abbrev pub show_ticks : Scan → ℤ → Option (List ℕ) → Run (ℤ × ℤ)
show_ticks scan tv_sec none = crash
show_ticks scan tv_sec (some file) = done (tv_sec, scan_ticks scan (fgets 19 file))

read_first_value :
    (f : Format) (j : ℤ) (value : List ℕ)
    → length value ≡ ticks_size
    → 6 + length (f.decimal j) + 1 < f.page_size
    → read_ticks f j (first_value value)
      ≡ done (
        codes "Ticks=" ++ f.decimal j ++ newline,
        length (codes "Ticks=" ++ f.decimal j ++ newline),
      )
unfolding read_value
read_first_value f j value e h =
    let head = codes "Ticks=" in
    ap (print_with f j) (
      text-splice head value
        (omega arith, (omega arith, (omega arith, (omega arith, (omega arith, (omega arith, tt))))))
        (omega (arith, e)))
    ∙ print_fits f j head (omega (arith, length-append (f.decimal j) newline))

-- Where the file of a module that just started is read, the number is one that `%ld` reads back
-- before a newline, and it has no newline of its own and at most 12 digits: the program prints it.
show_ticks-read_ticks :
    (f : Format) (scan : Scan) (tv_sec j : ℤ) (value : List ℕ)
    → length value ≡ ticks_size
    → 6 + length (f.decimal j) + 1 < f.page_size
    → length (f.decimal j) ≤ 12
    → IsLine (f.decimal j)
    → scan (f.decimal j ++ newline) ≡ some j
    → (t : List ℕ) × (read_ticks f j (first_value value) ≡ done (t, length t))
      × (show_ticks scan tv_sec (some t) ≡ done (tv_sec, j))
show_ticks-read_ticks f scan tv_sec j value e page short plain back =
    let head = codes "Ticks=" in
    let plain_head : IsLine (head ++ f.decimal j) = (
      omega arith,
      (omega arith, (omega arith, (omega arith, (omega arith, (omega arith, plain))))),
    ) in
    (
      head ++ f.decimal j ++ newline,
      read_first_value f j value e page,
      ap (λ r. done (tv_sec, scan_ticks scan (some r)))
            (line_fits 19 (head ++ f.decimal j) [] plain_head (omega arith))
          ∙ ap (λ n. done (tv_sec, found n)) back,
    )
