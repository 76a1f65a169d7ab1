-- ===== src/Observer/Program.antt =====
-- 实验1/exp1_proc.c: `main`, by its options.
use linux_kernel_experiment.Prelude.{
  ℕ, zero, suc, Bool, false, Option, none, some, List, [], ◌∷◌, ◌++◌, ℤ, pos, ◌+ℤ◌, to_int, ◌==◌,
  if◌then◌else◌, drop, splice,
}
use linux_kernel_experiment.Kernel.{crash}
use linux_kernel_experiment.Stdio.{fgets, all_pieces, equal_texts}
use linux_kernel_experiment.Proc.Value.{text}
use linux_kernel_experiment.Proc.Walk.{codes}
use linux_kernel_experiment.Observer.{Parts, sample_time, sample_load}
use linux_kernel_experiment.Observer.Output.{
  Output, part, uptime, cannot_open, usage, times, disk_requests, switches, processes, memory_total,
  memory_free, loads, at_time, hostname, cpu, version, Result, ended, say, Disk, Scans, World,
}

-- part B: `exit(1)` in `sampleTime`, or the end
abbrev pub after_time : Option Parts → Result
after_time none = say (cannot_open ∷ []) (ended 1)
after_time (some p) = say (uptime p ∷ []) (ended 0)

abbrev pub part_b : World → Result
part_b w = say (part b'B' ∷ []) (after_time (sample_time w.uptime))

-- `d[0] == 's'`
abbrev pub is_disk : List ℕ → Bool
is_disk [] = false
is_disk (x ∷ l) = x == b's'

-- the loop over /proc/diskstats: up to the first line of a disk
abbrev pub find_disk : Scans → List (List ℕ) → Disk → List Output × Disk
find_disk s [] d = ([], d)
find_disk s (l ∷ more) d =
    let found = s.disk l d in
    let rest = find_disk s more found in
    if is_disk found.name
    then (
      disk_requests found.name found.reads found.writes (to_int (found.reads +ℤ found.writes)) ∷ [],
      found,
    )
    else rest

-- `if (strcmp(d, name) == 0) printf(..., m)`
abbrev pub named : List ℕ → (ℤ → Output) → List ℕ × ℤ → List Output
named name f (d, m) = if equal_texts d name then f m ∷ [] else []

-- a loop over the lines of a file that prints two of them
abbrev pub two_named : Scans → (List ℕ × ℤ → List Output) → List (List ℕ) → List ℕ × ℤ → List Output
two_named s f [] v = []
two_named s f (l ∷ more) v = let v' = s.word_number l v in f v' ++ two_named s f more v'

abbrev pub stat_line : List ℕ × ℤ → List Output
stat_line v = named (codes "ctxt") switches v ++ named (codes "processes") processes v

-- the end of part C: /proc/stat once more
abbrev pub show_stat : World → List ℕ → Disk → Result
show_stat w stat d =
    say (two_named w.scans stat_line (all_pieces 511 stat) (d.name, d.other)) (ended 0)

abbrev pub show_disk : World → List ℕ → Option (List ℕ) → Result
show_disk w stat none = some crash
show_disk w stat (some file) =
    let (out, d) = find_disk w.scans (all_pieces 511 file) w.unset in say out (show_stat w stat d)

-- part C: nothing is said where a file cannot be opened
abbrev pub part_c_with : World → Option (List ℕ) → Result
part_c_with w none = some crash
part_c_with w (some stat) =
    let (user, system, idle) = w.scans.times stat in
    say (times user system idle ∷ []) (show_disk w stat w.diskstats)

abbrev pub part_c : World → Result
part_c w = say (part b'C' ∷ []) (part_c_with w w.stat)

abbrev pub memory_line : List ℕ × ℤ → List Output
memory_line v = named (codes "MemTotal:") memory_total v ++ named (codes "MemFree:") memory_free v

-- `sampleLoadAvg`: a file that cannot be opened is read all the same
abbrev pub show_loads : Bool → Option ℕ → Result
show_loads opened none = if opened then none else some crash
show_loads opened (some zero) = say (loads 0 ∷ []) (ended 0)
show_loads opened (some (suc n)) = if opened then say (loads (suc n) ∷ []) (ended 0) else some crash

abbrev pub show_memory : World → (interval duration : ℤ) → Option (List ℕ) → Result
show_memory w interval duration none = some crash
show_memory w interval duration (some file) =
    say (two_named w.scans memory_line (all_pieces 80 file) (w.unset.name, w.unset.other))
      (show_loads w.loadavg (sample_load w.fuel interval duration (pos 0)))

-- part D, by the arguments after the option
abbrev pub part_d : World → List (List ℕ) → Result
part_d w (a ∷ (b ∷ more)) =
    say (part b'D' ∷ []) (show_memory w (w.scans.atoi a) (w.scans.atoi b) w.meminfo)
part_d w (a ∷ []) = say (part b'D' ∷ usage ∷ []) (ended 1)
part_d w [] = say (part b'D' ∷ usage ∷ []) (ended 1)

-- `fgets(lineBuf, 81, file)`: the buffer, and the rest of the file
abbrev pub fill_with : List ℕ → List ℕ → Option (List ℕ × List ℕ) → List ℕ × List ℕ
fill_with buffer file none = (buffer, file)
fill_with buffer file (some (l, rest)) = (splice buffer 0 (l ++ 0 ∷ []), rest)

abbrev pub fill : List ℕ → List ℕ → List ℕ × List ℕ
fill buffer file = fill_with buffer file (fgets 80 file)

-- `for (i = 0; i < n; i++) fgets(...)`
abbrev pub fill_each : ℕ → List ℕ → List ℕ → List ℕ
fill_each zero buffer file = buffer
fill_each (suc n) buffer file = let (b, rest) = fill buffer file in fill_each n b rest

-- `printf("%s", ...)` of a part of the buffer
abbrev pub say_text : (List ℕ → Output) → Option (List ℕ) → Result → Result
say_text f none r = some crash
say_text f (some t) r = say (f t ∷ []) r

-- the three files of part A, the last one first; each one that cannot be opened ends the program,
-- /proc/version with the code 0
abbrev pub show_version : List ℕ → Option (List ℕ) → Result
show_version buffer none = say (cannot_open ∷ []) (ended 0)
show_version buffer (some file) = say_text version (text (fill buffer file).0) (ended 0)

abbrev pub show_cpu : World → List ℕ → Option (List ℕ) → Result
show_cpu w buffer none = say (cannot_open ∷ []) (ended 1)
show_cpu w buffer (some file) =
    let fifth = fill_each 5 buffer file in
    say_text cpu (text (drop 13 fifth)) (show_version fifth w.version)

abbrev pub show_host : World → Option (List ℕ) → Result
show_host w none = say (cannot_open ∷ []) (ended 1)
show_host w (some file) =
    let (b, rest) = fill w.buffer file in say_text hostname (text b) (show_cpu w b w.cpuinfo)

-- part A, by how the time is shown
abbrev pub part_a : (ℤ → Output) → World → Result
part_a f w = say (part b'A' ∷ f w.tv_sec ∷ []) (show_host w w.hostname)

-- the choice by `c1` and `c2`
abbrev pub choose : (ℤ → Output) → World → (c1 c2 : ℕ) → List (List ℕ) → Result
choose f w c1 c2 args =
    if c1 == b'-'
    then (if c2 == b'b'
        then part_b w
        else if c2 == b'c'
        then part_c w
        else if c2 == b'd'
        then part_d w args
        else part_a f w)
    else ended 1

-- `sscanf(argv[1], "%c%c", &c1, &c2)`, which are 0 before, and the rest of `main`
abbrev pub run_with : (ℤ → Output) → World → List (List ℕ) → Result
run_with f w ((c1 ∷ (c2 ∷ more)) ∷ args) = choose f w c1 c2 args
run_with f w ((c1 ∷ []) ∷ args) = choose f w c1 0 args
run_with f w ([] ∷ args) = choose f w 0 0 args
run_with f w [] = choose f w 0 0 []

-- `main`, by the arguments after the program's name
abbrev pub observe : World → List (List ℕ) → Result
observe w args = run_with at_time w args
