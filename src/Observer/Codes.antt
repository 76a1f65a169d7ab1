-- ===== src/Observer/Codes.antt =====
-- 实验1: the exit codes of the observer, where all its files can be opened.
use linux_kernel_experiment.Prelude.{
  ℕ, zero, suc, ◌≡◌, refl, Bool, true, Option, none, some, List, [], ◌∷◌, ℤ, pos, ◌==◌, ◌<◌, ◌≤◌,
  ◌+◌, ◌^◌, if◌then◌else◌, arith, Bool-cases, ==→eq, inl, inr,
}
use linux_kernel_experiment.Observer.{parts, sample_time, sample_load, sample_load-ends}
use linux_kernel_experiment.Observer.Output.{
  Output, part, uptime, usage, times, loads, hostname, cpu, version, ended, World,
}
use linux_kernel_experiment.Observer.Program.{
  part_d, fill, fill_each, show_host, show_cpu, show_version, part_c_with, show_disk, show_memory,
  show_loads, after_time, choose, run_with,
}
use linux_kernel_experiment.Observer.Ends.{
  EndsWith, IsEnded, say-EndsWith, fill-IsEnded, fill_each-IsEnded, say_text-EndsWith, IsReady,
  IsTimed,
}

-- the arguments after the program's name tell the exit code
abbrev pub d_code : List (List ℕ) → ℕ
d_code (a ∷ (b ∷ more)) = 0
d_code (a ∷ []) = 1
d_code [] = 1

abbrev pub choice_code : (c1 c2 : ℕ) → List (List ℕ) → ℕ
choice_code c1 c2 args = if c1 == b'-' then (if c2 == b'd' then d_code args else 0) else 1

abbrev pub exit_code : List (List ℕ) → ℕ
exit_code ((c1 ∷ (c2 ∷ more)) ∷ args) = choice_code c1 c2 args
exit_code ((c1 ∷ []) ∷ args) = choice_code c1 0 args
exit_code ([] ∷ args) = 1
exit_code [] = 1

-- the arguments after the option
abbrev pub rest_of : List (List ℕ) → List (List ℕ)
rest_of [] = []
rest_of (option ∷ args) = args

ended-EndsWith : (c : ℕ) → EndsWith (ended c) c
ended-EndsWith c = (record { out = []; code = c }, refl, refl)

-- `o` holds a value
abbrev IsThere {ℓ} : {A : Type ℓ} → Option A → Type ℓ
IsThere {A} o = (a : A) × (o ≡ some a)

time_ends : (t : Option ℤ) → IsThere t → EndsWith (after_time (sample_time t)) 0
time_ends none h = absurd (cc)
time_ends (some n) h = say-EndsWith (uptime (parts n) ∷ []) (ended 0) 0 (ended-EndsWith 0)

disk_ends :
    (w : World) (stat : List ℕ) (file : Option (List ℕ))
    → IsThere file
    → EndsWith (show_disk w stat file) 0
disk_ends w stat none h = absurd (cc)
disk_ends w stat (some file) h = say-EndsWith _ _ 0 (say-EndsWith _ _ 0 (ended-EndsWith 0))

stat_ends :
    (w : World) (stat : Option (List ℕ))
    → IsThere stat
    → IsThere w.diskstats
    → EndsWith (part_c_with w stat) 0
stat_ends w none h d = absurd (cc)
stat_ends w (some stat) h d =
    let (user, system, idle) = w.scans.times stat in
    say-EndsWith (times user system idle ∷ []) (show_disk w stat w.diskstats) 0
      (disk_ends w stat w.diskstats d)

loads_end :
    (opened : Bool) (n : Option ℕ) → opened ≡ true → IsThere n → EndsWith (show_loads opened n) 0
loads_end opened none o h = absurd (cc)
loads_end opened (some zero) o h = say-EndsWith (loads 0 ∷ []) (ended 0) 0 (ended-EndsWith 0)
loads_end opened (some (suc n)) o h =
    rw o (say-EndsWith (loads (suc n) ∷ []) (ended 0) 0 (ended-EndsWith 0))

memory_ends :
    (w : World) (i d : ℤ) (file : Option (List ℕ))
    → IsThere file
    → w.loadavg ≡ true
    → IsThere (sample_load w.fuel i d (pos 0))
    → EndsWith (show_memory w i d file) 0
memory_ends w i d none h o n = absurd (cc)
memory_ends w i d (some file) h o n =
    say-EndsWith _ _ 0 (loads_end w.loadavg (sample_load w.fuel i d (pos 0)) o n)

samples_end :
    (fuel i d : ℕ) (a b : ℤ)
    → a ≡ pos i
    → b ≡ pos d
    → 0 < i
    → d + i < 2 ^ 31
    → d ≤ fuel
    → IsThere (sample_load fuel a b (pos 0))
samples_end fuel i d a b ea eb up small enough =
    rw (ea, eb) (sample_load-ends fuel i d 0 small up (omega arith))

part_d_ends :
    (w : World) (args : List (List ℕ))
    → IsReady w
    → IsTimed w args
    → EndsWith (part_d w args) (d_code args)
part_d_ends w [] h t = say-EndsWith (part b'D' ∷ usage ∷ []) (ended 1) 1 (ended-EndsWith 1)
part_d_ends w (a ∷ []) h t = say-EndsWith (part b'D' ∷ usage ∷ []) (ended 1) 1 (ended-EndsWith 1)
part_d_ends w (a ∷ (b ∷ more)) h t =
    let (i, d, ea, eb, up, small, enough) = t in
    say-EndsWith (part b'D' ∷ []) (show_memory w (w.scans.atoi a) (w.scans.atoi b) w.meminfo) 0 (
      memory_ends w (w.scans.atoi a) (w.scans.atoi b) w.meminfo h.meminfo h.loadavg
        (samples_end w.fuel i d (w.scans.atoi a) (w.scans.atoi b) ea eb up small enough))

version_ends :
    (b : List ℕ) (file : Option (List ℕ))
    → IsEnded b
    → IsThere file
    → EndsWith (show_version b file) 0
version_ends b none e h = absurd (cc)
version_ends b (some file) e h =
    say_text-EndsWith version 0 (fill b file).0 (ended 0) 0 (omega arith) (fill-IsEnded b file e)
      (ended-EndsWith 0)

cpu_ends :
    (w : World) (b : List ℕ) (file : Option (List ℕ))
    → IsEnded b
    → IsThere file
    → IsThere w.version
    → EndsWith (show_cpu w b file) 0
cpu_ends w b none e h v = absurd (cc)
cpu_ends w b (some file) e h v =
    let fifth = fill_each 5 b file in
    let fifth_ended = fill_each-IsEnded 5 b file e in
    say_text-EndsWith cpu 13 fifth (show_version fifth w.version) 0 (omega arith) fifth_ended
      (version_ends fifth w.version fifth_ended v)

host_ends :
    (w : World) (file : Option (List ℕ)) → IsReady w → IsThere file → EndsWith (show_host w file) 0
host_ends w none h there = absurd (cc)
host_ends w (some file) h there =
    let b = (fill w.buffer file).0 in
    let b_ended = fill-IsEnded w.buffer file h.buffer in
    say_text-EndsWith hostname 0 b (show_cpu w b w.cpuinfo) 0 (omega arith) b_ended
      (cpu_ends w b w.cpuinfo b_ended h.cpuinfo h.version)

choose_ends :
    (f : ℤ → Output) (w : World) (c1 c2 : ℕ) (args : List (List ℕ))
    → IsReady w
    → IsTimed w args
    → EndsWith (choose f w c1 c2 args) (choice_code c1 c2 args)
choose_ends f w c1 c2 args h t =
    let a = say-EndsWith (part b'A' ∷ f w.tv_sec ∷ []) _ 0 (host_ends w w.hostname h h.hostname) in
    let b = say-EndsWith (part b'B' ∷ []) _ 0 (time_ends w.uptime h.uptime) in
    let c = say-EndsWith (part b'C' ∷ []) _ 0 (stat_ends w w.stat h.stat h.diskstats) in
    let d = part_d_ends w args h t in
    elim (Bool-cases (c1 == b'-')) [
      | inr other ↦ rw other (ended-EndsWith 1)
      | inl dash ↦ elim (Bool-cases (c2 == b'b')) [
        | inl at_b ↦ rw (dash, ==→eq c2 b'b' at_b) b
        | inr not_b ↦ elim (Bool-cases (c2 == b'c')) [
          | inl at_c ↦ rw (dash, ==→eq c2 b'c' at_c) c
          | inr not_c ↦ elim (Bool-cases (c2 == b'd')) [
            | inl at_d ↦ rw (dash, ==→eq c2 b'd' at_d) d
            | inr not_d ↦ rw (dash, not_b, not_c, not_d) a
          ]
        ]
      ]
    ]

-- Where all the files can be opened, the buffer as `malloc` gives it has a 0 in its last place, and,
-- if there are two arguments after the first, they are an interval above 0 and a duration, whose sum fits an
-- `int`, and there is fuel for the duration: the program ends. Its code is 0 where the first argument
-- begins with `-`, and, if `d` follows, there are two more; else it is 1.
pub run_with-exit_code :
    (f : ℤ → Output) (w : World) (args : List (List ℕ))
    → IsReady w
    → IsTimed w (rest_of args)
    → EndsWith (run_with f w args) (exit_code args)
run_with-exit_code f w [] h t = choose_ends f w 0 0 [] h tt
run_with-exit_code f w ([] ∷ args) h t = choose_ends f w 0 0 args h t
run_with-exit_code f w ((c1 ∷ []) ∷ args) h t = choose_ends f w c1 0 args h t
run_with-exit_code f w ((c1 ∷ (c2 ∷ more)) ∷ args) h t = choose_ends f w c1 c2 args h t
