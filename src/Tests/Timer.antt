-- ===== src/Tests/Timer.antt =====
-- Timers whose signals came a few times, the clock on the wall and the reports of interrupts.
use linux_kernel_experiment.Prelude.{
  ℕ, ◌+◌, ◌≡◌, refl, none, some, List, [], ◌∷◌, ◌++◌, ℤ, arith, get_elem?, take,
}
use linux_kernel_experiment.Kernel.{done, crash}
use linux_kernel_experiment.Stdio.{pieces}
use linux_kernel_experiment.Proc.Walk.{codes}
use linux_kernel_experiment.Timer.Clock.{Course}
use linux_kernel_experiment.Timer.Program.{Courses}
use linux_kernel_experiment.Timer.Interrupts.{
  Signal, sigalrm, sigvtalrm, sigprof, Watch, Reporter, reports,
}
use linux_kernel_experiment.Timer.Reports.{watch, total, IsUpTo, reports_crash, reports-total}

abbrev pub twice : Course
twice = record { signals = 2; left_sec = 5; left_usec = 250000 }

abbrev pub two_signals : Courses
two_signals = record { real = twice; virtual = twice; prof = twice }

-- a word of 4 bytes and the byte two further on
abbrev scan_stat : List ℕ → List ℕ × ℕ → List ℕ × ℕ
scan_stat l v = elim (get_elem? l 5) [ none ↦ v | some n ↦ (take 4 l, n) ]

-- /proc/stat with `n` interrupts
abbrev stat_of : ℕ → List ℕ
stat_of n = codes "cpu  1" ++ 10 ∷ codes "intr " ++ n ∷ 10 ∷ []

abbrev at_twenty : Watch
at_twenty = record { word = []; stime = 20; otime = 0 }

abbrev three_timers : Reporter
three_timers = record { files = 1; real = at_twenty; virtual = at_twenty; prof = at_twenty }

all_twenty : IsUpTo 20 three_timers
all_twenty sigalrm = omega arith
all_twenty sigvtalrm = omega arith
all_twenty sigprof = omega arith

abbrev three_signals : List (Signal × List ℕ)
three_signals = (sigalrm, stat_of 23) ∷ (sigprof, stat_of 24) ∷ (sigalrm, stat_of 27) ∷ []

reports-total_example :
    (out : List (Signal × ℤ)) × (r' : Reporter) × (reports scan_stat 9 three_signals three_timers
      ≡ done (out, r'))
    × ((j : Signal) → (watch j three_timers).stime + total j out ≡ (watch j r').stime)
unfolding pieces
reports-total_example =
    reports-total scan_stat 9 20 three_signals three_timers all_twenty
      (
        23,
        λ v. refl,
        omega arith,
        omega arith,
        (24, λ v. refl, omega arith, omega arith, (27, λ v. refl, omega arith, omega arith, tt)),
      )
      (omega arith)

-- with room for 3 files the third signal finds none
too_many_files : reports scan_stat 3 three_signals three_timers ≡ crash
too_many_files = reports_crash scan_stat 3 three_signals three_timers (omega arith) (omega arith)
