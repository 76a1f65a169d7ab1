-- ===== src/Tests/Observer.antt =====
-- The observer of /proc: its sums, its output and its exit codes.
use linux_kernel_experiment.Prelude.{
  ℕ, ◌≡◌, refl, true, none, some, List, [], ◌∷◌, ◌++◌, ℤ, pos, quot_ℤ, rem_ℤ, to_int, ◌+ℤ◌,
  get_elem?, take, replicate, arith,
}
use linux_kernel_experiment.Kernel.{done, crash}
use linux_kernel_experiment.Stdio.{pieces}
use linux_kernel_experiment.Proc.Walk.{codes}
use linux_kernel_experiment.Observer.{parts, sample_load}
use linux_kernel_experiment.Observer.Output.{
  part, times, disk_requests, switches, at_time, at_clock, hostname, cpu, version, Scans, World,
}
use linux_kernel_experiment.Observer.Program.{run_with, observe}
use linux_kernel_experiment.Observer.Clocked.{observe_clocked}
use linux_kernel_experiment.Observer.Ends.{EndsWith, IsReady}
use linux_kernel_experiment.Observer.Codes.{exit_code, run_with-exit_code}

one_of_each :
    parts (pos 90061) ≡ record { day = pos 1; hour = pos 1; minute = pos 1; second = pos 1 }
unfolding quot_ℤ rem_ℤ
one_of_each = refl

-- 10 seconds, every 4
three_samples : sample_load 10 (pos 4) (pos 10) (pos 0) ≡ some 3
unfolding sample_load to_int ◌+ℤ◌
three_samples = refl

-- a word of 4 bytes and the byte two further on; what is missing is as it was
abbrev scan_word : List ℕ → List ℕ × ℤ → List ℕ × ℤ
scan_word l (word, n) = elim (get_elem? l 5) [
  | none ↦ (word, n)
  | some digit ↦ (take 4 l, pos digit)
]

abbrev scans : Scans
scans = record {
  word_number = scan_word;
  disk = λ l d. record d { name = l; reads = pos 2; writes = pos 3 };
  times = λ l. (pos 1, pos 2, pos 3);
  atoi = λ l. elim l [ [] ↦ pos 0 | ◌∷◌ x more ↦ pos x ];
}

abbrev world : World
world = record {
  scans = scans;
  uptime = some (pos 90061);
  stat = some (codes "cpu  1" ++ 10 ∷ codes "ctxt 7" ++ 10 ∷ []);
  diskstats = some (codes "ram0" ++ 10 ∷ codes "sda" ++ 10 ∷ []);
  meminfo = some (codes "MemTotal: 5" ++ 10 ∷ []);
  loadavg = true;
  hostname = some (codes "box" ++ 10 ∷ []);
  cpuinfo = some (10 ∷ 10 ∷ 10 ∷ 10 ∷ codes "model name : cpu" ++ 10 ∷ []);
  version = some (codes "Linux" ++ 10 ∷ []);
  tv_sec = pos 3661;
  buffer = replicate 81 0;
  unset = record { name = []; other = pos 0; reads = pos 0; writes = pos 0 };
  fuel = 9;
}

world-IsReady : IsReady world
world-IsReady = record {
  uptime = (pos 90061, refl);
  stat = (codes "cpu  1" ++ 10 ∷ codes "ctxt 7" ++ 10 ∷ [], refl);
  diskstats = (codes "ram0" ++ 10 ∷ codes "sda" ++ 10 ∷ [], refl);
  meminfo = (codes "MemTotal: 5" ++ 10 ∷ [], refl);
  loadavg = refl;
  hostname = (codes "box" ++ 10 ∷ [], refl);
  cpuinfo = (10 ∷ 10 ∷ 10 ∷ 10 ∷ codes "model name : cpu" ++ 10 ∷ [], refl);
  version = (codes "Linux" ++ 10 ∷ [], refl);
  buffer = (refl, refl);
}

-- `-d 2 5`
run_with-exit_code_example :
    EndsWith
      (run_with at_time world (codes "-d" ∷ (2 ∷ []) ∷ (5 ∷ []) ∷ []))
      (exit_code (codes "-d" ∷ (2 ∷ []) ∷ (5 ∷ []) ∷ []))
run_with-exit_code_example =
    run_with-exit_code at_time world (codes "-d" ∷ (2 ∷ []) ∷ (5 ∷ []) ∷ []) world-IsReady
      (2, 5, refl, refl, omega arith, omega arith, omega arith)

shown_c :
    observe world (codes "-c" ∷ [])
    ≡ some (
        done (record {
          out =
              part b'C'
              ∷ times (pos 1) (pos 2) (pos 3)
              ∷ disk_requests (codes "sda" ++ 10 ∷ []) (pos 2) (pos 3) (pos 5)
              ∷ switches (pos b'7')
              ∷ [];
          code = 0;
        }))
unfolding pieces to_int ◌+ℤ◌
shown_c = refl

-- the time of day in seconds and by the clock
shown_a :
    observe_clocked world (codes "-a" ∷ [])
    ≡ some (
        done (record {
          out =
              part b'A'
              ∷ at_clock (pos 1) (pos 1) (pos 1)
              ∷ hostname (codes "box" ++ 10 ∷ [])
              ∷ cpu (codes "cpu" ++ 10 ∷ [])
              ∷ version (codes "Linux" ++ 10 ∷ [])
              ∷ [];
          code = 0;
        }))
unfolding quot_ℤ rem_ℤ
shown_a = refl

-- without /proc/stat, part C reads through NULL
stat_missing : observe (record world { stat = none }) (codes "-c" ∷ []) ≡ some crash
stat_missing = refl
