-- ===== src/Observer/Output.antt =====
-- 实验1/exp1_proc.c: what the program prints, and what it is given. The files of /proc, the values of
-- variables that nothing set before, and what `sscanf` and `atoi` read are parameters; the words fit
-- their arrays.
use linux_kernel_experiment.Prelude.{ℕ, Bool, Option, none, some, List, [], ◌++◌, ℤ}
use linux_kernel_experiment.Kernel.{Run, done, crash}
use linux_kernel_experiment.Observer.{Parts}

-- what the program prints
pub data Output : Type 0 where
  part : ℕ → Output
  uptime : Parts → Output
  cannot_open usage : Output
  -- user, system and idle time
  times : ℤ → ℤ → ℤ → Output
  -- name, reads, writes and their sum
  disk_requests : List ℕ → ℤ → ℤ → ℤ → Output
  switches processes memory_total memory_free : ℤ → Output
  -- how many samples of the load
  loads : ℕ → Output
  -- the time by `ctime`, and by three numbers
  at_time : ℤ → Output
  at_clock : ℤ → ℤ → ℤ → Output
  hostname cpu version : List ℕ → Output

-- what is printed and the exit code; `none` is a loop that does not end with the fuel
pub record Ran : Type 0 where
  pub out : List Output
  pub code : ℕ

abbrev pub Result : Type 0
Result = Option (Run Ran)

abbrev pub ended : ℕ → Result
ended code = some (done (record { out = []; code = code }))

abbrev pub add_first : List Output → Run Ran → Run Ran
add_first l crash = crash
add_first l (done r) = done (record r { out = l ++ r.out })

-- `printf`, and what follows
abbrev pub say : List Output → Result → Result
say l none = none
say l (some r) = some (add_first l r)

-- the variables `d`, `m`, `r` and `w` of part C
pub record Disk : Type 0 where
  pub name : List ℕ
  pub other : ℤ
  pub reads : ℤ
  pub writes : ℤ

-- `sscanf` and `atoi`, each with the values before
pub record Scans : Type 0 where
  pub word_number : List ℕ → List ℕ × ℤ → List ℕ × ℤ
  pub disk : List ℕ → Disk → Disk
  pub times : List ℕ → ℤ × ℤ × ℤ
  pub atoi : List ℕ → ℤ

-- the files, none where one cannot be opened, the clock, `lineBuf` as `malloc` gives it, and the
-- locals that are not set; `fuel` bounds the samples of the load
pub record World : Type 0 where
  pub scans : Scans
  pub uptime : Option ℤ
  pub stat : Option (List ℕ)
  pub diskstats : Option (List ℕ)
  pub meminfo : Option (List ℕ)
  pub loadavg : Bool
  pub hostname : Option (List ℕ)
  pub cpuinfo : Option (List ℕ)
  pub version : Option (List ℕ)
  pub tv_sec : ℤ
  pub buffer : List ℕ
  pub unset : Disk
  pub fuel : ℕ
