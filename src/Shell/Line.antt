-- ===== src/Shell/Line.antt =====
-- 实验2/exp2.c: `splitCmd`, `getfullPath` and the loop of `main`. The arrays are taken to be as large as
-- what is put into them, but for the 64 bytes of a path. Whether a file exists, and whether `pipe` and
-- `fork` succeed, are parameters.
use Prim.Native.Char.{code}
use Prim.Native.String.{String}
use linux_kernel_experiment.Prelude.{
  ℕ, suc, Bool, true, false, ◌&&◌, Option, none, some, List, [], ◌∷◌, ◌++◌, length, leb, ◌==◌,
  if◌then◌else◌,
}
use linux_kernel_experiment.Kernel.{Run, done, crash}
use linux_kernel_experiment.Shell.Tokens.{strtok, tokens}

-- the bytes of an ASCII text
abbrev pub ascii : String → List ℕ
ascii String.[] = []
ascii (String.◌∷◌ c s) = code c ∷ ascii s

abbrev pub all_tokens : String → List ℕ → List (List ℕ)
all_tokens delims s = tokens (length s) (ascii delims) s

-- `splitCmd`: `argv`; where it is empty, `argv[0]` and the name are NULL
abbrev pub split_cmd : List ℕ → List (List ℕ)
split_cmd buffer = all_tokens " " buffer

-- `strstr(s, t) != NULL`
abbrev pub starts_with : List ℕ → List ℕ → Bool
starts_with [] s = true
starts_with (x ∷ t) [] = false
starts_with (x ∷ t) (y ∷ s) = let rest = starts_with t s in (x == y) && rest

abbrev pub contains : List ℕ → List ℕ → Bool
contains t [] = starts_with t []
contains t (y ∷ s) = let rest = contains t s in if starts_with t (y ∷ s) then true else rest

-- `sprintf` into the 64 bytes of a path
abbrev pub into_path : List ℕ → Run (List ℕ)
into_path s = if leb 64 (length s) then crash else done s

abbrev pub path_in : List ℕ → List ℕ → List ℕ
path_in dir name = dir ++ ascii "/" ++ name

-- one round of the loop of `getfullPath`, before the others
abbrev pub path_or : (List ℕ → Bool) → Run (List ℕ) → Run (List ℕ) → Run (List ℕ)
path_or exists crash rest = crash
path_or exists (done p) rest = if exists p then done p else rest

-- `getfullPath`
unfoldable pub get_full_path : (List ℕ → Bool) → List (List ℕ) → List ℕ → Run (List ℕ)
get_full_path exists [] name = into_path name
get_full_path exists (dir ∷ dirs) name =
    path_or exists (into_path (path_in dir name)) (get_full_path exists dirs name)

-- `filein`, `fileout`, `ispipe`, and the texts that go with them, which are kept from one part of a
-- line to the next; the pipe that each of the two descriptors in `mypipe` is an end of, if it is open;
-- and how many parts have come to their `fork`
pub record Flags : Type 0 where
  pub filein : Bool
  pub fileout : Bool
  pub ispipe : Bool
  pub infile : Option (List ℕ)
  pub outfile : Option (List ℕ)
  pub second : Option (List ℕ)
  pub readable : Option ℕ
  pub writable : Option ℕ
  pub jobs : ℕ

-- whether `pipe` and the two calls of `fork` succeed
pub record Calls : Type 0 where
  pub piped : Bool
  pub first : Bool
  pub second : Bool

-- `lineBuf` after a cut: NULL goes into `strstr` or `strtok`
abbrev pub cut_off : Flags → Option (List ℕ) → Run (Flags × List ℕ)
cut_off f none = crash
cut_off f (some s) = done (f, s)

-- `if (strstr(lineBuf, " > "))`
abbrev pub cut_output : Flags → List ℕ → Run (Flags × List ℕ)
cut_output f s =
    let (first, rest) = strtok (ascii " > ") s in
    if contains (ascii " > ") s
    then cut_off (record f { filein = true; infile = (strtok (ascii " > ") rest).0 }) first
    else done (f, s)

-- `if (strstr(lineBuf, " < "))`
abbrev pub cut_input : Flags → List ℕ → Run (Flags × List ℕ)
cut_input f s =
    let (first, rest) = strtok (ascii " < ") s in
    if contains (ascii " < ") s
    then cut_off (record f { fileout = true; outfile = (strtok (ascii " < ") rest).0 }) first
    else done (f, s)

-- `pipe(mypipe)`: a pipe with the number of the job; where it fails the array is as it was
abbrev pub make_pipe : Calls → Flags → Flags
make_pipe c f = if c.piped then record f { readable = some f.jobs; writable = some f.jobs } else f

-- `if (strstr(lineBuf, "|"))`
abbrev pub cut_pipe : (ℕ → Calls) → Flags → List ℕ → Run (Flags × List ℕ)
cut_pipe sys f s =
    let (first, rest) = strtok (ascii "|") s in
    let text = (strtok (ascii "|") rest).0 in
    if contains (ascii "|") s
    then cut_off (make_pipe (sys f.jobs) (record f { ispipe = true; second = text })) first
    else done (f, s)

abbrev pub and_then : {A : Type 0} → Run (Flags × List ℕ) → (Flags → List ℕ → Run A) → Run A
and_then crash k = crash
and_then (done (f, s)) k = k f s

-- where a standard stream of a process goes
pub data Stream : Type 0 where
  terminal closed : Stream
  pipe : ℕ → Stream
  file : Option (List ℕ) → Stream

-- a process that is started with `execvp`
pub record Process : Type 0 where
  pub path : List ℕ
  pub argv : List (List ℕ)
  pub input : Stream
  pub output : Stream

-- The second child takes its words apart itself. Without a word its name is NULL, and it runs no program.
pub data Child : Type 0 where
  runs : Process → Child
  dies : Child

-- what a part of a line makes the shell do: the children that are started, and how often it calls `wait`
pub record Job : Type 0 where
  pub first : Option Process
  pub second : Option Child
  pub waits : ℕ

-- `close(1); dup2(mypipe[1], 1)` and the like: a descriptor that is not open leaves the stream closed
abbrev pub end_of : Option ℕ → Stream
end_of none = closed
end_of (some n) = pipe n

-- the order of the two `if` of the first child: a pipe comes last
abbrev pub output_of : Flags → Stream
output_of f = if f.ispipe then end_of f.writable else if f.filein then file f.infile else terminal

abbrev pub input_of : Flags → Stream
input_of f = if f.fileout then file f.outfile else terminal

-- a process, by its words and its path; without a word the name is NULL
abbrev pub with_path : List (List ℕ) → Stream → Stream → Run (List ℕ) → Run Process
with_path argv i o crash = crash
with_path argv i o (done p) = done (record { path = p; argv = argv; input = i; output = o })

abbrev pub start_process :
    (List ℕ → Bool) → List (List ℕ) → Stream → Stream → List (List ℕ) → Run Process
start_process exists dirs i o [] = crash
start_process exists dirs i o (name ∷ args) =
    with_path (name ∷ args) i o (get_full_path exists dirs name)

-- the second child, which reads from what `mypipe[0]` is
abbrev pub second_process : (List ℕ → Bool) → List (List ℕ) → Stream → Option (List ℕ) → Run Process
second_process exists dirs i none = crash
second_process exists dirs i (some s) = start_process exists dirs i terminal (split_cmd s)

abbrev pub child_of : Run Process → Child
child_of crash = dies
child_of (done p) = runs p

abbrev pub second_child : (List ℕ → Bool) → List (List ℕ) → Flags → Child
second_child exists dirs f = child_of (second_process exists dirs (end_of f.readable) f.second)

-- a child, if its `fork` succeeds
abbrev pub forked : {A : Type 0} → Bool → A → Option A
forked ok p = if ok then some p else none

-- `wait`, but not in the background
abbrev pub count_waits : Bool → ℕ → ℕ
count_waits isbkg n = if isbkg then 0 else n

-- a job without and with a second child
abbrev pub one_job : Bool → Calls → Process → Job
one_job isbkg c p = record { first = forked c.first p; second = none; waits = count_waits isbkg 1 }

abbrev pub two_jobs : Bool → Calls → Process → Child → Job
two_jobs isbkg c p q = record {
  first = forked c.first p;
  second = forked c.second q;
  waits = count_waits isbkg 2;
}

-- the two calls of `fork`, by what the first child is to run
abbrev pub fork_with : Bool → Calls → Bool → Child → Run Process → Run Job
fork_with isbkg c ispipe q crash = crash
fork_with isbkg c ispipe q (done p) =
    done (if ispipe then two_jobs isbkg c p q else one_job isbkg c p)

abbrev pub start_job :
    (List ℕ → Bool) → List (List ℕ) → (ℕ → Calls) → Bool → Flags → List (List ℕ) → Run Job
start_job exists dirs sys isbkg f argv =
    fork_with isbkg (sys f.jobs) f.ispipe (second_child exists dirs f)
      (start_process exists dirs (input_of f) (output_of f) argv)

-- the ends that the shell closes: the one to write to, and the other one after `wait`
abbrev pub after_job : Bool → Flags → Flags
after_job isbkg f =
    if f.ispipe
    then record f {
      readable = if isbkg then f.readable else none;
      writable = none;
      jobs = suc f.jobs;
    }
    else record f { jobs = suc f.jobs }
