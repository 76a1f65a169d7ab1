-- ===== src/Shell/Loop.antt =====
-- 实验2/exp2.c: one round of the loop of `main`, for one line.
use linux_kernel_experiment.Prelude.{
  ℕ, ◌+◌, Bool, true, false, ◌&&◌, Option, none, some, List, [], ◌∷◌, ◌++◌, leb, ◌==◌,
  if◌then◌else◌,
}
use linux_kernel_experiment.Kernel.{Run, done, crash}
use linux_kernel_experiment.Shell.Tokens.{strtok}
use linux_kernel_experiment.Shell.Line.{
  ascii, all_tokens, split_cmd, contains, Flags, Calls, cut_output, cut_input, cut_pipe, and_then,
  Process, Job, input_of, output_of, start_process, start_job, after_job,
}

-- what a part of a line does
pub data Action : Type 0 where
  exits : Action
  starts : Job → Action

-- `strcasecmp(s, t) == 0`
abbrev pub lower : ℕ → ℕ
lower c = if leb b'A' c && leb c b'Z' then c + 32 else c

abbrev pub same_word : List ℕ → List ℕ → Bool
same_word [] [] = true
same_word [] (y ∷ t) = false
same_word (x ∷ s) [] = false
same_word (x ∷ s) (y ∷ t) = let rest = same_word s t in (lower x == lower y) && rest

abbrev pub is_exit : List (List ℕ) → Bool
is_exit [] = false
is_exit (name ∷ args) = same_word name (ascii "exit")

abbrev pub begun : Bool → Flags → Run Job → Run (Flags × Action)
begun isbkg f crash = crash
begun isbkg f (done j) = done (after_job isbkg f, starts j)

-- the first child's path is looked up before the test for `exit`
abbrev pub act : Bool → Flags → Bool → Run Process → Run Job → Run (Flags × Action)
act isbkg f true crash r = crash
act isbkg f true (done p) r = done (f, exits)
act isbkg f false p r = begun isbkg f r

-- the jobs that lines start, and the flags and texts afterwards, if the shell goes on
abbrev pub Started : Type 0
Started = List Job × Option Flags

module _ (exists : List ℕ → Bool) (dirs : List (List ℕ)) (sys : ℕ → Calls) (isbkg : Bool) where
  -- the body of the loop over the parts
  unfoldable pub run_part : Flags → List ℕ → Run (Flags × Action)
  run_part f s = and_then (cut_output f s) (λ f1 s1. and_then (cut_input f1 s1) (λ f2 s2.
      and_then (cut_pipe sys f2 s2) (λ f3 s3.
        let argv = split_cmd s3 in
        act isbkg f3 (is_exit argv) (start_process exists dirs (input_of f3) (output_of f3) argv)
          (start_job exists dirs sys isbkg f3 argv))))

  abbrev pub ahead : Job → Run Started → Run Started
  ahead j crash = crash
  ahead j (done (l, on)) = done (j ∷ l, on)

  abbrev pub one_of : (Flags → Run Started) → Run (Flags × Action) → Run Started
  one_of rest crash = crash
  one_of rest (done (f, exits)) = done ([], none)
  one_of rest (done (f, starts j)) = ahead j (rest f)

  unfoldable pub run_parts : Flags → List (List ℕ) → Run Started
  run_parts f [] = done ([], some f)
  run_parts f (s ∷ parts) = one_of (λ f'. run_parts f' parts) (run_part f s)

  -- `lines[0]` is NULL where the line has no part
  abbrev pub some_parts : Flags → List (List ℕ) → Run Started
  some_parts f [] = crash
  some_parts f (s ∷ parts) = run_parts f (s ∷ parts)

-- the flags are cleared for each line, the texts and `mypipe` are not
abbrev pub cleared : Flags → Flags
cleared f = record f { filein = false; fileout = false; ispipe = false }

-- `if (strstr(lineBuf3, "&"))`: what is before the first `&`, which may be NULL
abbrev pub before_amp :
    (List ℕ → Bool) → List (List ℕ) → (ℕ → Calls) → Flags → Option (List ℕ) → Run Started
before_amp exists dirs sys f none = crash
before_amp exists dirs sys f (some s) = some_parts exists dirs sys true f (all_tokens ";" s)

-- one round of the loop of `main`: the jobs that it starts in order, and whether it goes on
unfoldable pub run_line :
    (List ℕ → Bool) → List (List ℕ) → (ℕ → Calls) → Flags → List ℕ → Run Started
run_line exists dirs sys f [] = done ([], some (cleared f))
run_line exists dirs sys f (c ∷ s) =
    let line = c ∷ s in
    if contains (ascii "&") line
    then before_amp exists dirs sys (cleared f) (strtok (ascii "&") line).0
    else some_parts exists dirs sys false (cleared f) (all_tokens ";" line)

-- `strtok(path, ":")` and its loop: the directories of PATH. Without PATH, or without a directory in
-- it, NULL goes into `strtok` or `sprintf`.
abbrev pub some_dirs : List (List ℕ) → Run (List (List ℕ))
some_dirs [] = crash
some_dirs (d ∷ more) = done (d ∷ more)

abbrev pub path_dirs : Option (List ℕ) → Run (List (List ℕ))
path_dirs none = crash
path_dirs (some path) = some_dirs (all_tokens ":" path)

abbrev pub behind : List Job → Run Started → Run Started
behind jobs crash = crash
behind jobs (done (more, on)) = done (jobs ++ more, on)

abbrev pub then_lines : Run Started → (Flags → Run Started) → Run Started
then_lines crash rest = crash
then_lines (done (jobs, none)) rest = done (jobs, none)
then_lines (done (jobs, some f)) rest = behind jobs (rest f)

-- `while (1)`, for the lines that are typed
abbrev pub run_lines :
    (List ℕ → Bool) → List (List ℕ) → (ℕ → Calls) → Flags → List (List ℕ) → Run Started
run_lines exists dirs sys f [] = done ([], some f)
run_lines exists dirs sys f (line ∷ lines) =
    then_lines (run_line exists dirs sys f line) (λ f'. run_lines exists dirs sys f' lines)

abbrev pub shell_with :
    (List ℕ → Bool) → (ℕ → Calls) → Flags → List (List ℕ) → Run (List (List ℕ)) → Run Started
shell_with exists sys f lines crash = crash
shell_with exists sys f lines (done dirs) = run_lines exists dirs sys f lines

-- `main`, by PATH and the lines: the jobs in order, and whether the shell still runs
abbrev pub shell :
    (List ℕ → Bool) → (ℕ → Calls) → Flags → Option (List ℕ) → List (List ℕ) → Run Started
shell exists sys f path lines = shell_with exists sys f lines (path_dirs path)
