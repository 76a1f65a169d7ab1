-- ===== src/Tests/Shell.antt =====
-- Lines for the shell.
use linux_kernel_experiment.Prelude.{
  ℕ, ◌≡◌, refl, Bool, true, false, none, some, List, [], ◌∷◌, arith,
}
use linux_kernel_experiment.Kernel.{done, crash}
use linux_kernel_experiment.Shell.Tokens.{strtok, tokens}
use linux_kernel_experiment.Shell.Line.{
  ascii, get_full_path, Flags, Calls, Process, Job, runs, dies, terminal, pipe, file,
}
use linux_kernel_experiment.Shell.Loop.{run_part, run_parts, run_line, shell}
use linux_kernel_experiment.Shell.Words.{tokens-words}

tokens-words_example : tokens 9 (ascii " ") (ascii " ls  -l ") ≡ ascii "ls" ∷ ascii "-l" ∷ []
tokens-words_example = tokens-words 9 (ascii " ") (ascii " ls  -l ") (omega arith)

abbrev pub no_flags : Flags
no_flags = record {
  filein = false;
  fileout = false;
  ispipe = false;
  infile = none;
  outfile = none;
  second = none;
  readable = none;
  writable = none;
  jobs = 0;
}

abbrev pub all_succeed : ℕ → Calls
all_succeed n = record { piped = true; first = true; second = true }

abbrev no_children : ℕ → Calls
no_children n = record { piped = true; first = false; second = false }

-- the programs are in /bin
abbrev pub dirs : List (List ℕ)
dirs = ascii "/bin" ∷ []

abbrev pub any_file : List ℕ → Bool
any_file p = true

abbrev ls : Process
ls = record { path = ascii "/bin/ls"; argv = ascii "ls" ∷ []; input = terminal; output = pipe 0 }

abbrev wc : Process
wc = record { path = ascii "/bin/wc"; argv = ascii "wc" ∷ []; input = pipe 0; output = terminal }

-- the flags after `ls|wc`
abbrev piped_flags : Flags
piped_flags = record no_flags { ispipe = true; second = some (ascii "wc"); jobs = 1 }

abbrev ls_wc : ℕ → Job
ls_wc waits = record { first = some ls; second = some (runs wc); waits = waits }

-- two programs and a pipe
two_programs :
    run_line any_file dirs all_succeed no_flags (ascii "ls|wc")
    ≡ done (ls_wc 2 ∷ [], some piped_flags)
unfolding run_line run_parts run_part strtok tokens get_full_path
two_programs = refl

-- without processes to start, the shell waits all the same
no_processes :
    run_line any_file dirs no_children no_flags (ascii "ls|wc")
    ≡ done (record { first = none; second = none; waits = 2 } ∷ [], some piped_flags)
unfolding run_line run_parts run_part strtok tokens get_full_path
no_processes = refl

-- the second child has no words, and dies of it
nothing_behind_the_pipe :
    run_line any_file dirs all_succeed no_flags (ascii "ls|")
    ≡ done (
      record { first = some ls; second = some dies; waits = 2 } ∷ [],
      some (record piped_flags { second = none }),
    )
unfolding run_line run_parts run_part strtok tokens get_full_path
nothing_behind_the_pipe = refl

-- the output goes to a file with the name of the option, and the option is lost
lost_option :
    run_line any_file dirs all_succeed no_flags (ascii "ls -l > out")
    ≡ done (
      record {
        first = some (record ls { output = file (some (ascii "-l")) });
        second = none;
        waits = 1;
      }
          ∷ [],
      some (record no_flags { filein = true; infile = some (ascii "-l"); jobs = 1 }),
    )
unfolding run_line run_parts run_part strtok tokens get_full_path
lost_option = refl

-- a line of blanks has no word
blank_line : run_line any_file dirs all_succeed no_flags (ascii "  ") ≡ crash
unfolding run_line run_parts run_part strtok tokens get_full_path
blank_line = refl

leaves_shell : run_line any_file dirs all_succeed no_flags (ascii "Exit;ls") ≡ done ([], none)
unfolding run_line run_parts run_part strtok tokens get_full_path
leaves_shell = refl

-- two lines, the first in the background, and the way out
a_session :
    shell any_file all_succeed no_flags
      (some (ascii "/bin:/usr/bin"))
      (ascii "ls|wc&" ∷ ascii "exit" ∷ [])
    ≡ done (ls_wc 0 ∷ [], none)
unfolding run_line run_parts run_part strtok tokens get_full_path
a_session = refl
