-- ===== src/Timer/Interrupts.antt =====
-- 实验3/exp3d.c: three timers, each of whose signals prints how many interrupts there were since its
-- last one. The lines of /proc/stat are read by `sscanf`, a parameter; the words fit their arrays.
use linux_kernel_experiment.Prelude.{
  ℕ, suc, List, [], ◌∷◌, ℤ, pos, ◌-ℤ◌, to_int, leb, if◌then◌else◌,
}
use linux_kernel_experiment.Kernel.{Run, done, crash}
use linux_kernel_experiment.Stdio.{all_pieces, equal_texts}
use linux_kernel_experiment.Proc.Walk.{codes}
use linux_kernel_experiment.Timer.Clock.{Itimer}

-- the word and the number that `sscanf(line, "%s%ld", ...)` leaves, by those that were there
abbrev pub Scan : Type 0
Scan = List ℕ → List ℕ × ℕ → List ℕ × ℕ

-- 1.25 milliseconds
abbrev pub report_timer : Itimer
report_timer = record { interval_sec = 0; interval_usec = 1250; value_sec = 0; value_usec = 1250 }

-- the three signals: of the real, the virtual and the profiling timer
pub data Signal : Type 0 where
  sigalrm sigvtalrm sigprof : Signal

-- the variables of one timer: the word, the last count and the new one, each of 32 bits
pub record Watch : Type 0 where
  pub word : List ℕ
  pub stime : ℕ
  pub otime : ℕ

-- the files that are open, and the three timers
pub record Reporter : Type 0 where
  pub files : ℕ
  pub real : Watch
  pub virtual : Watch
  pub prof : Watch

-- `while (fgets(...) != NULL)`, up to the line of "intr"
abbrev pub find_intr : Scan → List (List ℕ) → List ℕ × ℕ → List ℕ × ℕ
find_intr scan [] v = v
find_intr scan (l ∷ more) v =
    let rest = find_intr scan more (scan l v) in
    if equal_texts (scan l v).0 (codes "intr") then scan l v else rest

abbrev pub read_intr : Scan → List ℕ → List ℕ × ℕ → List ℕ × ℕ
read_intr scan stat v = find_intr scan (all_pieces 501 stat) v

-- the number printed, and the timer after it
abbrev pub reported : Watch → List ℕ × ℕ → ℤ × Watch
reported w (word, otime) =
    (to_int (pos otime -ℤ pos w.stime), record { word = word; stime = otime; otime = otime })

-- `sig_real`, `sig_virtual` and `sig_prof`, by the text of /proc/stat. `fopen` gives NULL when `limit`
-- files are open; `close`, which wants a descriptor, closes none of them.
abbrev pub sig_real : Scan → ℕ → List ℕ → Reporter → Run (ℤ × Reporter)
sig_real scan limit stat r =
    let (n, w) = reported r.real (read_intr scan stat (r.real.word, r.real.otime)) in
    if leb limit r.files then crash else done (n, record r { files = suc r.files; real = w })

abbrev pub sig_virtual : Scan → ℕ → List ℕ → Reporter → Run (ℤ × Reporter)
sig_virtual scan limit stat r =
    let (n, w) = reported r.virtual (read_intr scan stat (r.virtual.word, r.virtual.otime)) in
    if leb limit r.files then crash else done (n, record r { files = suc r.files; virtual = w })

abbrev pub sig_prof : Scan → ℕ → List ℕ → Reporter → Run (ℤ × Reporter)
sig_prof scan limit stat r =
    let (n, w) = reported r.prof (read_intr scan stat (r.prof.word, r.prof.otime)) in
    if leb limit r.files then crash else done (n, record r { files = suc r.files; prof = w })

-- the handler of a signal
abbrev pub handle : Scan → ℕ → Signal → List ℕ → Reporter → Run (ℤ × Reporter)
handle scan limit sigalrm stat r = sig_real scan limit stat r
handle scan limit sigvtalrm stat r = sig_virtual scan limit stat r
handle scan limit sigprof stat r = sig_prof scan limit stat r

abbrev unread : Watch
unread = record { word = []; stime = 0; otime = 0 }

-- `main` up to the timers: the first count, which all three timers begin with
abbrev pub begin : Scan → ℕ → List ℕ → Run Reporter
begin scan limit stat =
    let (word, stime) = read_intr scan stat ([], 0) in
    if leb limit 0
    then crash
    else done (record {
      files = 1;
      real = record { word = word; stime = stime; otime = 0 };
      virtual = record unread { stime = stime };
      prof = record unread { stime = stime };
    })

abbrev pub noted :
    Signal → ℤ → Run (List (Signal × ℤ) × Reporter) → Run (List (Signal × ℤ) × Reporter)
noted k n crash = crash
noted k n (done (out, r)) = done ((k, n) ∷ out, r)

-- what the rest of the signals print after the first
abbrev pub then_report :
    Signal
    → (Reporter → Run (List (Signal × ℤ) × Reporter))
    → Run (ℤ × Reporter)
    → Run (List (Signal × ℤ) × Reporter)
then_report k rest crash = crash
then_report k rest (done (n, r)) = noted k n (rest r)

-- the signals as they come, with what /proc/stat then holds, and all that is printed
abbrev pub reports :
    Scan → ℕ → List (Signal × List ℕ) → Reporter → Run (List (Signal × ℤ) × Reporter)
reports scan limit [] r = done ([], r)
reports scan limit ((k, stat) ∷ l) r =
    then_report k (reports scan limit l) (handle scan limit k stat r)
