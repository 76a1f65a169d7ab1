-- ===== src/Timer/Reports.antt =====
-- 实验3/exp3d.c: what the reports add up to, and where they end.
use linux_kernel_experiment.Prelude.{
  ℕ, suc, ◌+◌, ◌-◌, ◌^◌, ◌≤◌, ◌<◌, ◌≡◌, refl, ap, ◌∙◌, Bool, true, false, List, [], ◌∷◌, ℤ, pos,
  pos_part, ◌-ℤ◌, to_int, to_int-pos, sub-pos, leb, if◌then◌else◌, length, arith, Bool-cases,
  lt→leb, le→leb, inl, inr,
}
use linux_kernel_experiment.Kernel.{done, crash}
use linux_kernel_experiment.Timer.Interrupts.{
  Scan, Signal, sigalrm, sigvtalrm, sigprof, Watch, Reporter, read_intr, reported, handle, noted,
  then_report, reports,
}

-- the timer of a signal
abbrev pub watch : Signal → Reporter → Watch
watch sigalrm r = r.real
watch sigvtalrm r = r.virtual
watch sigprof r = r.prof

abbrev pub same_signal : Signal → Signal → Bool
same_signal sigalrm sigalrm = true
same_signal sigvtalrm sigvtalrm = true
same_signal sigprof sigprof = true
same_signal _ _ = false

-- what the reports of one signal add up to
abbrev pub total : Signal → List (Signal × ℤ) → ℕ
total k [] = 0
total k ((j, n) ∷ out) =
    let rest = total k out in if same_signal k j then pos_part n + rest else rest

-- `stat` has the count `n`, whatever was read before
abbrev pub IsCounted : Scan → List ℕ → ℕ → Type 0
IsCounted scan stat n = (v : List ℕ × ℕ) → (read_intr scan stat v).1 ≡ n

-- the counts that the handlers find, from `m` on, never fall, and stay below 2 ^ 31
abbrev pub Rising : Scan → ℕ → List (Signal × List ℕ) → Type 0
Rising scan m [] = Unit
Rising scan m ((k, stat) ∷ l) =
    (n : ℕ) × IsCounted scan stat n × (m ≤ n) × (n < 2 ^ 31) × Rising scan n l

-- every timer's last count is at most `m`
abbrev pub IsUpTo : ℕ → Reporter → Type 0
IsUpTo m r = (k : Signal) → (watch k r).stime ≤ m

difference : (a b : ℕ) → b ≤ a → a < 2 ^ 31 → to_int (pos a -ℤ pos b) ≡ pos (a - b)
difference a b h small = ap to_int (sub-pos a b h) ∙ to_int-pos (a - b) (omega arith)

-- a timer after a report: the count that it found is its last one
abbrev next_watch : Scan → List ℕ → Watch → Watch
next_watch scan stat w = (reported w (read_intr scan stat (w.word, w.otime))).1

abbrev next : Scan → List ℕ → Signal → Reporter → Reporter
next scan stat sigalrm r = record r { files = suc r.files; real = next_watch scan stat r.real }
next scan stat sigvtalrm r = record r {
  files = suc r.files;
  virtual = next_watch scan stat r.virtual;
}
next scan stat sigprof r = record r { files = suc r.files; prof = next_watch scan stat r.prof }

-- the number that a report prints
abbrev said : Scan → List ℕ → Signal → Reporter → ℤ
said scan stat k r = let w = watch k r in (reported w (read_intr scan stat (w.word, w.otime))).0

handle_runs :
    (scan : Scan) (limit : ℕ) (k : Signal) (stat : List ℕ) (r : Reporter)
    → r.files < limit
    → handle scan limit k stat r ≡ done (said scan stat k r, next scan stat k r)
handle_runs scan limit sigalrm stat r h = rw (lt→leb limit r.files h) refl
handle_runs scan limit sigvtalrm stat r h = rw (lt→leb limit r.files h) refl
handle_runs scan limit sigprof stat r h = rw (lt→leb limit r.files h) refl

handle_crash :
    (scan : Scan) (limit : ℕ) (k : Signal) (stat : List ℕ) (r : Reporter)
    → limit ≤ r.files
    → handle scan limit k stat r ≡ crash
handle_crash scan limit sigalrm stat r h = rw (le→leb limit r.files h) refl
handle_crash scan limit sigvtalrm stat r h = rw (le→leb limit r.files h) refl
handle_crash scan limit sigprof stat r h = rw (le→leb limit r.files h) refl

next_files :
    (scan : Scan) (stat : List ℕ) (k : Signal) (r : Reporter)
    → (next scan stat k r).files ≡ suc r.files
next_files scan stat sigalrm r = refl
next_files scan stat sigvtalrm r = refl
next_files scan stat sigprof r = refl

-- Each report leaves a file open: where the signals are more than the files that may still be opened,
-- the program crashes.
pub reports_crash :
    (scan : Scan) (limit : ℕ) (l : List (Signal × List ℕ)) (r : Reporter)
    → r.files ≤ limit
    → limit < r.files + length l
    → reports scan limit l r ≡ crash
reports_crash scan limit [] r h e = absurd (omega arith)
reports_crash scan limit ((k, stat) ∷ l) r h e = elim (Bool-cases (leb limit r.files)) [
  | inl full ↦
      ap (then_report k (reports scan limit l))
        (handle_crash scan limit k stat r (ground (arith, full)))
  | inr room ↦
      ap (then_report k (reports scan limit l))
        (handle_runs scan limit k stat r (ground (arith, room)))
      ∙ ap (noted k (said scan stat k r)) (
          reports_crash scan limit l (next scan stat k r)
            (ground (arith, next_files scan stat k r, room))
            (omega (arith, next_files scan stat k r)))
]

module _ (scan : Scan) where
  -- the last counts after a report of `k`
  next_stime :
      (stat : List ℕ) (n : ℕ) (j k : Signal) (r : Reporter)
      → IsCounted scan stat n
      → (watch j (next scan stat k r)).stime ≡ (if same_signal j k then n else (watch j r).stime)
  next_stime stat n sigalrm sigalrm r h = h (r.real.word, r.real.otime)
  next_stime stat n sigalrm sigvtalrm r h = refl
  next_stime stat n sigalrm sigprof r h = refl
  next_stime stat n sigvtalrm sigalrm r h = refl
  next_stime stat n sigvtalrm sigvtalrm r h = h (r.virtual.word, r.virtual.otime)
  next_stime stat n sigvtalrm sigprof r h = refl
  next_stime stat n sigprof sigalrm r h = refl
  next_stime stat n sigprof sigvtalrm r h = refl
  next_stime stat n sigprof sigprof r h = h (r.prof.word, r.prof.otime)

  said_count :
      (stat : List ℕ) (n : ℕ) (k : Signal) (r : Reporter)
      → IsCounted scan stat n
      → (watch k r).stime ≤ n
      → n < 2 ^ 31
      → said scan stat k r ≡ pos (n - (watch k r).stime)
  said_count stat n k r h up small =
      ap (λ c. to_int (pos c -ℤ pos (watch k r).stime)) (h ((watch k r).word, (watch k r).otime))
      ∙ difference n (watch k r).stime up small

  same_watch :
      (j k : Signal) (r : Reporter) → same_signal j k ≡ true → (watch j r).stime ≡ (watch k r).stime
  same_watch sigalrm sigalrm r h = refl
  same_watch sigalrm sigvtalrm r h = absurd (cc)
  same_watch sigalrm sigprof r h = absurd (cc)
  same_watch sigvtalrm sigalrm r h = absurd (cc)
  same_watch sigvtalrm sigvtalrm r h = refl
  same_watch sigvtalrm sigprof r h = absurd (cc)
  same_watch sigprof sigalrm r h = absurd (cc)
  same_watch sigprof sigvtalrm r h = absurd (cc)
  same_watch sigprof sigprof r h = refl

  -- one report more in the total of the signal `j`
  total_step :
      (stat : List ℕ) (n : ℕ) (j k : Signal) (r : Reporter) (out : List (Signal × ℤ)) (last : ℕ)
      → IsCounted scan stat n
      → (watch k r).stime ≤ n
      → n < 2 ^ 31
      → (watch j (next scan stat k r)).stime + total j out ≡ last
      → (watch j r).stime + total j ((k, said scan stat k r) ∷ out) ≡ last
  total_step stat n j k r out last h up small e =
      let at = next_stime stat n j k r h in
      let count = ap pos_part (said_count stat n k r h up small) in
      elim (Bool-cases (same_signal j k)) [
        | inl same ↦
            let eq = same_watch j k r same in
            let here : (watch j (next scan stat k r)).stime ≡ n =
              at ∙ ap (λ b. if b then n else (watch j r).stime) same in
            rw same (omega (arith, eq, here, count, e, up))
        | inr other ↦
            let here : (watch j (next scan stat k r)).stime ≡ (watch j r).stime =
              at ∙ ap (λ b. if b then n else (watch j r).stime) other in
            rw other (omega (arith, here, e))
      ]

  next_up :
      (stat : List ℕ) (m n : ℕ) (k : Signal) (r : Reporter)
      → IsCounted scan stat n
      → m ≤ n
      → IsUpTo m r
      → IsUpTo n (next scan stat k r)
  next_up stat m n k r h le up j =
      let at = next_stime stat n j k r h in let before = up j in ground (arith, at, before)

  -- Where the counts in /proc/stat never fall and stay below 2 ^ 31, each timer's last count is no
  -- more than the first of them, and a file may be opened for each signal: the reports run, and for
  -- each timer the printed numbers add up from its last count before to the one after.
  pub reports-total :
      (limit m : ℕ) (l : List (Signal × List ℕ)) (r : Reporter)
      → IsUpTo m r
      → Rising scan m l
      → r.files + length l ≤ limit
      → (out : List (Signal × ℤ)) × (r' : Reporter) × (reports scan limit l r ≡ done (out, r'))
        × ((j : Signal) → (watch j r).stime + total j out ≡ (watch j r').stime)
  reports-total limit m [] r up rising room = ([], r, refl, λ j. omega arith)
  reports-total limit m ((k, stat) ∷ l) r up rising room =
      let (n, counted, le, small, more) = rising in
      let (out, r', runs, sums) =
        reports-total limit n l (next scan stat k r) (next_up stat m n k r counted le up) more
          (omega (arith, next_files scan stat k r)) in
      (
        (k, said scan stat k r) ∷ out,
        r',
        ap (then_report k (reports scan limit l)) (handle_runs scan limit k stat r (omega arith))
            ∙ ap (noted k (said scan stat k r)) runs,
        λ j.
            total_step stat n j k r out (watch j r').stime counted (omega (arith, up k)) small
              (sums j),
      )
