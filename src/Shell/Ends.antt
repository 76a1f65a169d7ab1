-- ===== src/Shell/Ends.antt =====
-- 实验2/exp2.c: the streams of the processes that a part of a line starts.
use linux_kernel_experiment.Prelude.{
  ℕ, suc, ◌≡◌, refl, ap, sym, subst, ◌∙◌, ◌⊎◌, inl, inr, Bool, true, false, Option, none, some,
  List, [], ◌∷◌, if◌then◌else◌, Bool-cases,
}
use linux_kernel_experiment.Kernel.{Run, done, crash}
use linux_kernel_experiment.Shell.Line.{
  ascii, split_cmd, contains, Flags, Calls, cut_off, cut_output, cut_input, make_pipe, cut_pipe,
  Stream, terminal, closed, pipe, file, Process, Child, runs, dies, Job, end_of, with_path,
  get_full_path, start_process, second_process, child_of, forked, one_job, two_jobs, count_waits,
  after_job,
}

-- a stream that is not a pipe
abbrev pub IsPlain : Stream → Type 0
IsPlain s = (s ≡ terminal) ⊎ ((name : Option (List ℕ)) × (s ≡ file name))

-- a property of a child, which is there exactly if its `fork` succeeds
abbrev pub Each : {A : Type 0} → (A → Type 0) → Bool → Option A → Type 0
Each P true none = ⊥
Each P true (some p) = P p
Each P false none = Unit
Each P false (some p) = ⊥

-- and of the second child, if it runs a program
abbrev pub EachChild : (Process → Type 0) → Bool → Option Child → Type 0
EachChild P ok q = Each (λ (c : Child). elim c [ dies ↦ Unit | runs p ↦ P p ]) ok q

-- how often the shell is to wait for `n` children
abbrev pub wait_calls : (in_background : Bool) → ℕ → ℕ
wait_calls true n = 0
wait_calls false n = n

count_waits-eq : (isbkg : Bool) (n : ℕ) → count_waits isbkg n ≡ wait_calls isbkg n
count_waits-eq true n = refl
count_waits-eq false n = refl

-- one child without a pipe
abbrev pub IsSingle : Bool → Calls → Job → Type 0
IsSingle isbkg c j =
    (j.waits ≡ wait_calls isbkg 1)
    × (j.second ≡ none)
    × Each (λ p. IsPlain p.input × IsPlain p.output) c.first j.first

-- two children with the pipe `n` between them
abbrev pub IsPair : Bool → Calls → ℕ → Job → Type 0
IsPair isbkg c n j =
    (j.waits ≡ wait_calls isbkg 2)
    × Each (λ p. IsPlain p.input × (p.output ≡ pipe n)) c.first j.first
    × EachChild (λ q. (q.input ≡ pipe n) × (q.output ≡ terminal)) c.second j.second

-- two children without a pipe: what the first prints is lost, and the second has nothing to read, or
-- in the background a pipe of before
abbrev pub IsStray : Bool → Calls → Job → Type 0
IsStray isbkg c j =
    (j.waits ≡ wait_calls isbkg 2)
    × Each (λ p. IsPlain p.input × (p.output ≡ closed)) c.first j.first
    × EachChild (λ q. ((isbkg ≡ true) ⊎ (q.input ≡ closed)) × (q.output ≡ terminal)) c.second
        j.second

-- a property of what a run gives, if it gives something
abbrev pub Gives : {A : Type 0} → (A → Type 0) → Run A → Type 0
Gives P crash = Unit
Gives P (done a) = P a

-- a process with these streams
abbrev pub Has : Stream → Stream → Process → Type 0
Has i o p = (p.input ≡ i) × (p.output ≡ o)

with_path-Has :
    (argv : List (List ℕ)) (i o : Stream) (r : Run (List ℕ))
    → Gives (Has i o) (with_path argv i o r)
with_path-Has argv i o crash = tt
with_path-Has argv i o (done p) = (refl, refl)

pub file_or_terminal :
    (b : Bool) (name : Option (List ℕ)) → IsPlain (if b then file name else terminal)
file_or_terminal true name = inr (name, refl)
file_or_terminal false name = inl refl

Each-forked : {A : Type 0} → (P : A → Type 0) (b : Bool) (p : A) → P p → Each P b (forked b p)
Each-forked P true p h = h
Each-forked P false p h = tt

EachChild-forked :
    (P : Process → Type 0) (b : Bool) (r : Run Process)
    → Gives P r
    → EachChild P b (forked b (child_of r))
EachChild-forked P true crash h = tt
EachChild-forked P true (done q) h = h
EachChild-forked P false r h = tt

-- before a part: the shell has no end of a pipe to write to, and none to read from but in the background
abbrev pub IsClear : Bool → ℕ → Flags → Type 0
IsClear isbkg n f = (f.jobs ≡ n) × (f.writable ≡ none) × ((isbkg ≡ true) ⊎ (f.readable ≡ none))

-- and whether the flag is left over
abbrev pub IsBefore : Bool → Bool → ℕ → Flags → Type 0
IsBefore isbkg left n f = IsClear isbkg n f × (f.ispipe ≡ left)

-- after the cuts: the same, or `pipe` failed; or both ends of the job's pipe are open
abbrev pub IsCut : Bool → (ℕ → Calls) → Bool → ℕ → Flags → Type 0
IsCut isbkg sys left n f =
    (IsClear isbkg n f × ((f.ispipe ≡ left) ⊎ ((f.ispipe ≡ true) × ((sys n).piped ≡ false))))
    ⊎ ((f.jobs ≡ n)
        × (f.ispipe ≡ true)
        × (f.writable ≡ some n)
        × (f.readable ≡ some n)
        × ((sys n).piped ≡ true))

end_closed : (isbkg : Bool) (o : Option ℕ) → (isbkg ≡ true) ⊎ ((if isbkg then o else none) ≡ none)
end_closed true o = inl refl
end_closed false o = inr refl

cut_off-Gives :
    (P : Flags → Type 0) (f : Flags) (o : Option (List ℕ)) → P f → Gives (λ x. P x.0) (cut_off f o)
cut_off-Gives P f none h = tt
cut_off-Gives P f (some s) h = h

module _ (isbkg : Bool) (sys : ℕ → Calls) (left : Bool) (n : ℕ) where
  pub cut_output-IsBefore :
      (f : Flags) (s : List ℕ)
      → IsBefore isbkg left n f
      → Gives (λ x. IsBefore isbkg left n x.0) (cut_output f s)
  cut_output-IsBefore f s h = elim (Bool-cases (contains (ascii " > ") s)) [
    | inl there ↦ rw there (cut_off-Gives (IsBefore isbkg left n) _ _ h)
    | inr absent ↦ rw absent h
  ]

  pub cut_input-IsBefore :
      (f : Flags) (s : List ℕ)
      → IsBefore isbkg left n f
      → Gives (λ x. IsBefore isbkg left n x.0) (cut_input f s)
  cut_input-IsBefore f s h = elim (Bool-cases (contains (ascii " < ") s)) [
    | inl there ↦ rw there (cut_off-Gives (IsBefore isbkg left n) _ _ h)
    | inr absent ↦ rw absent h
  ]

  make_pipe-IsCut :
      (f : Flags)
      → f.ispipe ≡ true
      → IsClear isbkg n f
      → IsCut isbkg sys left n (make_pipe (sys f.jobs) f)
  make_pipe-IsCut f e h =
      let same : (sys f.jobs).piped ≡ (sys n).piped = ap (λ i. (sys i).piped) h.0 in
      elim (Bool-cases (sys f.jobs).piped) [
        | inl made ↦ rw made (inr (h.0, e, ap some h.0, ap some h.0, sym same ∙ made))
        | inr failed ↦ rw failed (inl (h, inr (e, sym same ∙ failed)))
      ]

  pub cut_pipe-IsCut :
      (f : Flags) (s : List ℕ)
      → IsBefore isbkg left n f
      → Gives (λ x. IsCut isbkg sys left n x.0) (cut_pipe sys f s)
  cut_pipe-IsCut f s (clear, flag) = elim (Bool-cases (contains (ascii "|") s)) [
    | inl there ↦
        rw there (cut_off-Gives (IsCut isbkg sys left n) _ _ (make_pipe-IsCut _ refl clear))
    | inr absent ↦ rw absent (inl (clear, inl flag))
  ]

  pub after_job-IsBefore :
      (f : Flags) → IsCut isbkg sys left n f → IsBefore isbkg f.ispipe (suc n) (after_job isbkg f)
  after_job-IsBefore f (inl ((jobs, writable, readable), _)) = elim (Bool-cases f.ispipe) [
    | inl piped ↦ rw piped ((ap suc jobs, refl, end_closed isbkg f.readable), refl)
    | inr plain ↦ rw plain ((ap suc jobs, writable, readable), refl)
  ]
  after_job-IsBefore f (inr (jobs, piped, _, _, _)) =
      rw piped ((ap suc jobs, refl, end_closed isbkg f.readable), refl)

module _ (exists : List ℕ → Bool) (dirs : List (List ℕ)) where
  pub start_process-Has :
      (i o : Stream) (argv : List (List ℕ)) → Gives (Has i o) (start_process exists dirs i o argv)
  start_process-Has i o [] = tt
  start_process-Has i o (name ∷ args) =
      with_path-Has (name ∷ args) i o (get_full_path exists dirs name)

  pub second_process-Has :
      (i : Stream) (s : Option (List ℕ)) → Gives (Has i terminal) (second_process exists dirs i s)
  second_process-Has i none = tt
  second_process-Has i (some s) = start_process-Has i terminal (split_cmd s)

  module _ (sys : ℕ → Calls) (isbkg : Bool) where
    pub one_job-IsSingle :
        (c : Calls) (i o : Stream) (p : Process)
        → IsPlain i
        → IsPlain o
        → Has i o p
        → IsSingle isbkg c (one_job isbkg c p)
    one_job-IsSingle c i o p hi ho h = (
      count_waits-eq isbkg 1,
      refl,
      Each-forked _ c.first p (subst IsPlain (sym h.0) hi, subst IsPlain (sym h.1) ho),
    )

    pub two_jobs-IsPair :
        (c : Calls) (n : ℕ) (i : Stream) (p : Process) (r : Run Process)
        → IsPlain i
        → Has i (pipe n) p
        → Gives (Has (pipe n) terminal) r
        → IsPair isbkg c n (two_jobs isbkg c p (child_of r))
    two_jobs-IsPair c n i p r hi h k = (
      count_waits-eq isbkg 2,
      Each-forked _ c.first p (subst IsPlain (sym h.0) hi, h.1),
      EachChild-forked _ c.second r k,
    )

    stray_input :
        (o : Option ℕ) (r : Run Process)
        → (isbkg ≡ true) ⊎ (o ≡ none)
        → Gives (Has (end_of o) terminal) r
        → Gives (λ q. ((isbkg ≡ true) ⊎ (q.input ≡ closed)) × (q.output ≡ terminal)) r
    stray_input o crash e h = tt
    stray_input o (done q) (inl background) h = (inl background, h.1)
    stray_input o (done q) (inr none_left) h = (inr (h.0 ∙ ap end_of none_left), h.1)

    pub two_jobs-IsStray :
        (c : Calls) (o : Option ℕ) (i : Stream) (p : Process) (r : Run Process)
        → (isbkg ≡ true) ⊎ (o ≡ none)
        → IsPlain i
        → Has i closed p
        → Gives (Has (end_of o) terminal) r
        → IsStray isbkg c (two_jobs isbkg c p (child_of r))
    two_jobs-IsStray c o i p r e hi h k = (
      count_waits-eq isbkg 2,
      Each-forked _ c.first p (subst IsPlain (sym h.0) hi, h.1),
      EachChild-forked _ c.second r (stray_input o r e k),
    )
