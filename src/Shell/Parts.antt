-- ===== src/Shell/Parts.antt =====
-- 实验2/exp2.c: which parts of a line ask for a pipe, by the text alone.
use Prim.Native.String.{String}
use linux_kernel_experiment.Prelude.{
  ℕ, ◌≡◌, refl, sym, ap, ◌∙◌, Bool, true, false, ◌||◌, Option, none, some, List, [], inl, inr,
  if◌then◌else◌, Bool-cases,
}
use linux_kernel_experiment.Kernel.{Run, done, crash}
use linux_kernel_experiment.Shell.Tokens.{strtok}
use linux_kernel_experiment.Shell.Line.{
  ascii, all_tokens, split_cmd, contains, Flags, Calls, cut_off, cut_output, cut_input, make_pipe,
  cut_pipe, and_then, Process, Job, input_of, output_of, start_process, start_job, after_job,
}
use linux_kernel_experiment.Shell.Loop.{Action, is_exit, act, run_part}
use linux_kernel_experiment.Shell.Ends.{Gives}

-- the text before a mark, or all of it
abbrev pub cut_at : String → List ℕ → Option (List ℕ)
cut_at mark s = if contains (ascii mark) s then (strtok (ascii mark) s).0 else some s

-- whether what is left of a part before its redirections has a `|`
abbrev pub asks_left : Option (List ℕ) → Bool
asks_left none = false
asks_left (some s) = contains (ascii "|") s

abbrev pub asks_before : Option (List ℕ) → Bool
asks_before none = false
asks_before (some s) = asks_left (cut_at " < " s)

abbrev pub asks_pipe : List ℕ → Bool
asks_pipe s = asks_before (cut_at " > " s)

-- the parts of a line, of which a `&` takes all that follows it
abbrev pub parts_of : Bool → List ℕ → List (List ℕ)
parts_of true line = elim (strtok (ascii "&") line).0 [ none ↦ [] | some s ↦ all_tokens ";" s ]
parts_of false line = all_tokens ";" line

-- the flag is kept, and the text is what a cut leaves
abbrev Keeps : Flags → Option (List ℕ) → Flags × List ℕ → Type 0
Keeps f o x = (x.0.ispipe ≡ f.ispipe) × (o ≡ some x.1)

cut_off-Keeps :
    (f g : Flags) (o : Option (List ℕ)) → g.ispipe ≡ f.ispipe → Gives (Keeps f o) (cut_off g o)
cut_off-Keeps f g none e = tt
cut_off-Keeps f g (some s) e = (e, refl)

cut_output-Keeps : (f : Flags) (s : List ℕ) → Gives (Keeps f (cut_at " > " s)) (cut_output f s)
cut_output-Keeps f s = elim (Bool-cases (contains (ascii " > ") s)) [
  | inl there ↦ rw there (cut_off-Keeps f _ _ refl)
  | inr absent ↦ rw absent (refl, refl)
]

cut_input-Keeps : (f : Flags) (s : List ℕ) → Gives (Keeps f (cut_at " < " s)) (cut_input f s)
cut_input-Keeps f s = elim (Bool-cases (contains (ascii " < ") s)) [
  | inl there ↦ rw there (cut_off-Keeps f _ _ refl)
  | inr absent ↦ rw absent (refl, refl)
]

cut_off-ispipe :
    (f : Flags) (b : Bool) (o : Option (List ℕ))
    → f.ispipe ≡ b
    → Gives (λ x. x.0.ispipe ≡ b) (cut_off f o)
cut_off-ispipe f b none e = tt
cut_off-ispipe f b (some s) e = e

make_pipe-ispipe : (c : Calls) (f : Flags) → (make_pipe c f).ispipe ≡ f.ispipe
make_pipe-ispipe c f = elim (Bool-cases c.piped) [
  | inl made ↦ rw made refl
  | inr failed ↦ rw failed refl
]

or-true : (b : Bool) → true ≡ (b || true)
or-true true = refl
or-true false = refl

or-false : (b : Bool) → b ≡ (b || false)
or-false true = refl
or-false false = refl

cut_pipe-ispipe :
    (sys : ℕ → Calls) (f : Flags) (s : List ℕ)
    → Gives (λ x. x.0.ispipe ≡ (f.ispipe || contains (ascii "|") s)) (cut_pipe sys f s)
cut_pipe-ispipe sys f s = elim (Bool-cases (contains (ascii "|") s)) [
  | inl there ↦ rw there (cut_off-ispipe _ _ _ (make_pipe-ispipe (sys f.jobs) _ ∙ or-true f.ispipe))
  | inr absent ↦ rw absent (or-false f.ispipe)
]

after_job-ispipe : (isbkg : Bool) (f : Flags) → (after_job isbkg f).ispipe ≡ f.ispipe
after_job-ispipe isbkg f = elim (Bool-cases f.ispipe) [
  | inl piped ↦ rw piped refl
  | inr plain ↦ rw plain refl
]

act-ispipe :
    (isbkg : Bool) (f : Flags) (b : Bool) (p : Run Process) (r : Run Job)
    → Gives (λ x. x.0.ispipe ≡ f.ispipe) (act isbkg f b p r)
act-ispipe isbkg f true crash r = tt
act-ispipe isbkg f true (done p) r = refl
act-ispipe isbkg f false p crash = tt
act-ispipe isbkg f false p (done j) = after_job-ispipe isbkg f

pub and_then-Gives :
    (Q : Flags × Action → Type 0) (P : Flags × List ℕ → Type 0) (x : Run (Flags × List ℕ))
    (k : Flags → List ℕ → Run (Flags × Action))
    → Gives P x
    → ((f : Flags) (s : List ℕ) → P (f, s) → Gives Q (k f s))
    → Gives Q (and_then x k)
and_then-Gives Q P crash k h g = tt
and_then-Gives Q P (done (f, s)) k h g = g f s h

Gives-ap :
    (x : Run (Flags × Action)) (b c : Bool)
    → b ≡ c
    → Gives (λ y. y.0.ispipe ≡ b) x
    → Gives (λ y. y.0.ispipe ≡ c) x
Gives-ap crash b c e h = tt
Gives-ap (done y) b c e h = h ∙ e

-- a part leaves the flag set if it was or if the part asks for a pipe
pub run_part-ispipe :
    (exists : List ℕ → Bool) (dirs : List (List ℕ)) (sys : ℕ → Calls) (isbkg : Bool) (f : Flags)
    (s : List ℕ)
    → Gives (λ x. x.0.ispipe ≡ (f.ispipe || asks_pipe s)) (run_part exists dirs sys isbkg f s)
unfolding run_part
run_part-ispipe exists dirs sys isbkg f s =
    let Q : Flags × Action → Type 0 = λ x. x.0.ispipe ≡ (f.ispipe || asks_pipe s) in
    and_then-Gives Q (Keeps f (cut_at " > " s)) (cut_output f s) _ (cut_output-Keeps f s)
      λ f1 s1 h1.
        and_then-Gives Q (Keeps f1 (cut_at " < " s1)) (cut_input f1 s1) _ (cut_input-Keeps f1 s1)
          λ f2 s2 h2.
            and_then-Gives Q (λ x. x.0.ispipe ≡ (f2.ispipe || contains (ascii "|") s2))
              (cut_pipe sys f2 s2) _ (cut_pipe-ispipe sys f2 s2)
              λ f3 s3 h3.
                let asked : asks_pipe s ≡ contains (ascii "|") s2 =
                  ap asks_before h1.1 ∙ ap asks_left h2.1 in
                Gives-ap _ _ _
                  (h3
                    ∙ ap (λ b. b || contains (ascii "|") s2) (h2.0 ∙ h1.0)
                    ∙ ap (λ b. f.ispipe || b) (sym asked))
                  (act-ispipe isbkg f3 (is_exit (split_cmd s3))
                    (start_process exists dirs (input_of f3) (output_of f3) (split_cmd s3))
                    (start_job exists dirs sys isbkg f3 (split_cmd s3)))
