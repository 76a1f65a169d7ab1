-- ===== src/Shell/Jobs.antt =====
-- 实验2/exp2.c: how the processes of a line are joined, and how many the shell waits for.
use linux_kernel_experiment.Prelude.{ℕ, suc, ◌≡◌, ◌||◌, ◌⊎◌, Bool, true, false, List, [], ◌∷◌}
use linux_kernel_experiment.Shell.Line.{Flags, Calls, Job}
use linux_kernel_experiment.Shell.Loop.{Action, exits, starts, Started}
use linux_kernel_experiment.Shell.Parts.{asks_pipe, parts_of}
use linux_kernel_experiment.Shell.Ends.{IsSingle, IsPair, IsStray, IsBefore}

-- the job of number `n`, by the flag `ispipe` before and after its part: without the flag there is one
-- child; with it there are two, with a pipe if `pipe` was called and succeeded, and without one if it
-- failed, or if the flag is left over
abbrev pub IsJoined : Bool → (ℕ → Calls) → (before after : Bool) → ℕ → Job → Type 0
IsJoined isbkg sys before after n j =
    ((before ≡ false) × (after ≡ false) × IsSingle isbkg (sys n) j)
    ⊎ ((after ≡ true) × ((sys n).piped ≡ true) × IsPair isbkg (sys n) n j)
    ⊎ ((after ≡ true) × ((before ≡ true) ⊎ ((sys n).piped ≡ false)) × IsStray isbkg (sys n) j)

-- the jobs of some parts of a line, whose numbers begin with `n`; the flag is set by a part that asks for
-- a pipe
abbrev pub AreJoined : Bool → (ℕ → Calls) → Bool → ℕ → List (List ℕ) → List Job → Type 0
AreJoined isbkg sys before n parts [] = Unit
AreJoined isbkg sys before n [] (j ∷ l) = ⊥
AreJoined isbkg sys before n (s ∷ parts) (j ∷ l) =
    IsJoined isbkg sys before (before || asks_pipe s) n j
    × AreJoined isbkg sys (before || asks_pipe s) (suc n) parts l

module _ (exists : List ℕ → Bool) (dirs : List (List ℕ)) (sys : ℕ → Calls) where
  module _ (isbkg : Bool) where
    -- an action that leaves the shell, or starts the job `n` and leaves the descriptors as they should be
    abbrev IsGood : Bool → ℕ → Flags × Action → Type 0
    IsGood before n (f, exits) = Unit
    IsGood before n (f, starts j) =
        (after : Bool) × IsJoined isbkg sys before after n j × IsBefore isbkg after (suc n) f

    abbrev AllJoined : Bool → ℕ → List (List ℕ) → Started → Type 0
    AllJoined before n parts x = AreJoined isbkg sys before n parts x.0

  -- the jobs of a line, which runs in the background or not
  abbrev OfLine : Flags → List ℕ → Bool → Started → Type 0
  OfLine f line isbkg = AllJoined isbkg false f.jobs (parts_of isbkg line)
