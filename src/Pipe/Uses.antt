-- ===== src/Pipe/Uses.antt =====
-- 实验7/scull/pipe.c: files that come and go, in any order.
use linux_kernel_experiment.Prelude.{
  ℕ, zero, suc, ◌+◌, ◌^◌, ◌<◌, ◌≤◌, ◌≡◌, ap, sym, subst, ◌∙◌, inl, inr, Bool, true, false, Option,
  none, some, List, [], ◌∷◌, All, length, get_elem?, arith, All-get, Option-cases,
}
use linux_kernel_experiment.Kernel.{Kernel, Memory, Reply, count, error}
use linux_kernel_experiment.Scull.Device.{Params}
use linux_kernel_experiment.Pipe.Ring.{Pipe, File}
use linux_kernel_experiment.Pipe.Files.{p_open, p_release, p_fasync}
use linux_kernel_experiment.Pipe.Opens.{one_if, IsHeld, IsUsed, p_open-IsHeld, p_release-IsHeld}

-- an open of a new file, with the parameters of the moment, the release of one of the open files, or a
-- change of the files that are to be notified
pub data Use : Type 0 where
  opens : Kernel → Params → File → (interrupted : Bool) → Use
  releases : (forget : List ℕ → List ℕ) → ℕ → Use
  notifies : (helper : List ℕ → List ℕ × Reply) → Use

-- the device, the account with the allocator, and the open files
pub record Opened : Type 0 where
  pub pipe : Pipe
  pub memory : Memory
  pub files : List File

abbrev pub remove_at : ℕ → List File → List File
remove_at i [] = []
remove_at zero (f ∷ fs) = fs
remove_at (suc i) (f ∷ fs) = f ∷ remove_at i fs

-- a file is open where the reply says so
abbrev pub after_open : File → List File → Pipe × Memory × Reply → Opened
after_open f fs (p, m, count n) = record { pipe = p; memory = m; files = f ∷ fs }
after_open f fs (p, m, error e) = record { pipe = p; memory = m; files = fs }

abbrev pub after_release : List File → Pipe × Memory × Reply → Opened
after_release fs (p, m, r) = record { pipe = p; memory = m; files = fs }

abbrev pub release_at : (List ℕ → List ℕ) → ℕ → Opened → Option File → Opened
release_at forget i o none = o
release_at forget i o (some f) =
    after_release (remove_at i o.files) (p_release forget f o.pipe o.memory)

-- one call, by the table of operations
abbrev pub use_once : Use → Opened → Opened
use_once (opens k g f interrupted) o =
    after_open f o.files (p_open k g f interrupted o.pipe o.memory)
use_once (releases forget i) o = release_at forget i o (get_elem? o.files i)
use_once (notifies helper) o = record o { pipe = (p_fasync helper o.pipe).0 }

abbrev pub use_all : List Use → Opened → Opened
use_all [] o = o
use_all (u ∷ us) o = use_all us (use_once u o)

abbrev pub readers : List File → ℕ
readers [] = 0
readers (f ∷ fs) = readers fs + one_if f.for_read

abbrev pub writers : List File → ℕ
writers [] = 0
writers (f ∷ fs) = writers fs + one_if f.for_write

-- the counts are those of the open files, and the buffer is held exactly while there are any
pub record IsRight (o : Opened) : Type 0 where
  pub held : IsHeld (readers o.files) (writers o.files) o.pipe o.memory
  pub used : All IsUsed o.files

-- a file is open for something
abbrev pub IsUse : Use → Type 0
IsUse (opens k g f interrupted) = IsUsed f
IsUse (releases forget i) = Unit
IsUse (notifies helper) = Unit

few_readers : (fs : List File) → readers fs ≤ length fs
few_readers [] = omega arith
few_readers (f ∷ fs) = ground (arith, few_readers fs)

few_writers : (fs : List File) → writers fs ≤ length fs
few_writers [] = omega arith
few_writers (f ∷ fs) = ground (arith, few_writers fs)

file_inj : (f h : File) → some f ≡ some h → f ≡ h
file_inj f h e = cc

-- the counts without one of the files
removed :
    (i : ℕ) (fs : List File) (f : File)
    → get_elem? fs i ≡ some f
    → (readers fs ≡ readers (remove_at i fs) + one_if f.for_read)
      × (writers fs ≡ writers (remove_at i fs) + one_if f.for_write)
removed i [] f e = absurd (cc)
removed zero (x ∷ fs) f e =
    let same = file_inj x f e in
    (ap (λ y. readers fs + one_if y.for_read) same, ap (λ y. writers fs + one_if y.for_write) same)
removed (suc i) (x ∷ fs) f e = let (r, w) = removed i fs f e in (omega (arith, r), omega (arith, w))

removed_used : (i : ℕ) (fs : List File) → All IsUsed fs → All IsUsed (remove_at i fs)
removed_used i [] h = tt
removed_used zero (f ∷ fs) h = h.1
removed_used (suc i) (f ∷ fs) h = (h.0, removed_used i fs h.1)

removed_length : (i : ℕ) (fs : List File) → length (remove_at i fs) ≤ length fs
removed_length i [] = omega arith
removed_length zero (f ∷ fs) = omega arith
removed_length (suc i) (f ∷ fs) = omega (arith, removed_length i fs)

-- the device after a call is right, with at most one file more
abbrev Next : Opened → Opened → Type 0
Next o o' = IsRight o' × (length o'.files ≤ suc (length o.files))

open_right :
    (k : Kernel) (g : Params) (f : File) (interrupted : Bool) (o : Opened)
    → IsRight o
    → IsUsed f
    → length o.files < 2 ^ 30
    → Next o (use_once (opens k g f interrupted) o)
unfolding p_open
open_right k g f true o h used few = (record { held = h.held; used = h.used }, omega arith)
open_right k g f false o h used few =
    let (p', m', outcome) =
      p_open-IsHeld g f used (readers o.files) (writers o.files)
        (omega (arith, few_readers o.files)) (omega (arith, few_writers o.files)) k o.pipe o.memory
        h.held in
    elim outcome [
      | inl (run, same, held) ↦
          subst (Next o) (ap (after_open f o.files) (sym run))
            (record { held = held; used = h.used }, omega arith)
      | inr (run, held) ↦
          subst (Next o) (ap (after_open f o.files) (sym run))
            (record { held = held; used = (used, h.used) }, omega arith)
    ]

release_right :
    (forget : List ℕ → List ℕ) (i : ℕ) (o : Opened)
    → IsRight o
    → length o.files < 2 ^ 30
    → Next o (use_once (releases forget i) o)
release_right forget i o h few = elim (Option-cases (get_elem? o.files i)) [
  | inl gone ↦ subst (Next o) (ap (release_at forget i o) (sym gone)) (h, omega arith)
  | inr (f, there) ↦
      let rest = remove_at i o.files in
      let (er, ew) = removed i o.files f there in
      let held =
        subst (λ n. IsHeld n (writers rest + one_if f.for_write) o.pipe o.memory) er
          (subst (λ n. IsHeld (readers o.files) n o.pipe o.memory) ew h.held) in
      let (p', m', run, held') =
        p_release-IsHeld f (readers rest) (writers rest) (omega (arith, er, few_readers o.files))
          (omega (arith, ew, few_writers o.files)) forget o.pipe o.memory
          (All-get IsUsed o.files i h.used there) held in
      subst (Next o) (ap (after_release rest) (sym run) ∙ ap (release_at forget i o) (sym there)) (
        record { held = held'; used = removed_used i o.files h.used },
        omega (arith, removed_length i o.files),
      )
]

notified :
    (helper : List ℕ → List ℕ × Reply) (o : Opened)
    → IsRight o
    → IsRight (use_once (notifies helper) o)
notified helper o h = record {
  held = record {
    readers = h.held.readers;
    writers = h.held.writers;
    balanced = h.held.balanced;
    released = h.held.released;
    held = h.held.held;
  };
  used = h.used;
}

-- If the counts of a pipe are those of its open files, each open for reading, writing or both, and
-- the buffer is held exactly while there are any, then this is so again after any opens, releases and
-- changes of the files to be notified, interrupted or not and whatever kmalloc grants, with files and calls together fewer than 2^30.
pub use_all-IsRight :
    (us : List Use) (o : Opened)
    → IsRight o
    → All IsUse us
    → length o.files + length us < 2 ^ 30
    → IsRight (use_all us o)
use_all-IsRight [] o h used few = h
use_all-IsRight (opens k g f interrupted ∷ us) o h used few =
    let (right, more) = open_right k g f interrupted o h used.0 (omega arith) in
    use_all-IsRight us (use_once (opens k g f interrupted) o) right used.1 (omega (arith, more))
use_all-IsRight (releases forget i ∷ us) o h used few =
    let (right, more) = release_right forget i o h (omega arith) in
    use_all-IsRight us (use_once (releases forget i) o) right used.1 (omega (arith, more))
use_all-IsRight (notifies helper ∷ us) o h used few =
    let right = notified helper o h in
    use_all-IsRight us (use_once (notifies helper) o) right used.1 (omega (arith, few))
