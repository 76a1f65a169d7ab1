-- ===== src/Pipe/Waits.antt =====
-- 实验7/scull/pipe.c: the loops in which `scull_p_read` and `scull_p_write` sleep.
use linux_kernel_experiment.Prelude.{
  ℕ, ◌≡◌, inl, inr, refl, Bool, true, false, some, List, [], ◌∷◌, ◌++◌, All, ◌==◌, if◌then◌else◌,
  Bool-cases, pos,
}
use linux_kernel_experiment.Kernel.{Kernel, error, eagain, erestartsys}
use linux_kernel_experiment.Pipe.Ring.{
  Pipe, File, Wake, Outcome, await_data, getwritespace, spacefree, p_read, p_write, sleeps, quiet,
}

-- the same file, opened with or without O_NONBLOCK
abbrev pub blocking : File → File
blocking f = record f { nonblock = false }

abbrev pub nonblocking : File → File
nonblocking f = record f { nonblock = true }

-- A wake at which nothing disturbs the sleeper, and the pipe is still empty.
abbrev pub IsIdle : Wake → Type 0
IsIdle w = (w.signal ≡ false) × (w.interrupted ≡ false) × ((w.pipe.rp == w.pipe.wp) ≡ true)

-- A wake at which nothing disturbs the sleeper, and the pipe is still full.
abbrev pub IsStuck : Wake → Type 0
IsStuck w = (w.signal ≡ false) × (w.interrupted ≡ false) × (spacefree w.pipe ≡ some (pos 0))

-- a wake that a signal or an interruption makes an end
abbrev pub disturbed : Wake → Bool
disturbed w = if w.signal then true else w.interrupted

module _ (k : Kernel) (f : File) (user : List ℕ) (n : ℕ) where
  -- how a read goes on from a wake: it gives up, or does as a read that comes only now
  abbrev pub read_from : Wake → List Wake → Outcome
  read_from w later =
      if disturbed w
      then quiet w.pipe user (error erestartsys)
      else p_read k (blocking f) false w.pipe later user n

  abbrev pub write_from : Wake → List Wake → Outcome
  write_from w later =
      if disturbed w
      then quiet w.pipe user (error erestartsys)
      else p_write k (blocking f) false w.pipe later user n

  read-sleeps :
      (p : Pipe) (before : List Wake)
      → (p.rp == p.wp) ≡ true
      → All IsIdle before
      → p_read k (blocking f) false p before user n ≡ sleeps
  unfolding p_read await_data
  read-sleeps p [] e h = rw (p_read, await_data, e) refl
  read-sleeps p (w ∷ ws) e ((calm, whole, still), h) =
      rw (p_read, await_data, e, calm, whole) (read-sleeps w.pipe ws still h)

  read-woken :
      (p : Pipe) (before : List Wake) (w : Wake) (later : List Wake)
      → (p.rp == p.wp) ≡ true
      → All IsIdle before
      → p_read k (blocking f) false p (before ++ w ∷ later) user n ≡ read_from w later
  unfolding p_read await_data
  read-woken p [] w later e h = elim (Bool-cases w.signal) [
    | inl signal ↦ rw (p_read, await_data, e, signal) refl
    | inr calm ↦ elim (Bool-cases w.interrupted) [
      | inl interrupted ↦ rw (p_read, await_data, e, calm, interrupted) refl
      | inr whole ↦ rw (p_read, await_data, e, calm, whole) refl
    ]
  ]
  read-woken p (v ∷ vs) w later e ((calm, whole, still), h) =
      rw (p_read, await_data, e, calm, whole) (read-woken v.pipe vs w later still h)

  read-refused :
      (p : Pipe) (ws : List Wake)
      → (p.rp == p.wp) ≡ true
      → p_read k (nonblocking f) false p ws user n ≡ quiet p user (error eagain)
  unfolding p_read await_data
  read-refused p [] e = rw (p_read, await_data, e) refl
  read-refused p (w ∷ ws) e = rw (p_read, await_data, e) refl

  -- A `scull_p_read` of an empty pipe replies EAGAIN at once, and leaves the pipe, if the file is open
  -- with O_NONBLOCK. Else it sleeps as long as it is woken undisturbed to an empty pipe. At the first
  -- other wake it replies ERESTARTSYS, with the pipe as found, if there is a signal or an interruption,
  -- and else does what a `scull_p_read` does that finds this pipe at its start.
  pub p_read-waits :
      (p : Pipe) (before : List Wake) (w : Wake) (later : List Wake)
      → (p.rp == p.wp) ≡ true
      → All IsIdle before
      → (p_read k (nonblocking f) false p (before ++ w ∷ later) user n
          ≡ quiet p user (error eagain))
        × (p_read k (blocking f) false p before user n ≡ sleeps)
        × (p_read k (blocking f) false p (before ++ w ∷ later) user n ≡ read_from w later)
  p_read-waits p before w later e h = (
    read-refused p (before ++ w ∷ later) e,
    read-sleeps p before e h,
    read-woken p before w later e h,
  )

  write-sleeps :
      (p : Pipe) (before : List Wake)
      → spacefree p ≡ some (pos 0)
      → All IsStuck before
      → p_write k (blocking f) false p before user n ≡ sleeps
  unfolding p_write getwritespace
  write-sleeps p [] e h = rw (p_write, getwritespace, e) refl
  write-sleeps p (w ∷ ws) e ((calm, whole, still), h) =
      rw (p_write, getwritespace, e, calm, whole) (write-sleeps w.pipe ws still h)

  write-woken :
      (p : Pipe) (before : List Wake) (w : Wake) (later : List Wake)
      → spacefree p ≡ some (pos 0)
      → All IsStuck before
      → p_write k (blocking f) false p (before ++ w ∷ later) user n ≡ write_from w later
  unfolding p_write getwritespace
  write-woken p [] w later e h = elim (Bool-cases w.signal) [
    | inl signal ↦ rw (p_write, getwritespace, e, signal) refl
    | inr calm ↦ elim (Bool-cases w.interrupted) [
      | inl interrupted ↦ rw (p_write, getwritespace, e, calm, interrupted) refl
      | inr whole ↦ rw (p_write, getwritespace, e, calm, whole) refl
    ]
  ]
  write-woken p (v ∷ vs) w later e ((calm, whole, still), h) =
      rw (p_write, getwritespace, e, calm, whole) (write-woken v.pipe vs w later still h)

  write-refused :
      (p : Pipe) (ws : List Wake)
      → spacefree p ≡ some (pos 0)
      → p_write k (nonblocking f) false p ws user n ≡ quiet p user (error eagain)
  unfolding p_write getwritespace
  write-refused p [] e = rw (p_write, getwritespace, e) refl
  write-refused p (w ∷ ws) e = rw (p_write, getwritespace, e) refl

  -- The same of a `scull_p_write` to a full pipe.
  p_write-waits :
      (p : Pipe) (before : List Wake) (w : Wake) (later : List Wake)
      → spacefree p ≡ some (pos 0)
      → All IsStuck before
      → (p_write k (nonblocking f) false p (before ++ w ∷ later) user n
          ≡ quiet p user (error eagain))
        × (p_write k (blocking f) false p before user n ≡ sleeps)
        × (p_write k (blocking f) false p (before ++ w ∷ later) user n ≡ write_from w later)
  p_write-waits p before w later e h = (
    write-refused p (before ++ w ∷ later) e,
    write-sleeps p before e h,
    write-woken p before w later e h,
  )
