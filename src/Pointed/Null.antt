-- ===== src/Pointed/Null.antt =====
-- 实验7/parta/main.c: what the calls do to a device as the start leaves it.
use linux_kernel_experiment.Prelude.{
  ℕ, ◌≡◌, ◌⊎◌, inl, inr, refl, ap, ◌∙◌, ◌<◌, ltb, not, ◌&&◌, Bool, true, false, Option, none, some,
  List, [], arith, leb, ◌==◌, Bool-cases, ==→eq, le→ltb, leb→le, ltb→lt,
}
use linux_kernel_experiment.Kernel.{
  Run, done, crash, Errno, Reply, count, error, erestartsys, enospc, efault,
}
use linux_kernel_experiment.Scull.Seek.{is_write_only}
use linux_kernel_experiment.Fixed.Block.{Arguments, cut}
use linux_kernel_experiment.Pointed.Block.{
  data_size, Pointed, Returned, reach, open_pointed, read_pointed, write_pointed, finish_read,
  finish_write, copy_in, copy_out,
}

-- the calls on a device
pub data Call : Type 0 where
  opens : (flags : ℕ) (interrupted : Bool) → Call
  reads writes : Arguments → (interrupted : Bool) → Call

-- the device and the reply
abbrev pub outcome : Run Returned → Run (Pointed × Reply)
outcome crash = crash
outcome (done r) = done (r.block, r.reply)

abbrev pub call : Call → Pointed → Run (Pointed × Reply)
call (opens flags interrupted) d = open_pointed flags interrupted d
call (reads c interrupted) d = outcome (read_pointed c interrupted d)
call (writes c interrupted) d = outcome (write_pointed c interrupted d)

-- no byte was read or written
abbrev pub IsNothing : Reply → Type 0
IsNothing r = (r ≡ count 0) ⊎ ((e : Errno) × (r ≡ error e))

-- the call crashes, or does nothing and leaves the pointer NULL
abbrev Nothing : Run (Pointed × Reply) → Type 0
Nothing x =
    (x ≡ crash) ⊎ ((d : Pointed) × (r : Reply) × (x ≡ done (d, r)) × (d.bytes ≡ none) × IsNothing r)

read_end :
    (c : Arguments) (d : Pointed) (n : ℕ) (got : List ℕ × ℕ)
    → d.bytes ≡ none
    → n ≡ 0
    → Nothing (outcome (done (finish_read c d n got)))
read_end c d n (user, left) e h = elim (Bool-cases (left == 0)) [
  | inl all ↦ rw all (inr (d, count n, refl, e, inl (ap count h)))
  | inr some_left ↦ rw some_left (inr (d, error efault, refl, e, inr (efault, refl)))
]

read_reach :
    (c : Arguments) (d : Pointed) (n : ℕ) (bytes : Option (List ℕ))
    → d.bytes ≡ none
    → bytes ≡ none
    → Nothing (outcome (copy_out c d n (reach bytes c.f_pos n)))
read_reach c d n (some b) e h = absurd (cc)
read_reach c d n none e h = elim (Bool-cases (n == 0)) [
  | inl all ↦ rw all (read_end c d n _ e (==→eq n 0 all))
  | inr more ↦ rw more (inl refl)
]

read-Nothing :
    (c : Arguments) (interrupted : Bool) (d : Pointed)
    → d.bytes ≡ none
    → Nothing (outcome (read_pointed c interrupted d))
read-Nothing c true d e = inr (d, error erestartsys, refl, e, inr (erestartsys, refl))
read-Nothing c false d e = elim (Bool-cases (leb d.size c.f_pos)) [
  | inl past ↦ rw past (inr (d, count 0, refl, e, inl refl))
  | inr before ↦ rw before (read_reach c d (cut d.size c.f_pos c.n) d.bytes e e)
]

write_end :
    (c : Arguments) (d : Pointed) (n : ℕ) (b : List ℕ) (got : List ℕ × ℕ) (bytes : Option (List ℕ))
    → bytes ≡ none
    → n ≡ 0
    → d ≡ record { bytes = bytes; size = d.size }
    → Nothing (outcome (done (finish_write c (record { bytes = bytes; size = d.size }) n b got)))
write_end c d n b got (some x) e h same = absurd (cc)
write_end c d n b (bytes, left) none e h same = elim (Bool-cases (left == 0)) [
  | inl all ↦ rw all (inr (_, count n, refl, refl, inl (ap count h)))
  | inr some_left ↦ rw some_left (inr (_, error efault, refl, refl, inr (efault, refl)))
]

write_reach :
    (c : Arguments) (size n : ℕ) (bytes : Option (List ℕ))
    → bytes ≡ none
    → Nothing
        (outcome (copy_in c (record { bytes = bytes; size = size }) n (reach bytes c.f_pos n)))
write_reach c size n (some b) e = absurd (cc)
write_reach c size n none e = elim (Bool-cases (n == 0)) [
  | inl all ↦ rw all (
      write_end c (record { bytes = none; size = size }) n [] (c.kernel.copy_from_user c.user n)
        none refl (==→eq n 0 all) refl)
  | inr more ↦ rw more (inl refl)
]

write-Nothing :
    (c : Arguments) (interrupted : Bool) (d : Pointed)
    → d.bytes ≡ none
    → Nothing (outcome (write_pointed c interrupted d))
write-Nothing c true d e = inr (d, error erestartsys, refl, e, inr (erestartsys, refl))
write-Nothing c false d e = elim (Bool-cases (leb data_size c.f_pos)) [
  | inl past ↦ rw past (inr (d, error enospc, refl, e, inr (enospc, refl)))
  | inr before ↦ rw before (write_reach c d.size (cut data_size c.f_pos c.n) d.bytes e)
]

open-Nothing :
    (flags size : ℕ) (interrupted : Bool) (bytes : Option (List ℕ))
    → bytes ≡ none
    → Nothing (open_pointed flags interrupted (record { bytes = bytes; size = size }))
open-Nothing flags size interrupted (some b) e = absurd (cc)
open-Nothing flags size true none e = elim (Bool-cases (is_write_only flags)) [
  | inl only ↦ rw only (inr (_, error erestartsys, refl, refl, inr (erestartsys, refl)))
  | inr other ↦ rw other (inr (_, count 0, refl, refl, inl refl))
]
open-Nothing flags size false none e = elim (Bool-cases (is_write_only flags)) [
  | inl only ↦ rw only (inl refl)
  | inr other ↦ rw other (inr (_, count 0, refl, refl, inl refl))
]

call-Nothing : (x : Call) (d : Pointed) → d.bytes ≡ none → Nothing (call x d)
call-Nothing (opens flags interrupted) d e = open-Nothing flags d.size interrupted d.bytes e
call-Nothing (reads c interrupted) d e = read-Nothing c interrupted d e
call-Nothing (writes c interrupted) d e = write-Nothing c interrupted d e

-- a device without an array
abbrev pub null_device : ℕ → Pointed
null_device size = record { bytes = none; size = size }

-- does a call use the pointer
abbrev pub touches : Call → ℕ → Bool
touches (opens flags interrupted) size = is_write_only flags && not interrupted
touches (reads c interrupted) size = not interrupted && (ltb c.f_pos size && not (c.n == 0))
touches (writes c interrupted) size = not interrupted && (ltb c.f_pos data_size && not (c.n == 0))

cut_zero : (limit f_pos n : ℕ) → f_pos < limit → (cut limit f_pos n == 0) ≡ (n == 0)
cut_zero limit f_pos n h = ground arith

abbrev is_crash : Run (Pointed × Reply) → Bool
is_crash crash = true
is_crash (done x) = false

ltb_of : (limit f_pos : ℕ) → leb limit f_pos ≡ false → ltb f_pos limit ≡ true
ltb_of limit f_pos h = ground arith

call-touches : (x : Call) (size : ℕ) → is_crash (call x (null_device size)) ≡ touches x size
call-touches (opens flags true) size = ground arith
call-touches (opens flags false) size = ground arith
call-touches (reads c true) size = refl
call-touches (reads c false) size = elim (Bool-cases (leb size c.f_pos)) [
  | inl past ↦ rw (past, le→ltb c.f_pos size (leb→le size c.f_pos past)) refl
  | inr before ↦
      let inside = ltb_of size c.f_pos before in
      elim (Bool-cases (c.n == 0)) [
        | inl nothing ↦
            rw (before, inside, cut_zero size c.f_pos c.n (ltb→lt c.f_pos size inside), nothing)
              refl
        | inr more ↦
            rw (before, inside, cut_zero size c.f_pos c.n (ltb→lt c.f_pos size inside), more) refl
      ]
]
call-touches (writes c true) size = refl
call-touches (writes c false) size = elim (Bool-cases (leb data_size c.f_pos)) [
  | inl past ↦ rw (past, le→ltb c.f_pos data_size (leb→le data_size c.f_pos past)) refl
  | inr before ↦
      let inside = ltb_of data_size c.f_pos before in
      elim (Bool-cases (c.n == 0)) [
        | inl nothing ↦
            rw
              (
                before,
                inside,
                cut_zero data_size c.f_pos c.n (ltb→lt c.f_pos data_size inside),
                nothing,
              )
              refl
        | inr more ↦
            rw
              (
                before,
                inside,
                cut_zero data_size c.f_pos c.n (ltb→lt c.f_pos data_size inside),
                more,
              )
              refl
      ]
]

is_crash-true : (x : Run (Pointed × Reply)) → is_crash x ≡ true → x ≡ crash
is_crash-true crash h = refl
is_crash-true (done x) h = absurd (cc)

not_crash :
    (x : Run (Pointed × Reply))
    → is_crash x ≡ false
    → Nothing x
    → (size : ℕ) × (r : Reply) × (x ≡ done (null_device size, r)) × IsNothing r
not_crash crash h n = absurd (cc)
not_crash (done x) h (inl e) = absurd (cc)
not_crash (done x) h (inr (d, r, e, null, nothing)) =
    (d.size, r, e ∙ ap (λ b. done (record { bytes = b; size = d.size }, r)) null, nothing)

-- A call of open, read or write on a device whose data is NULL, as the start leaves it, crashes
-- where it uses the pointer: to open for writing only, or to read or write at least one byte at a
-- position below the size or below the 16 bytes, not interrupted. Any other call leaves the data
-- NULL, and replies the count 0 or an error.
pub call_null :
    (x : Call) (size : ℕ)
    → ((touches x size ≡ true) × (call x (null_device size) ≡ crash))
      ⊎ ((touches x size ≡ false)
          × ((size' : ℕ) × (r : Reply) × (call x (null_device size) ≡ done (null_device size', r))
              × IsNothing r))
call_null x size = elim (Bool-cases (touches x size)) [
  | inl uses ↦ inl (uses, is_crash-true (call x (null_device size)) (call-touches x size ∙ uses))
  | inr not_used ↦ inr (
    not_used,
    not_crash (call x (null_device size)) (call-touches x size ∙ not_used)
        (call-Nothing x (null_device size) refl),
  )
]
