-- ===== src/Fixed/Bytes.antt =====
-- 实验7/main.c: no call leaves the 16 bytes of the array.
use linux_kernel_experiment.Prelude.{
  ℕ, ◌+◌, ◌≡◌, ◌≤◌, ◌<◌, ◌⊎◌, inl, inr, refl, ◌∙◌, Bool, true, false, List, leb, ◌==◌, length,
  get_elem?, slice, arith, Bool-cases, length-splice, le→ltb, ◌≢◌, get_elem?-splice_out,
}
use linux_kernel_experiment.Kernel.{done, Errno, Reply, count, error, erestartsys, enospc}
use linux_kernel_experiment.Fixed.Block.{
  data_size, Block, Arguments, Returned, leaving, cut, copy_out, copy_in, read_bytes, write_bytes,
  open_block, wipe, finish_write, finish_read,
}

-- all the array is there, and the size stays in it
pub record IsValid (d : Block) : Type 0 where
  pub whole : length d.bytes ≡ data_size
  pub within : d.size ≤ data_size

wipe-IsValid : (d : Block) → IsValid (wipe d)
wipe-IsValid d = record { whole = refl; within = omega arith }

open_block-IsValid :
    (flags : ℕ) (interrupted : Bool) (d : Block)
    → IsValid d
    → IsValid (open_block flags interrupted d).0
open_block-IsValid flags true d v = ground (arith, v)
open_block-IsValid flags false d v = ground (arith, v, wipe-IsValid d)

pub cut_le : (limit f_pos n : ℕ) → f_pos ≤ limit → f_pos + cut limit f_pos n ≤ limit
cut_le limit f_pos n h = ground arith

-- What a write may change: nothing before the position, and nothing past the bytes it may store.
pub record Confined (c : Arguments) (d : Block) (out : Returned) : Type 0 where
  pub valid : IsValid out.block
  pub user : out.user ≡ c.user
  pub others :
      (k : ℕ)
      → (k < c.f_pos) ⊎ (c.f_pos + cut data_size c.f_pos c.n ≤ k)
      → get_elem? out.block.bytes k ≡ get_elem? d.bytes k

leaving-Confined :
    (c : Arguments) (d : Block) (r : Reply) → IsValid d → Confined c d (leaving c d r)
leaving-Confined c d r v = record { valid = v; user = refl; others = λ k h. refl }

finish_write-Confined :
    (c : Arguments) (d : Block) (n : ℕ) (bytes : List ℕ) (left : ℕ)
    → IsValid d
    → n ≡ cut data_size c.f_pos c.n
    → c.f_pos < data_size
    → length bytes ≡ n
    → Confined c d (finish_write c d n (bytes, left))
finish_write-Confined c d n bytes left v e h len =
    let whole = length-splice d.bytes c.f_pos bytes in
    let others = get_elem?-splice_out d.bytes c.f_pos bytes in
    let fits = cut_le data_size c.f_pos c.n (omega arith) in
    elim (Bool-cases (left == 0)) [
      | inl all ↦ rw all record {
        valid = record { whole = whole ∙ v.whole; within = ground arith };
        user = refl;
        others = λ k o. others k (omega arith);
      }
      | inr some_left ↦ rw some_left record {
        valid = record { whole = whole ∙ v.whole; within = v.within };
        user = refl;
        others = λ k o. others k (omega arith);
      }
    ]

pub le_pos : (a b : ℕ) → leb a b ≡ false → b < a
le_pos a b h = ground arith

pub cut_exact : (limit f_pos n : ℕ) → limit ≡ f_pos + n → cut limit f_pos n ≡ n
cut_exact limit f_pos n h = ground arith

pub done_inj : {a b : Returned} → done a ≡ done b → a ≡ b
done_inj h = cc

pub not_count : (e : Errno) (n : ℕ) → error e ≢ count n
not_count e n h = cc

pub copy_in_fits :
    (c : Arguments) (d : Block) (n : ℕ)
    → c.f_pos + n ≤ length d.bytes
    → copy_in c d n ≡ done (finish_write c d n (c.kernel.copy_from_user c.user n))
unfolding copy_in
copy_in_fits c d n h = rw (le→ltb (length d.bytes) (c.f_pos + n) h) refl

pub copy_out_fits :
    (c : Arguments) (d : Block) (n : ℕ)
    → c.f_pos + n ≤ length d.bytes
    → copy_out c d n
      ≡ done (finish_read c d n (c.kernel.copy_to_user c.user (slice d.bytes c.f_pos n)))
unfolding copy_out
copy_out_fits c d n h = rw (le→ltb (length d.bytes) (c.f_pos + n) h) refl

-- Whatever the position and the count, a write on a valid device runs to its end without leaving
-- the array: the device stays valid, the user's memory is the same, and only the bytes from the
-- position up to the count or the end of the array may have changed.
pub write_bytes-Confined :
    (c : Arguments) (interrupted : Bool) (d : Block)
    → IsValid d
    → (out : Returned) × (write_bytes c interrupted d ≡ done out) × Confined c d out
unfolding write_bytes
write_bytes-Confined c true d v = (leaving c d (error erestartsys), refl, leaving-Confined c d _ v)
write_bytes-Confined c false d v = elim (Bool-cases (leb data_size c.f_pos)) [
  | inl full ↦ (leaving c d (error enospc), rw full refl, leaving-Confined c d _ v)
  | inr room ↦
      let n = cut data_size c.f_pos c.n in
      let h = le_pos data_size c.f_pos room in
      let (bytes, left) = c.kernel.copy_from_user c.user n in
      let fits = cut_le data_size c.f_pos c.n (omega arith) in
      (
        finish_write c d n (bytes, left),
        rw room (copy_in_fits c d n (omega (arith, v.whole))),
        finish_write-Confined c d n bytes left v refl h (c.kernel.length-copy_from_user c.user n),
      )
]

-- Whatever the position and the count, a read on a valid device runs to its end without leaving
-- the array, and leaves the device as it was.
read_bytes-total :
    (c : Arguments) (interrupted : Bool) (d : Block)
    → IsValid d
    → (out : Returned) × (read_bytes c interrupted d ≡ done out) × (out.block ≡ d)
unfolding read_bytes
read_bytes-total c true d v = (leaving c d (error erestartsys), refl, refl)
read_bytes-total c false d v = elim (Bool-cases (leb d.size c.f_pos)) [
  | inl past ↦ (leaving c d (count 0), rw past refl, refl)
  | inr before ↦
      let n = cut d.size c.f_pos c.n in
      let fits = cut_le d.size c.f_pos c.n (ground (arith, before)) in
      let got = c.kernel.copy_to_user c.user (slice d.bytes c.f_pos n) in
      (
        finish_read c d n got,
        rw before (copy_out_fits c d n (omega (arith, v.whole, v.within))),
        ground arith,
      )
]
