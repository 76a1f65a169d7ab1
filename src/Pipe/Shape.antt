-- ===== src/Pipe/Shape.antt =====
-- 实验7/scull/pipe.c: the pipes that the operations keep, and their free space.
use native.Mathlib.Nat.{add-zero, mod-eq_of_lt, mod-eq-sub-mod}
use linux_kernel_experiment.Prelude.{
  ℕ, ◌+◌, ◌-◌, ◌%◌, ◌^◌, ◌<◌, ◌≤◌, ◌≡◌, ◌≢◌, inl, inr, refl, sym, ap, ◌∙◌, false, some, List, pos,
  ◌+ℤ◌, ◌-ℤ◌, bits32, rem_ℤ, eqb_ℤ, length, leb, ◌==◌, if◌then◌else◌, arith, Bool-cases, sub-pos,
  to_int-pos, bits32-pos,
}
use linux_kernel_experiment.Pipe.Ring.{
  Pipe, space, spacefree, to_end, wrap_at, p_poll, pollin, pollout,
}
use linux_kernel_experiment.Pipe.Contents.{contents, length-contents}

-- an open pipe with the buffer `b` of `n` bytes, both pointers in it
pub record IsValid (n : ℕ) (b : List ℕ) (p : Pipe) : Type 0 where
  pub buffer : p.buffer ≡ some b
  pub size : length b ≡ n
  pub fits : n ≤ 2 ^ 30
  pub buffersize : p.buffersize ≡ pos n
  pub end_at : p.end_at ≡ pos n
  pub rp : p.rp < n
  pub wp : p.wp < n

-- the bytes from `rp` up to `wp`
abbrev pub used : ℕ → ℕ → ℕ → ℕ
used n rp wp = if leb rp wp then wp - rp else n - rp + wp

distance_mod : (n rp wp : ℕ) → rp < n → wp < n → rp ≢ wp → (rp + n - wp) % n ≡ n - used n rp wp
distance_mod n rp wp hr hw h = elim (Bool-cases (leb rp wp)) [
  | inl ahead ↦ rw ahead (mod-eq_of_lt (ground arith) ∙ ground arith)
  | inr wrapped ↦ rw wrapped (
      mod-eq-sub-mod {n = rp + n - wp} {m = n} (ground arith)
      ∙ mod-eq_of_lt (ground arith)
      ∙ ground arith)
]

add-pos : (a b : ℕ) → pos a +ℤ pos b ≡ pos (a + b)
unfolding ◌+ℤ◌
add-pos a b = ground arith

space-pos :
    (n rp wp : ℕ)
    → rp < n
    → wp < n
    → n ≤ 2 ^ 30
    → space (pos n) rp wp ≡ some (pos (n - 1 - used n rp wp))
unfolding space rem_ℤ
space-pos n rp wp hr hw h = elim (Bool-cases (rp == wp)) [
  | inl same ↦
      rw (space, same, sub-pos n 1 (omega arith), to_int-pos (n - 1) (omega arith)) (ground arith)
  | inr apart ↦
      let some_size : eqb_ℤ (pos n) (pos 0) ≡ false = ground arith in
      rw
        (
          space,
          apart,
          some_size,
          add-pos rp n,
          sub-pos (rp + n) wp (omega arith),
          to_int-pos (rp + n - wp) (omega arith),
        )
        (rest apart)
]
  where
    rest :
        (rp == wp) ≡ false
        → some (pos ((rp + n - wp) % (n + 0)) -ℤ pos 1) ≡ some (pos (n - 1 - used n rp wp))
    rest apart =
        let e : (rp + n - wp) % (n + 0) ≡ n - used n rp wp =
          ap (λ a. (rp + n - wp) % a) (add-zero n) ∙ distance_mod n rp wp hr hw (ground arith) in
        rw e (
          ap some (sub-pos (n - used n rp wp) 1 (ground arith))
          ∙ ap (λ a. some (pos a)) (omega arith))

module _ {n : ℕ} {b : List ℕ} where
  pub to_end-IsValid : (p : Pipe) (at : ℕ) → IsValid n b p → at ≤ n → to_end p at ≡ n - at
  to_end-IsValid p at v h =
      ap (λ a. bits32 (a -ℤ pos at)) v.end_at
      ∙ ap bits32 (sub-pos n at h)
      ∙ bits32-pos (n - at) (omega (arith, v.fits))

  pub wrap_at-IsValid :
      (p : Pipe) (at : ℕ) → IsValid n b p → wrap_at p at ≡ (if at == n then 0 else at)
  wrap_at-IsValid p at v = ap (λ a. if eqb_ℤ (pos at) a then 0 else at) v.end_at ∙ ground arith

  pub spacefree-used :
      (p : Pipe) → IsValid n b p → spacefree p ≡ some (pos (n - 1 - used n p.rp p.wp))
  spacefree-used p v =
      ap (λ a. space a p.rp p.wp) v.buffersize ∙ space-pos n p.rp p.wp v.rp v.wp v.fits

  pub used-contents : (p : Pipe) → IsValid n b p → length (contents b p.rp p.wp) ≡ used n p.rp p.wp
  used-contents p v =
      length-contents b p.rp p.wp (omega (arith, v.size, v.rp)) (omega (arith, v.size, v.wp))
      ∙ ap (λ a. used a p.rp p.wp) v.size

  -- all but one byte of the buffer can be used
  pub spacefree-contents :
      (p : Pipe) → IsValid n b p → spacefree p ≡ some (pos (n - 1 - length (contents b p.rp p.wp)))
  spacefree-contents p v =
      spacefree-used p v ∙ ap (λ l. some (pos (n - 1 - l))) (sym (used-contents p v))

  -- `scull_p_poll` on a valid pipe says readable exactly if there is a byte in it, and writable
  -- exactly if there are fewer than all but one of the buffer's.
  poll-contents :
      (p : Pipe)
      → IsValid n b p
      → p_poll p
        ≡ some (
            (if length (contents b p.rp p.wp) == 0 then 0 else pollin)
            + (if length (contents b p.rp p.wp) == n - 1 then 0 else pollout))
  unfolding p_poll
  poll-contents p v =
      let empty : (p.rp == p.wp) ≡ (used n p.rp p.wp == 0) = ground (arith, v.rp, v.wp) in
      let full : eqb_ℤ (pos (n - 1 - used n p.rp p.wp)) (pos 0) ≡ (used n p.rp p.wp == n - 1) =
        ground (arith, v.rp, v.wp) in
      rw (p_poll, spacefree-used p v, used-contents p v, empty, full) refl
