-- ===== src/Pipe/Contents.antt =====
-- 实验7/scull/pipe.c: the circular buffer as the queue of bytes that it holds, from `rp` up to `wp`.
use linux_kernel_experiment.Prelude.{
  ℕ, zero, suc, ◌+◌, ◌-◌, ◌<◌, ◌≤◌, ◌≡◌, ◌⊎◌, inl, inr, refl, sym, ap, ◌∙◌, true, false, List, [],
  ◌∷◌, ◌++◌, length, take, drop, slice, splice, leb, if◌then◌else◌, arith, Bool-cases, length-take,
  length-drop, length-append, append_assoc, append_nil, take_all, take-append-drop, drop-drop,
  take_add, take-splice, take-splice_before, drop-splice_after, drop-splice,
}

-- the bytes in the buffer `b`, oldest first
unfoldable pub contents : List ℕ → ℕ → ℕ → List ℕ
contents b rp wp = if leb rp wp then slice b rp (wp - rp) else drop rp b ++ take wp b

pub length-contents :
    (b : List ℕ) (rp wp : ℕ)
    → rp < length b
    → wp < length b
    → length (contents b rp wp) ≡ (if leb rp wp then wp - rp else length b - rp + wp)
unfolding contents
length-contents b rp wp hr hw = elim (Bool-cases (leb rp wp)) [
  | inl ahead ↦ rw (ahead) (length-take (wp - rp) (drop rp b) ∙ omega (arith, length-drop rp b))
  | inr wrapped ↦
      rw (wrapped)
        (length-append (drop rp b) (take wp b) ∙ omega (arith, length-drop rp b, length-take wp b))
]

-- Bytes taken between `rp` and a `wp` ahead of it.
pub contents-read_ahead :
    (b : List ℕ) (rp wp m : ℕ)
    → rp + m ≤ wp
    → contents b rp wp ≡ slice b rp m ++ contents b (rp + m) wp
unfolding contents
contents-read_ahead b rp wp m h =
    let ahead : leb rp wp ≡ true = ground arith in
    let still : leb (rp + m) wp ≡ true = ground arith in
    rw (contents, ahead, still)
      (take_add m (wp - (rp + m)) (wp - rp) (drop rp b) (omega arith)
        ∙ ap (λ l. take m (drop rp b) ++ take (wp - (rp + m)) l) (drop-drop rp m (rp + m) b refl))

-- Bytes taken between `rp` and the end, with `wp` behind.
pub contents-read_wrapped :
    (b : List ℕ) (rp wp m : ℕ) → wp < rp → contents b rp wp ≡ slice b rp m ++ contents b (rp + m) wp
unfolding contents
contents-read_wrapped b rp wp m h =
    let wrapped : leb rp wp ≡ false = ground arith in
    let still : leb (rp + m) wp ≡ false = ground arith in
    rw (contents, wrapped, still)
      (ap (λ l. l ++ take wp b)
          (take-append-drop m (drop rp b)
            ∙ ap (λ l. take m (drop rp b) ++ l) (drop-drop rp m (rp + m) b refl))
        ∙ append_assoc (take m (drop rp b)) (drop (rp + m) b) (take wp b))

drop-all : (n : ℕ) (b : List ℕ) → length b ≤ n → drop n b ≡ []
drop-all zero [] h = refl
drop-all zero (x ∷ b) h = absurd (omega arith)
drop-all (suc n) [] h = refl
drop-all (suc n) (x ∷ b) h = drop-all n b (omega arith)

-- An `rp` at the end is one at the start.
pub contents-rewind :
    (b : List ℕ) (rp wp : ℕ) → rp ≡ length b → wp < length b → contents b rp wp ≡ contents b 0 wp
unfolding contents
contents-rewind b rp wp e h =
    let wrapped : leb rp wp ≡ false = ground arith in
    let start : leb 0 wp ≡ true = ground arith in
    rw (contents, wrapped, start)
      (ap (λ l. l ++ take wp b) (drop-all rp b (omega arith)) ∙ ap (λ i. take i b) (omega arith))

-- Bytes put at a `wp` that is not behind `rp`.
pub contents-write_ahead :
    (b : List ℕ) (rp wp : ℕ) (ys : List ℕ)
    → rp ≤ wp
    → wp + length ys ≤ length b
    → contents (splice b wp ys) rp (wp + length ys) ≡ contents b rp wp ++ ys
unfolding contents
contents-write_ahead b rp wp ys h hb =
    let ahead : leb rp wp ≡ true = ground arith in
    let still : leb rp (wp + length ys) ≡ true = ground arith in
    rw (contents, ahead, still, drop-splice rp b (wp - rp) wp ys (omega arith))
      (take-splice (drop rp b) (wp - rp) ys (wp + length ys - rp) (omega arith)
        (omega (arith, length-drop rp b)))

-- Bytes put at a `wp` behind `rp`.
pub contents-write_wrapped :
    (b : List ℕ) (rp wp : ℕ) (ys : List ℕ)
    → wp + length ys < rp
    → rp ≤ length b
    → contents (splice b wp ys) rp (wp + length ys) ≡ contents b rp wp ++ ys
unfolding contents
contents-write_wrapped b rp wp ys h hb =
    let wrapped : leb rp wp ≡ false = ground arith in
    let still : leb rp (wp + length ys) ≡ false = ground arith in
    rw
      (
        contents,
        wrapped,
        still,
        drop-splice_after rp b wp ys (omega arith),
        take-splice b wp ys (wp + length ys) refl (omega arith),
      )
      (sym (append_assoc (drop rp b) (take wp b) ys))

-- A `wp` at the end is one at the start, unless `rp` is there.
pub contents-wrap :
    (b : List ℕ) (rp wp : ℕ)
    → wp ≡ length b
    → 0 < rp
    → rp < length b
    → contents b rp wp ≡ contents b rp 0
unfolding contents
contents-wrap b rp wp e h hr =
    let ahead : leb rp wp ≡ true = ground arith in
    let wrapped : leb rp 0 ≡ false = ground arith in
    rw (contents, ahead, wrapped)
      (take_all (wp - rp) (drop rp b) (omega (arith, length-drop rp b))
        ∙ sym (append_nil (drop rp b)))

-- Bytes put into free space only, with `wp` not moved.
pub contents-splice_free :
    (b : List ℕ) (rp wp : ℕ) (ys : List ℕ)
    → (rp ≤ wp) ⊎ (wp + length ys < rp)
    → contents (splice b wp ys) rp wp ≡ contents b rp wp
unfolding contents
contents-splice_free b rp wp ys (inl h) =
    let ahead : leb rp wp ≡ true = ground arith in
    rw (contents, ahead, drop-splice rp b (wp - rp) wp ys (omega arith))
      (take-splice_before (wp - rp) (drop rp b) (wp - rp) ys (omega arith))
contents-splice_free b rp wp ys (inr h) =
    let wrapped : leb rp wp ≡ false = ground arith in
    rw
      (
        contents,
        wrapped,
        drop-splice_after rp b wp ys (omega arith),
        take-splice_before wp b wp ys (omega arith),
      )
      refl
