-- ===== src/Shell/Words.antt =====
-- 实验2/exp2.c: the tokens of a line are its words.
use linux_kernel_experiment.Prelude.{
  ℕ, zero, suc, ◌≡◌, ◌≤◌, refl, ap, sym, ◌∙◌, ◌⊎◌, inl, inr, false, List, [], ◌∷◌, length,
  if◌then◌else◌, arith, Bool-cases,
}
use linux_kernel_experiment.Shell.Tokens.{
  is_in, skip, until, next_token, cons_token, strtok, tokens,
}

-- The pieces between the delimiters, in one pass from the right: a delimiter starts a new piece,
-- which may be empty.
abbrev pub pieces : List ℕ → List ℕ → List ℕ × List (List ℕ)
pieces delims [] = ([], [])
pieces delims (c ∷ s) =
    let (first, rest) = pieces delims s in
    if is_in c delims then ([], first ∷ rest) else (c ∷ first, rest)

-- the pieces that are not empty
abbrev pub filled : List (List ℕ) → List (List ℕ)
filled [] = []
filled ([] ∷ l) = filled l
filled ((c ∷ w) ∷ l) = (c ∷ w) ∷ filled l

abbrev pub words : List ℕ → List ℕ → List (List ℕ)
words delims s = let (first, rest) = pieces delims s in filled (first ∷ rest)

skip_kept : (delims s : List ℕ) (c : ℕ) → is_in c delims ≡ false → skip delims (c ∷ s) ≡ c ∷ s
skip_kept delims s c e = rw e refl

words-skip : (delims s : List ℕ) → words delims (skip delims s) ≡ words delims s
words-skip delims [] = refl
words-skip delims (c ∷ s) = elim (Bool-cases (is_in c delims)) [
  | inl e ↦ rw e (words-skip delims s)
  | inr e ↦ ap (words delims) (skip_kept delims s c e)
]

-- what is left after the delimiters at the start
skip_cases :
    (delims s : List ℕ)
    → (skip delims s ≡ [])
      ⊎ ((c : ℕ) × (s' : List ℕ) × (skip delims s ≡ c ∷ s')
          × (is_in c delims ≡ false)
          × (suc (length s') ≤ length s))
skip_cases delims [] = inl refl
skip_cases delims (c ∷ s) = elim (Bool-cases (is_in c delims)) [
  | inr e ↦ inr (c, s, skip_kept delims s c e, e, omega arith)
  | inl e ↦ elim (skip_cases delims s) [
    | inl none_left ↦ inl (rw e none_left)
    | inr (d, s', left, kept, shorter) ↦ inr (d, s', rw e left, kept, omega arith)
  ]
]

-- the first piece is the token, and the others are the words of what comes after it
until-pieces :
    (delims s : List ℕ)
    → ((pieces delims s).0 ≡ (until delims s).0)
      × (filled (pieces delims s).1 ≡ words delims (until delims s).1)
      × (length (until delims s).1 ≤ length s)
until-pieces delims [] = (refl, refl, omega arith)
until-pieces delims (c ∷ s) =
    let (token, rest, shorter) = until-pieces delims s in
    elim (Bool-cases (is_in c delims)) [
      | inl e ↦ rw e (refl, refl, omega arith)
      | inr e ↦ rw e (ap (◌∷◌ c) token, rest, omega arith)
    ]

-- The first words of a line that starts with a byte of a word.
first_word :
    (delims s : List ℕ) (c : ℕ)
    → is_in c delims ≡ false
    → words delims (c ∷ s) ≡ (c ∷ (until delims s).0) ∷ words delims (until delims s).1
first_word delims s c e =
    let (token, rest, shorter) = until-pieces delims s in
    rw e (
      ap (λ t. (c ∷ t) ∷ filled (pieces delims s).1) token
      ∙ ap (λ l. (c ∷ (until delims s).0) ∷ l) rest)

abbrev step : ℕ → List ℕ → List ℕ → List (List ℕ)
step fuel delims [] = []
step fuel delims (c ∷ s) =
    let (token, rest) = until delims (c ∷ s) in token ∷ tokens fuel delims rest

next_step :
    (fuel : ℕ) (delims t : List ℕ)
    → cons_token (next_token delims t).0 (tokens fuel delims (next_token delims t).1)
      ≡ step fuel delims t
next_step fuel delims [] = refl
next_step fuel delims (c ∷ s) = refl

tokens-suc :
    (fuel : ℕ) (delims s : List ℕ) → tokens (suc fuel) delims s ≡ step fuel delims (skip delims s)
unfolding tokens strtok
tokens-suc fuel delims s = next_step fuel delims (skip delims s)

-- With fuel for the length of the line, the loop of `strtok` ends with the words of the line: the
-- pieces between delimiters that are not empty, in order.
pub tokens-words :
    (fuel : ℕ) (delims s : List ℕ) → length s ≤ fuel → tokens fuel delims s ≡ words delims s
unfolding tokens
tokens-words zero delims [] h = refl
tokens-words zero delims (c ∷ s) h = absurd (omega arith)
tokens-words (suc fuel) delims s h = elim (skip_cases delims s) [
  | inl none_left ↦
      tokens-suc fuel delims s
      ∙ ap (step fuel delims) none_left
      ∙ sym (ap (words delims) none_left)
      ∙ words-skip delims s
  | inr (c, s', left, kept, shorter) ↦
      let (token, rest, less) = until-pieces delims s' in
      tokens-suc fuel delims s
      ∙ ap (step fuel delims) left
      ∙ rw kept (
          ap (λ l. (c ∷ (until delims s').0) ∷ l)
            (tokens-words fuel delims (until delims s').1 (omega arith)))
      ∙ sym (first_word delims s' c kept)
      ∙ sym (ap (words delims) left)
      ∙ words-skip delims s
]
