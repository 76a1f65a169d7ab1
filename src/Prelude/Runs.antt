-- ===== src/Prelude/Runs.antt =====
-- Cutting lists in two, and what a splice leaves before and after it.
use Prim.Native.Nat.{ℕ, zero, suc, ◌+◌, ◌≤◌}
use mathlib.Core.Path.{◌≡◌, refl, ap}
use mathlib.Core.List.{List, [], ◌∷◌, ◌++◌}
use native.Mathlib.Omega.{arith}
use linux_kernel_experiment.Prelude.Lists.{length, take, drop}
use linux_kernel_experiment.Prelude.Splice.{splice}

module _ {ℓ} {A : Type ℓ} where
  pub append_nil : (xs : List A) → xs ++ [] ≡ xs
  append_nil [] = refl
  append_nil (x ∷ xs) = ap (◌∷◌ x) (append_nil xs)

  pub append_assoc : (xs ys zs : List A) → (xs ++ ys) ++ zs ≡ xs ++ (ys ++ zs)
  append_assoc [] ys zs = refl
  append_assoc (x ∷ xs) ys zs = ap (◌∷◌ x) (append_assoc xs ys zs)

  pub take_all : (n : ℕ) (xs : List A) → length xs ≤ n → take n xs ≡ xs
  take_all zero [] h = refl
  take_all zero (x ∷ xs) h = absurd (omega arith)
  take_all (suc n) [] h = refl
  take_all (suc n) (x ∷ xs) h = ap (◌∷◌ x) (take_all n xs (omega arith))

  pub take-append-drop : (n : ℕ) (xs : List A) → xs ≡ take n xs ++ drop n xs
  take-append-drop zero xs = refl
  take-append-drop (suc n) [] = refl
  take-append-drop (suc n) (x ∷ xs) = ap (◌∷◌ x) (take-append-drop n xs)

  pub drop-drop : (m n k : ℕ) (xs : List A) → k ≡ m + n → drop n (drop m xs) ≡ drop k xs
  drop-drop zero n k xs e = ap (λ i. drop i xs) (omega arith)
  drop-drop (suc m) n zero xs e = absurd (omega arith)
  drop-drop (suc m) zero (suc k) [] e = refl
  drop-drop (suc m) (suc n) (suc k) [] e = refl
  drop-drop (suc m) n (suc k) (x ∷ xs) e = drop-drop m n k xs (omega arith)

  -- a longer prefix, as a shorter one and the rest
  pub take_add : (m n k : ℕ) (xs : List A) → k ≡ m + n → take k xs ≡ take m xs ++ take n (drop m xs)
  take_add zero n k xs e = ap (λ i. take i xs) (omega arith)
  take_add (suc m) n zero xs e = absurd (omega arith)
  take_add (suc m) zero (suc k) [] e = refl
  take_add (suc m) (suc n) (suc k) [] e = refl
  take_add (suc m) n (suc k) (x ∷ xs) e = ap (◌∷◌ x) (take_add m n k xs (omega arith))

  pub take-splice :
      (xs : List A) (i : ℕ) (ys : List A) (k : ℕ)
      → k ≡ i + length ys
      → k ≤ length xs
      → take k (splice xs i ys) ≡ take i xs ++ ys
  take-splice [] zero [] zero e h = refl
  take-splice [] i ys (suc k) e h = absurd (omega arith)
  take-splice [] zero (y ∷ ys) zero e h = absurd (omega arith)
  take-splice [] (suc i) ys zero e h = absurd (omega arith)
  take-splice (x ∷ xs) zero [] zero e h = refl
  take-splice (x ∷ xs) zero [] (suc k) e h = absurd (omega arith)
  take-splice (x ∷ xs) zero (y ∷ ys) zero e h = absurd (omega arith)
  take-splice (x ∷ xs) zero (y ∷ ys) (suc k) e h =
      ap (◌∷◌ y) (take-splice xs zero ys k (omega arith) (omega arith))
  take-splice (x ∷ xs) (suc i) ys zero e h = absurd (omega arith)
  take-splice (x ∷ xs) (suc i) ys (suc k) e h =
      ap (◌∷◌ x) (take-splice xs i ys k (omega arith) (omega arith))

  -- the part before a splice
  pub take-splice_before :
      (n : ℕ) (xs : List A) (i : ℕ) (ys : List A) → n ≤ i → take n (splice xs i ys) ≡ take n xs
  take-splice_before zero xs i ys h = refl
  take-splice_before (suc n) [] i ys h = refl
  take-splice_before (suc n) (x ∷ xs) zero ys h = absurd (omega arith)
  take-splice_before (suc n) (x ∷ xs) (suc i) ys h =
      ap (◌∷◌ x) (take-splice_before n xs i ys (omega arith))

  -- the part after a splice
  pub drop-splice_after :
      (n : ℕ) (xs : List A) (i : ℕ) (ys : List A)
      → i + length ys ≤ n
      → drop n (splice xs i ys) ≡ drop n xs
  drop-splice_after n [] i ys h = refl
  drop-splice_after n (x ∷ xs) zero [] h = refl
  drop-splice_after zero (x ∷ xs) zero (y ∷ ys) h = absurd (omega arith)
  drop-splice_after (suc n) (x ∷ xs) zero (y ∷ ys) h = drop-splice_after n xs zero ys (omega arith)
  drop-splice_after zero (x ∷ xs) (suc i) ys h = absurd (omega arith)
  drop-splice_after (suc n) (x ∷ xs) (suc i) ys h = drop-splice_after n xs i ys (omega arith)

  -- a splice seen from an offset before it
  pub drop-splice :
      (n : ℕ) (xs : List A) (i k : ℕ) (ys : List A)
      → k ≡ n + i
      → drop n (splice xs k ys) ≡ splice (drop n xs) i ys
  drop-splice zero xs i k ys e = ap (λ j. splice xs j ys) (omega arith)
  drop-splice (suc n) [] i k ys e = refl
  drop-splice (suc n) (x ∷ xs) i zero ys e = absurd (omega arith)
  drop-splice (suc n) (x ∷ xs) i (suc k) ys e = drop-splice n xs i k ys (omega arith)

  pub take-append : (xs ys : List A) → take (length xs) (xs ++ ys) ≡ xs
  take-append [] ys = refl
  take-append (x ∷ xs) ys = ap (◌∷◌ x) (take-append xs ys)
