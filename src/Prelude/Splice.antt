-- ===== src/Prelude/Splice.antt =====
-- Writing a run of bytes into a block, and reading one out of it.
use Prim.Native.Nat.{ℕ, zero, suc, ◌+◌, ◌≤◌, ◌<◌}
use mathlib.Core.Path.{◌≡◌, refl, ap, ◌∙◌}
use mathlib.Core.Logic.{◌⊎◌, inr}
use mathlib.Core.List.{List, [], ◌∷◌}
use native.Mathlib.Omega.{arith}
use linux_kernel_experiment.Prelude.Lists.{
  length, get_elem?, take, drop, get_elem?-take, get_elem?-drop, length-take, length-drop,
}

module _ {ℓ} {A : Type ℓ} where
  -- `memcpy(xs + i, ys, length ys)`; what would fall outside `xs` is dropped
  abbrev pub splice : List A → ℕ → List A → List A
  splice [] i ys = []
  splice (x ∷ xs) zero [] = x ∷ xs
  splice (x ∷ xs) zero (y ∷ ys) = y ∷ splice xs zero ys
  splice (x ∷ xs) (suc i) ys = x ∷ splice xs i ys

  -- the `n` bytes from offset `i` on
  abbrev pub slice : List A → ℕ → ℕ → List A
  slice xs i n = take n (drop i xs)

  pub length-splice : (xs : List A) (i : ℕ) (ys : List A) → length (splice xs i ys) ≡ length xs
  length-splice [] i ys = refl
  length-splice (x ∷ xs) zero [] = refl
  length-splice (x ∷ xs) zero (y ∷ ys) = ap suc (length-splice xs zero ys)
  length-splice (x ∷ xs) (suc i) ys = ap suc (length-splice xs i ys)

  pub splice-nil : (xs : List A) (i : ℕ) → splice xs i [] ≡ xs
  splice-nil [] i = refl
  splice-nil (x ∷ xs) zero = refl
  splice-nil (x ∷ xs) (suc i) = ap (◌∷◌ x) (splice-nil xs i)

  pub get_elem?-splice_in :
      (xs : List A) (i : ℕ) (ys : List A) (j k : ℕ)
      → k ≡ i + j
      → j < length ys
      → k < length xs
      → get_elem? (splice xs i ys) k ≡ get_elem? ys j
  get_elem?-splice_in [] i ys j k e hj hk = elim hk [ ]
  get_elem?-splice_in (x ∷ xs) zero [] j k e hj hk = elim hj [ ]
  get_elem?-splice_in (x ∷ xs) zero (y ∷ ys) zero zero e hj hk = refl
  get_elem?-splice_in (x ∷ xs) zero (y ∷ ys) zero (suc k) e hj hk = absurd (omega arith)
  get_elem?-splice_in (x ∷ xs) zero (y ∷ ys) (suc j) zero e hj hk = absurd (omega arith)
  get_elem?-splice_in (x ∷ xs) zero (y ∷ ys) (suc j) (suc k) e hj hk =
      get_elem?-splice_in xs zero ys j k (omega arith) (omega arith) (omega arith)
  get_elem?-splice_in (x ∷ xs) (suc i) ys j zero e hj hk = absurd (omega arith)
  get_elem?-splice_in (x ∷ xs) (suc i) ys j (suc k) e hj hk =
      get_elem?-splice_in xs i ys j k (omega arith) (omega arith) (omega arith)

  pub get_elem?-splice_out :
      (xs : List A) (i : ℕ) (ys : List A) (k : ℕ)
      → (k < i) ⊎ (i + length ys ≤ k)
      → get_elem? (splice xs i ys) k ≡ get_elem? xs k
  get_elem?-splice_out [] i ys k h = refl
  get_elem?-splice_out (x ∷ xs) zero [] k h = refl
  get_elem?-splice_out (x ∷ xs) zero (y ∷ ys) zero h = absurd (omega arith)
  get_elem?-splice_out (x ∷ xs) zero (y ∷ ys) (suc k) h =
      get_elem?-splice_out xs zero ys k (inr (omega arith))
  get_elem?-splice_out (x ∷ xs) (suc i) ys zero h = refl
  get_elem?-splice_out (x ∷ xs) (suc i) ys (suc k) h = get_elem?-splice_out xs i ys k (omega arith)

  pub get_elem?-slice :
      (xs : List A) (i n j : ℕ) → j < n → get_elem? (slice xs i n) j ≡ get_elem? xs (i + j)
  get_elem?-slice xs i n j h = get_elem?-take n (drop i xs) j h ∙ get_elem?-drop i xs j

  pub length-slice : (xs : List A) (i n : ℕ) → i + n ≤ length xs → length (slice xs i n) ≡ n
  length-slice xs i n h = omega (arith, length-take n (drop i xs), length-drop i xs)
