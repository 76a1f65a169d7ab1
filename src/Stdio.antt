-- ===== src/Stdio.antt =====
-- What the user programs of 实验1, 实验3 and 实验4 use of the C library to read a file by lines. What
-- `sscanf` makes of a line is a parameter of the programs.
use linux_kernel_experiment.Prelude.{
  ℕ, zero, suc, ◌≡◌, ◌≤◌, ◌<◌, ◌≢◌, refl, ap, ◌∙◌, Bool, true, false, inl, inr, ◌&&◌, Option, none,
  some, List, [], ◌∷◌, ◌++◌, All, length, ◌==◌, if◌then◌else◌, arith, Bool-cases, ne→==,
}

-- a line with its newline, but no more than `n` bytes, and the rest of the file
abbrev pub line : ℕ → List ℕ → List ℕ × List ℕ
line zero file = ([], file)
line (suc n) [] = ([], [])
line (suc n) (x ∷ file) =
    let (l, rest) = line n file in if x == 10 then (x ∷ [], file) else (x ∷ l, rest)

-- `fgets(buffer, n + 1, file)`; `none` is NULL, at the end of the file
abbrev pub fgets : ℕ → List ℕ → Option (List ℕ × List ℕ)
fgets n [] = none
fgets n (x ∷ file) = some (line n (x ∷ file))

-- what `while (fgets(buffer, n + 1, file) != NULL)` sees, in order
unfoldable pub pieces : ℕ → ℕ → List ℕ → List (List ℕ)
pieces zero n file = []
pieces (suc fuel) n [] = []
pieces (suc fuel) n (x ∷ file) = let (l, rest) = line n (x ∷ file) in l ∷ pieces fuel n rest

abbrev pub all_pieces : ℕ → List ℕ → List (List ℕ)
all_pieces n file = pieces (length file) n file

-- `strcmp(a, b) == 0`
abbrev pub equal_texts : List ℕ → List ℕ → Bool
equal_texts [] [] = true
equal_texts [] (y ∷ ys) = false
equal_texts (x ∷ xs) [] = false
equal_texts (x ∷ xs) (y ∷ ys) = let rest = equal_texts xs ys in (x == y) && rest

-- A line and the rest are the file.
line_whole : (n : ℕ) (file : List ℕ) → (line n file).0 ++ (line n file).1 ≡ file
line_whole zero file = refl
line_whole (suc n) [] = refl
line_whole (suc n) (x ∷ file) = elim (Bool-cases (x == 10)) [
  | inl last ↦ rw last refl
  | inr more ↦ rw more (ap (◌∷◌ x) (line_whole n file))
]

line_shorter : (n x : ℕ) (file : List ℕ) → length (line (suc n) (x ∷ file)).1 ≤ length file
line_shorter zero x file = ground arith
line_shorter (suc n) x [] = ground arith
line_shorter (suc n) x (y ∷ file) = elim (Bool-cases (x == 10)) [
  | inl last ↦ rw last (omega arith)
  | inr more ↦ rw more (omega (arith, line_shorter n y file))
]

abbrev pub joined : List (List ℕ) → List ℕ
joined [] = []
joined (l ∷ more) = l ++ joined more

-- The pieces are the file, where a piece may hold a byte and there is fuel for each byte.
joined-pieces :
    (fuel n : ℕ) (file : List ℕ) → length file ≤ fuel → joined (pieces fuel (suc n) file) ≡ file
unfolding pieces
joined-pieces zero n [] h = refl
joined-pieces zero n (x ∷ file) h = absurd (omega arith)
joined-pieces (suc fuel) n [] h = refl
joined-pieces (suc fuel) n (x ∷ file) h =
    ap (◌++◌ (line (suc n) (x ∷ file)).0)
      (joined-pieces fuel n (line (suc n) (x ∷ file)).1 (omega (arith, line_shorter n x file)))
    ∙ line_whole (suc n) (x ∷ file)

-- a text without a newline
abbrev pub IsLine : List ℕ → Type 0
IsLine t = All (λ x. x ≢ 10) t

-- A line that fits is read whole.
pub line_fits :
    (n : ℕ) (text file : List ℕ)
    → IsLine text
    → length text < n
    → line n (text ++ 10 ∷ file) ≡ (text ++ 10 ∷ [], file)
line_fits zero text file h e = absurd (omega arith)
line_fits (suc n) [] file h e = refl
line_fits (suc n) (x ∷ text) file h e =
    rw (ne→== x 10 h.0, line_fits n text file h.1 (omega arith)) refl
