-- ===== src/Shell/Tokens.antt =====
-- 实验2/exp2.c: `strtok`, as the C library documents it, and the loops around it.
use linux_kernel_experiment.Prelude.{
  ℕ, zero, suc, Bool, false, ◌||◌, Option, none, some, List, [], ◌∷◌, ◌==◌, if◌then◌else◌,
}

-- `strchr(delims, c) != NULL`
abbrev pub is_in : ℕ → List ℕ → Bool
is_in c [] = false
is_in c (d ∷ l) = let rest = is_in c l in (c == d) || rest

abbrev pub skip : List ℕ → List ℕ → List ℕ
skip delims [] = []
skip delims (c ∷ s) = let rest = skip delims s in if is_in c delims then rest else c ∷ s

-- the bytes before the first delimiter, and those after it
abbrev pub until : List ℕ → List ℕ → List ℕ × List ℕ
until delims [] = ([], [])
until delims (c ∷ s) =
    let (token, rest) = until delims s in if is_in c delims then ([], s) else (c ∷ token, rest)

-- a token, or NULL, and what the next call goes on with
abbrev pub next_token : List ℕ → List ℕ → Option (List ℕ) × List ℕ
next_token delims [] = (none, [])
next_token delims (c ∷ s) = let (token, rest) = until delims (c ∷ s) in (some token, rest)

-- `strtok`
unfoldable pub strtok : List ℕ → List ℕ → Option (List ℕ) × List ℕ
strtok delims s = next_token delims (skip delims s)

abbrev pub cons_token : Option (List ℕ) → List (List ℕ) → List (List ℕ)
cons_token none more = []
cons_token (some t) more = t ∷ more

-- `while (p = strtok(NULL, delims))`: the tokens, at most as many as the fuel
unfoldable pub tokens : ℕ → List ℕ → List ℕ → List (List ℕ)
tokens zero delims s = []
tokens (suc fuel) delims s =
    let (token, rest) = strtok delims s in
    let more = tokens fuel delims rest in cons_token token more
