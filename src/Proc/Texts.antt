-- ===== src/Proc/Texts.antt =====
-- 实验4 and 实验5: the array after a write, and the text in it.
use linux_kernel_experiment.Prelude.{
  ℕ, zero, suc, ◌-◌, ◌≡◌, ◌≤◌, ◌<◌, ◌≢◌, refl, ap, sym, subst, ◌∙◌, ◌⊎◌, inl, inr, false, some,
  List, [], ◌∷◌, All, length, take, splice, set, ltb, ◌==◌, if◌then◌else◌, length-splice,
  length-set, arith, Bool-cases, ne→==, ==→eq,
}
use linux_kernel_experiment.Kernel.{Kernel, done, count, error, efault}
use linux_kernel_experiment.Proc.Value.{text, stored, write_value}

-- the bytes that a write keeps
abbrev pub kept : ℕ → ℕ → ℕ
kept limit n = if ltb limit n then limit else n

abbrev pub IsByte : ℕ → Type 0
IsByte b = b ≢ 0

-- an array that begins with `bytes`, with a 0 in the place of the last of them
text-set :
    (value bytes : List ℕ) (n : ℕ)
    → length bytes ≡ suc n
    → suc n ≤ length value
    → All IsByte (take n bytes)
    → text (set (splice value 0 bytes) n 0) ≡ some (take n bytes)
text-set [] bytes n e h all = absurd (omega arith)
text-set (v ∷ vs) [] n e h all = absurd (omega arith)
text-set (v ∷ vs) (b ∷ bs) zero e h all = refl
text-set (v ∷ vs) (b ∷ bs) (suc n) e h all =
    rw (ne→== b 0 all.0, text-set vs bs n (omega arith) (omega arith) all.1) refl

take-take : (n : ℕ) (xs : List ℕ) → take n (take (suc n) xs) ≡ take n xs
take-take zero xs = refl
take-take (suc n) [] = refl
take-take (suc n) (x ∷ xs) = ap (◌∷◌ x) (take-take n xs)

stored-text :
    (value user bytes : List ℕ) (m left : ℕ)
    → length bytes ≡ suc m
    → suc m ≤ length value
    → (left ≡ 0 → bytes ≡ take (suc m) user)
    → All IsByte (take m user)
    → (value' : List ℕ) × (length value' ≡ length value)
      × ((stored value (suc m) (bytes, left) ≡ done (value', error efault))
          ⊎ ((stored value (suc m) (bytes, left) ≡ done (value', count (suc m)))
              × (text value' ≡ some (take m user))))
stored-text value user bytes m left len room good all =
    let inside : ltb (length value) (length bytes) ≡ false = ground arith in
    elim (Bool-cases (left == 0)) [
      | inr some_left ↦
          (splice value 0 bytes, length-splice value 0 bytes, inl (rw (inside, some_left) refl))
      | inl whole ↦
          let same = ap (take m) (good (==→eq left 0 whole)) ∙ take-take m user in
          (
            set (splice value 0 bytes) m 0,
            length-set (splice value 0 bytes) m 0 ∙ length-splice value 0 bytes,
            inr (
              rw (inside, whole) refl,
              text-set value bytes m len room (subst (All IsByte) (sym same) all) ∙ ap some same,
            ),
          )
    ]

stored_len :
    (value user bytes : List ℕ) (limit len m left : ℕ)
    → length value ≡ limit
    → len ≡ suc m
    → length bytes ≡ len
    → len ≤ limit
    → (left ≡ 0 → bytes ≡ take len user)
    → All IsByte (take m user)
    → (value' : List ℕ) × (length value' ≡ limit)
      × ((stored value len (bytes, left) ≡ done (value', error efault))
          ⊎ ((stored value len (bytes, left) ≡ done (value', count len))
              × (text value' ≡ some (take m user))))
stored_len value user bytes limit len m left el size len_bytes room good all =
    let (value', same, outcome) =
      stored-text value user bytes m left (len_bytes ∙ size) (omega arith)
        (λ whole. good whole ∙ ap (λ i. take i user) size) all in
    (value', same ∙ el, rw size outcome)

-- A write of at least one byte to an array of at least one, where no byte but the last that is kept is 0,
-- writes nothing behind the array. It fails as the copy does, or it returns how many bytes it took, and the array
-- then holds the text of all but the last of them.
pub write_value-text :
    (k : Kernel) (limit : ℕ) (value user : List ℕ) (n : ℕ)
    → length value ≡ limit
    → 0 < limit
    → 0 < n
    → All IsByte (take (kept limit n - 1) user)
    → (value' : List ℕ) × (length value' ≡ limit)
      × ((write_value k limit value user n ≡ done (value', error efault))
          ⊎ ((write_value k limit value user n ≡ done (value', count (kept limit n)))
              × (text value' ≡ some (take (kept limit n - 1) user))))
unfolding write_value
write_value-text k limit value user n e hl hn all =
    let (bytes, left) = k.copy_from_user user (kept limit n) in
    stored_len value user bytes limit (kept limit n) (kept limit n - 1) left e (ground arith)
      (k.length-copy_from_user user (kept limit n)) (ground arith)
      (k.copy_from_user_all user (kept limit n)) all
