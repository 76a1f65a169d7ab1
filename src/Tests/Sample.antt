-- ===== src/Tests/Sample.antt =====
-- A kernel for the tests: memory is never short, new blocks hold the byte 0xaa, and a copy fails
-- where it would leave the user's buffer.
use linux_kernel_experiment.Prelude.{
  ℕ, zero, suc, ◌-◌, ◌≡◌, refl, ap, some, none, List, [], ◌∷◌, ◌++◌, length, take, drop, arith, leb,
  if◌then◌else◌,
}
use linux_kernel_experiment.Kernel.{Kernel, Memory}

-- the `n` bytes of a partial copy, filled up with zeros
abbrev pub padded : ℕ → List ℕ → List ℕ
padded zero user = []
padded (suc n) [] = 0 ∷ padded n []
padded (suc n) (x ∷ user) = x ∷ padded n user

abbrev pub deliver : List ℕ → List ℕ → List ℕ × ℕ
deliver user bytes =
    if leb (length bytes) (length user)
    then (bytes ++ drop (length bytes) user, 0)
    else (user, length bytes)

pub length-padded : (n : ℕ) (user : List ℕ) → length (padded n user) ≡ n
length-padded zero user = refl
length-padded (suc n) [] = ap suc (length-padded n [])
length-padded (suc n) (x ∷ user) = ap suc (length-padded n user)

pub padded-take : (n : ℕ) (user : List ℕ) → n - length user ≡ 0 → padded n user ≡ take n user
padded-take zero user h = refl
padded-take (suc n) [] h = absurd (omega arith)
padded-take (suc n) (x ∷ user) h = ap (◌∷◌ x) (padded-take n user (omega arith))

pub deliver_whole :
    (user bytes : List ℕ)
    → (deliver user bytes).1 ≡ 0
    → (deliver user bytes).0 ≡ bytes ++ drop (length bytes) user
deliver_whole user bytes h = ground arith

abbrev pub sample : Kernel
sample = record {
  kmalloc = λ _ _. some (λ _. 0xaa);
  copy_from_user = λ user n. (padded n user, n - length user);
  copy_to_user = deliver;
  length-copy_from_user = λ user n. length-padded n user;
  copy_from_user_all = λ user n. padded-take n user;
  copy_to_user_all = deliver_whole;
}

-- the same with no memory left
abbrev pub exhausted : Kernel
exhausted = record sample { kmalloc = λ _ _. none }

abbrev pub no_memory_used : Memory
no_memory_used = record { requests = 0; granted = 0; freed = 0 }
