-- ===== src/Access/Ownership.antt =====
-- 实验7/scull/access.c: who can have the per-user devices open at the same time.
use linux_kernel_experiment.Prelude.{
  ℕ, zero, suc, ◌+◌, ◌^◌, ◌<◌, ◌≡◌, ◌⊎◌, inl, inr, refl, ap, sym, subst, ◌≤◌, ◌∙◌, true, false,
  List, [], ◌∷◌, All, length, if◌then◌else◌, arith, Bool-cases, pos, ◌+ℤ◌, ◌-ℤ◌, to_int, eqb_ℤ, ltb,
}
use linux_kernel_experiment.Access.Owner.{
  Cred, Lock, available_to, refused_to, grab, let_go, Held, Use, enter, leave_at, remove, use_lock,
  use_all, w_release,
}

-- the owner itself, a process that acts for the owner, or one with CAP_DAC_OVERRIDE
abbrev pub Entitled : ℕ → Cred → Type 0
Entitled owner c = (owner ≡ c.uid) ⊎ (owner ≡ c.euid) ⊎ (c.overrides ≡ true)

pub record IsOwned (h : Held) : Type 0 where
  pub counted : h.lock.openings ≡ pos (length h.holders)
  pub entitled : All (Entitled h.lock.owner) h.holders

up : (n : ℕ) → n < 2 ^ 30 → to_int (pos n +ℤ pos 1) ≡ pos (suc n)
unfolding to_int ◌+ℤ◌
up n h = ground arith

down : (n : ℕ) → n < 2 ^ 30 → to_int (pos (suc n) -ℤ pos 1) ≡ pos n
unfolding to_int ◌-ℤ◌
down n h = ground arith

refused_to-Entitled :
    (c : Cred) (l : Lock)
    → refused_to c l ≡ false
    → (eqb_ℤ l.openings (pos 0) ≡ true) ⊎ Entitled l.owner c
refused_to-Entitled c l h = ground arith

length-remove : (n : ℕ) (cs : List Cred) → n < length cs → suc (length (remove n cs)) ≡ length cs
length-remove n [] h = absurd (omega arith)
length-remove zero (c ∷ cs) h = refl
length-remove (suc n) (c ∷ cs) h = ap suc (length-remove n cs (omega arith))

All-remove : (o n : ℕ) (cs : List Cred) → All (Entitled o) cs → All (Entitled o) (remove n cs)
All-remove o n [] h = h
All-remove o zero (c ∷ cs) (p, h) = h
All-remove o (suc n) (c ∷ cs) (p, h) = (p, All-remove o n cs h)

grab-Entitled :
    (c : Cred) (l : Lock) (cs : List Cred)
    → l.openings ≡ pos (length cs)
    → All (Entitled l.owner) cs
    → refused_to c l ≡ false
    → All (Entitled (grab c l).owner) (c ∷ cs)
grab-Entitled c l [] e h free =
    let first : eqb_ℤ l.openings (pos 0) ≡ true = ap (λ a. eqb_ℤ a (pos 0)) e in
    let owned : (grab c l).owner ≡ c.uid = ap (λ t. if t then c.uid else l.owner) first in
    (inl owned, tt)
grab-Entitled c l (x ∷ xs) e h free =
    let later : eqb_ℤ l.openings (pos 0) ≡ false = ap (λ a. eqb_ℤ a (pos 0)) e ∙ ground arith in
    let owned : (grab c l).owner ≡ l.owner = ap (λ t. if t then c.uid else l.owner) later in
    subst (λ o. All (Entitled o) (c ∷ x ∷ xs)) (sym owned)
      (
        elim (refused_to-Entitled c l free) [
          | inl zero_openings ↦ absurd (ground (arith, later, zero_openings))
          | inr able ↦ able
        ],
        h,
      )

enter-IsOwned :
    (h : Held) (c : Cred)
    → length h.holders < 2 ^ 30
    → IsOwned h
    → refused_to c h.lock ≡ false
    → IsOwned (record { lock = grab c h.lock; holders = c ∷ h.holders })
enter-IsOwned h c few o free = record {
  counted = ap (λ a. to_int (a +ℤ pos 1)) o.counted ∙ up (length h.holders) few;
  entitled = grab-Entitled c h.lock h.holders o.counted o.entitled free;
}

leave_at-IsOwned :
    (h : Held) (n : ℕ)
    → length h.holders < 2 ^ 30
    → n < length h.holders
    → IsOwned h
    → IsOwned (record { lock = let_go h.lock; holders = remove n h.holders })
unfolding let_go
leave_at-IsOwned h n few inside o = record {
  counted =
      ap (λ a. to_int (a -ℤ pos 1)) (o.counted ∙ ap pos (sym (length-remove n h.holders inside)))
      ∙ down (length (remove n h.holders)) (omega (arith, length-remove n h.holders inside));
  entitled = All-remove h.lock.owner n h.holders o.entitled;
}

-- one use keeps the invariant and adds at most one holder
use_lock-IsOwned :
    (h : Held) (u : Use)
    → length h.holders < 2 ^ 30
    → IsOwned h
    → IsOwned (use_lock h u) × (length (use_lock h u).holders ≤ suc (length h.holders))
unfolding use_lock
use_lock-IsOwned h (enter c) few o = elim (Bool-cases (refused_to c h.lock)) [
  | inl refused ↦ rw (use_lock, refused) (o, omega arith)
  | inr free ↦ rw (use_lock, free) (enter-IsOwned h c few o free, omega arith)
]
use_lock-IsOwned h (leave_at n) few o = elim (Bool-cases (ltb n (length h.holders))) [
  | inl inside ↦
      let shorter = length-remove n h.holders (ground arith) in
      rw (use_lock, inside) (leave_at-IsOwned h n few (ground arith) o, omega (arith, shorter))
  | inr outside ↦ rw (use_lock, outside) (o, omega arith)
]

-- Let the counter of a per-user device be the number of its openings, and everyone who has it open
-- be its owner, act for the owner, or have CAP_DAC_OVERRIDE. This is so still after any sequence
-- of opens and releases, if openings and calls together are fewer than 2^30.
pub use_all-IsOwned :
    (h : Held) (us : List Use)
    → length h.holders + length us < 2 ^ 30
    → IsOwned h
    → IsOwned (use_all h us)
unfolding use_all
use_all-IsOwned h [] few o = o
use_all-IsOwned h (u ∷ us) few o =
    let (o', more) = use_lock-IsOwned h u (omega arith) o in
    use_all-IsOwned (use_lock h u) us (omega arith) o'

-- On a device in use, `scull_w_release` wakes the waiting processes exactly if nobody has the device open
-- any more, and then any process may open it.
pub w_release-available_to :
    (h : Held) (n : ℕ) (c : Cred)
    → length h.holders < 2 ^ 30
    → n < length h.holders
    → IsOwned h
    → (((w_release h.lock).1 ≡ true)
        × (remove n h.holders ≡ [])
        × (available_to c (w_release h.lock).0 ≡ true))
      ⊎ (((w_release h.lock).1 ≡ false) × (0 < length (remove n h.holders)))
unfolding let_go
w_release-available_to h n c few inside o =
    let o' = leave_at-IsOwned h n few inside o in
    released (remove n h.holders) (let_go h.lock) c o'.counted
  where
    released :
        (cs : List Cred) (l : Lock) (c : Cred)
        → l.openings ≡ pos (length cs)
        → ((eqb_ℤ l.openings (pos 0) ≡ true) × (cs ≡ []) × (available_to c l ≡ true))
          ⊎ ((eqb_ℤ l.openings (pos 0) ≡ false) × (0 < length cs))
    released [] l c e =
        let none_left : eqb_ℤ l.openings (pos 0) ≡ true = ap (λ a. eqb_ℤ a (pos 0)) e in
        inl (none_left, refl, rw none_left refl)
    released (x ∷ xs) l c e = inr (ap (λ a. eqb_ℤ a (pos 0)) e ∙ ground arith, omega arith)
