-- ===== src/Chrdev/Tally.antt =====
-- How often a span is registered, and what the operations do to that number.
use linux_kernel_experiment.Prelude.{
  ℕ, zero, suc, ◌+◌, ◌-◌, ◌≡◌, refl, ap, ◌∙◌, inl, inr, Option, none, some, List, [], ◌∷◌, length,
  if◌then◌else◌, arith, Option-cases,
}
use linux_kernel_experiment.Chrdev.{
  Span, same, Ledger, Host, remove, add_cdev, cdev_del, Slot, add_each,
}

-- 1 where the two are the same
abbrev pub one : Span → Span → ℕ
one k a = if same k a then 1 else 0

abbrev pub tally : Span → List Span → ℕ
tally k [] = 0
tally k (a ∷ l) = one k a + tally k l

abbrev pub one? : Span → Option Span → ℕ
one? k none = 0
one? k (some a) = one k a

-- how many of an array's devices are registered under `k`
abbrev pub used : {D : Type 0} → Span → List (Slot D) → ℕ
used k [] = 0
used k (s ∷ l) = one? k s.cdev + used k l

pub tally-remove : (k a : Span) (l : List Span) → tally k (remove a l) ≡ tally k l - one k a
tally-remove k a [] = omega arith
tally-remove k a (b ∷ l) = ground (arith, tally-remove k a l)

pub tally-cdev_del :
    (k : Span) (c : Option Span) (l : Ledger)
    → tally k (cdev_del c l).cdevs ≡ tally k l.cdevs - one? k c
unfolding cdev_del
tally-cdev_del k none l = omega arith
tally-cdev_del k (some a) l = tally-remove k a l.cdevs

pub cdev_del-rest :
    (c : Option Span) (l : Ledger)
    → ((cdev_del c l).regions ≡ l.regions) × ((cdev_del c l).memory ≡ l.memory)
unfolding cdev_del
cdev_del-rest none l = (refl, refl)
cdev_del-rest (some a) l = (refl, refl)

pub record Added {D : Type 0} (l l' : Ledger) (n : ℕ) (d : D) (slots : List (Slot D)) : Type 0 where
  pub regions : l'.regions ≡ l.regions
  pub memory : l'.memory ≡ l.memory
  pub cdevs : (k : Span) → tally k l'.cdevs ≡ tally k l.cdevs + used k slots
  pub length_slots : length slots ≡ n

add_cdev_lem :
    (h : Host) (dev : ℕ) (l : Ledger)
    → ((add_cdev h dev l).1.regions ≡ l.regions)
      × ((add_cdev h dev l).1.memory ≡ l.memory)
      × ((k : Span)
          → tally k (add_cdev h dev l).1.cdevs ≡ tally k l.cdevs + one? k (add_cdev h dev l).0)
unfolding add_cdev
add_cdev_lem h dev l = elim (Option-cases (h.cdev_add l (record { first = dev; count = 1 }))) [
  | inl ok ↦ rw ok (refl, refl, λ k. omega arith)
  | inr (e, failed) ↦ rw failed (refl, refl, λ k. omega arith)
]

pub add_each-Added :
    {D : Type 0} (h : Host) (d : D) (dev : ℕ → ℕ) (i n : ℕ) (l : Ledger)
    → Added l (add_each h d dev i n l).1 n d (add_each h d dev i n l).0
unfolding add_each
add_each-Added h d dev i zero l = record {
  regions = refl;
  memory = refl;
  cdevs = λ k. omega arith;
  length_slots = refl;
}
add_each-Added h d dev i (suc n) l =
    let (c, l') = add_cdev h (dev i) l in
    let (regions, memory, cdevs) = add_cdev_lem h (dev i) l in
    let rest = add_each-Added h d dev (suc i) n l' in
    record {
      regions = rest.regions ∙ regions;
      memory = rest.memory ∙ memory;
      cdevs = λ k. omega (arith, rest.cdevs k, cdevs k);
      length_slots = ap suc rest.length_slots;
    }
