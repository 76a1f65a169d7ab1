-- ===== src/Scull/Place.antt =====
-- 实验7/scull/main.c: the positions of one quantum, and those of different quanta.
use native.Mathlib.Nat.{add-mul-div_left, add_comm, div-add-mod, mul-le-mul_left}
use linux_kernel_experiment.Prelude.{
  ℕ, suc, ◌+◌, ◌*◌, ◌/◌, ◌%◌, ◌<◌, ◌≤◌, ◌≡◌, refl, arith, ◌∙◌, ap,
}
use linux_kernel_experiment.Scull.Geometry.{Geometry, s_of, q_of, s_of-lt, place_eq}

-- Quotient and remainder are the only ones.
pub div-mod_unique : (d a r p : ℕ) → p ≡ d * a + r → r < d → (p / d ≡ a) × (p % d ≡ r)
div-mod_unique d a r p e h = (quotient, omega (arith, div-add-mod p d, ap (◌*◌ d) quotient))
  where
    below : r / d ≡ 0
    below = grind (arith, div-add-mod r d)

    quotient : p / d ≡ a
    quotient =
        ap (λ k. k / d) (e ∙ add_comm (d * a) r)
        ∙ (add-mul-div_left r a (omega arith) ∙ omega (arith, below))

module _ {q s : ℕ} (g : Geometry q s) where
  -- `place_eq` the other way round: the parts of a position given by its place.
  pub place_unique :
      (p i j o : ℕ)
      → p ≡ q * s * i + (q * j + o)
      → j < s
      → o < q
      → (p / (q * s) ≡ i) × (s_of q s p ≡ j) × (q_of q s p ≡ o)
  place_unique p i j o e hj ho = (outer.0, rw outer.1 inner.0, rw outer.1 inner.1)
    where
      small : q * j + o < q * s
      small = grind arith

      outer : (p / (q * s) ≡ i) × (p % (q * s) ≡ q * j + o)
      outer = div-mod_unique (q * s) i (q * j + o) p e small

      inner : ((q * j + o) / q ≡ j) × ((q * j + o) % q ≡ o)
      inner = div-mod_unique q j o (q * j + o) refl ho

  -- The next positions of the same quantum.
  pub place-add :
      (p i : ℕ)
      → q_of q s p + i < q
      → ((p + i) / (q * s) ≡ p / (q * s))
        × (s_of q s (p + i) ≡ s_of q s p)
        × (q_of q s (p + i) ≡ q_of q s p + i)
  place-add p i h =
      place_unique (p + i) (p / (q * s)) (s_of q s p) (q_of q s p + i) (omega (arith, place_eq g p))
        (s_of-lt g p) h

  -- A position of the same quantum is as far off as its offset says.
  pub same_quantum :
      (p p' : ℕ)
      → p' / (q * s) ≡ p / (q * s)
      → s_of q s p' ≡ s_of q s p
      → p' + q_of q s p ≡ p + q_of q s p'
  same_quantum p p' e e' =
      omega (arith, place_eq g p, place_eq g p', ap (◌*◌ (q * s)) e, ap (◌*◌ q) e')

  -- A quantum ends inside its item.
  pub quantum_end : (p n : ℕ) → q_of q s p + n ≤ q → p + n ≤ suc (p / (q * s)) * (q * s)
  quantum_end p n h = omega (arith, place_eq g p, mul-le-mul_left q (s_of-lt g p))
