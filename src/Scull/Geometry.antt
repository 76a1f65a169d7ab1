-- ===== src/Scull/Geometry.antt =====
-- 实验7/scull/main.c: where `scull_read` and `scull_write` look for a position. For a positive
-- geometry that fits an `int` the machine arithmetic is the arithmetic of numbers.
use linux_kernel_experiment.Prelude.{
  ℕ, ◌+◌, ◌-◌, ◌*◌, ◌/◌, ◌%◌, ◌^◌, ◌<◌, ◌≡◌, some, pos, bits32, to_int-pos, bits32-pos, mul-pos,
  sub-pos, ltb, if◌then◌else◌, arith,
}
use native.Mathlib.Nat.{mod-lt, div-add-mod, div-lt_iff_lt-mul, div-le_self, add-zero, mul_comm}
use linux_kernel_experiment.Scull.Transfer.{locate, clip, array_size}

-- `q` bytes to a quantum and `s` quanta to an item
pub record Geometry (q s : ℕ) : Type 0 where
  pub quantum_pos : 0 < q
  pub qset_pos : 0 < s
  pub fits : q * s < 2 ^ 31
  pub small : s < 2 ^ 30

module _ {q s : ℕ} (g : Geometry q s) where
  pub item_pos : 0 < q * s
  item_pos = grind (arith, g.quantum_pos, g.qset_pos)

  pub quantum_small : q < 2 ^ 31
  quantum_small = grind (arith, g.qset_pos, g.fits)

abbrev pub s_of : ℕ → ℕ → ℕ → ℕ
s_of q s p = p % (q * s) / q

abbrev pub q_of : ℕ → ℕ → ℕ → ℕ
q_of q s p = p % (q * s) % q

module _ {q s : ℕ} (g : Geometry q s) where
  pub locate-pos :
      (p : ℕ)
      → p < 2 ^ 31
      → locate (pos q) (pos s) p
        ≡ some (record { item = p / (q * s); s_pos = pos (s_of q s p); q_pos = pos (q_of q s p) })
  unfolding locate
  locate-pos p h =
      rw (mul-pos, to_int-pos _ g.fits, to_int-pos _ h, add-zero (q * s), add-zero q)
        (ground (arith, item_pos g, div-le_self p (q * s)))

  pub s_of-lt : (p : ℕ) → s_of q s p < s
  s_of-lt p =
      (div-lt_iff_lt-mul g.quantum_pos).1 (omega (arith, mod-lt p (item_pos g), mul_comm q s))

  pub q_of-lt : (p : ℕ) → q_of q s p < q
  q_of-lt p = mod-lt (p % (q * s)) g.quantum_pos

  -- A position is its place: item, quantum and offset determine it.
  pub place_eq : (p : ℕ) → q * s * (p / (q * s)) + (q * s_of q s p + q_of q s p) ≡ p
  place_eq p = omega (arith, div-add-mod p (q * s), div-add-mod (p % (q * s)) q)

  pub clip-pos : (o n : ℕ) → o < q → clip (pos q) (pos o) n ≡ (if ltb (q - o) n then q - o else n)
  unfolding clip
  clip-pos o n h =
      rw (sub-pos q o (omega arith), bits32-pos (q - o) (omega (arith, quantum_small g)))

  pub array_size-eq : array_size (pos s) ≡ s * 4
  unfolding bits32
  array_size-eq = omega (arith, g.small)
