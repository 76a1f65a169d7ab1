-- ===== src/Timer/Fibonacci.antt =====
-- 实验3/mytimer.c: `fibonacci`. An `unsigned long` has 32 bits.
use linux_kernel_experiment.Prelude.{ℕ, zero, suc, ◌+◌, ◌%◌, ◌^◌, ◌≡◌, refl, arith}

-- the recursion, on the number `n` of type `unsigned int`
unfoldable pub fibonacci : ℕ → ℕ
fibonacci zero = 0
fibonacci (suc zero) = 1
fibonacci (suc (suc zero)) = 1
fibonacci (suc (suc (suc n))) = (fibonacci (suc (suc n)) + fibonacci (suc n)) % 2 ^ 32

-- two neighbours of the sequence, without a bound: step `n` times from (0, 1)
abbrev neighbours : ℕ → ℕ × ℕ
neighbours zero = (0, 1)
neighbours (suc n) = let (a, b) = neighbours n in (b, a + b)

-- the `n`-th number of the sequence
abbrev nth : ℕ → ℕ
nth n = (neighbours n).0

both : (n : ℕ) → (fibonacci n ≡ nth n % 2 ^ 32) × (fibonacci (suc n) ≡ nth (suc n) % 2 ^ 32)
unfolding fibonacci
both zero = (refl, refl)
both (suc zero) = (refl, refl)
both (suc (suc n)) = let h = both (suc n) in (h.1, omega (arith, h.0, h.1))

-- The recursion ends for every argument, with the number of the sequence, cut to 32 bits, that
-- adding the two neighbours step by step gives.
fibonacci-nth : (n : ℕ) → fibonacci n ≡ nth n % 2 ^ 32
fibonacci-nth n = (both n).0
