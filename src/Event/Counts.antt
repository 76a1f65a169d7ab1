-- ===== src/Event/Counts.antt =====
-- 实验6/others/exp6.c: the count of an event, and how many processes sleep on it.
use linux_kernel_experiment.Prelude.{
  ℕ, zero, suc, ◌+◌, ◌-◌, ◌^◌, ◌<◌, ◌≤◌, ◌≡◌, refl, ◌⊎◌, inl, inr, true, false, ℤ, pos, negsuc,
  pos_part, neg_part, ◌-ℤ◌, ◌+ℤ◌, to_int, ltb_ℤ, if◌then◌else◌, arith, Bool-cases,
}
use linux_kernel_experiment.Event.Queue.{Node}
use linux_kernel_experiment.Event.Calls.{take_one, raised, give_one, leb_ℤ}

-- The count is at most the first one, which is not negative, and is below 0 by the number of sleepers.
pub record IsCounted (v : Node) : Type 0 where
  pub first : ℕ
  pub init : v.init_count ≡ pos first
  pub small : first < 2 ^ 31 - 1
  pub limit : pos_part v.count ≤ first
  pub sleepers : v.asleep ≡ neg_part v.count
  pub few : v.asleep < 2 ^ 31

-- the count that a wait leaves: a waiter sleeps where it is below 0
taken_count :
    (c : ℤ)
    → pos_part c < 2 ^ 31
    → neg_part c < 2 ^ 31 - 1
    → (pos_part (to_int (c -ℤ pos 1)) ≤ pos_part c)
      × (((ltb_ℤ (to_int (c -ℤ pos 1)) (pos 0) ≡ true)
            × (neg_part (to_int (c -ℤ pos 1)) ≡ neg_part c + 1))
          ⊎ ((ltb_ℤ (to_int (c -ℤ pos 1)) (pos 0) ≡ false)
              × (neg_part (to_int (c -ℤ pos 1)) ≡ neg_part c)))
unfolding to_int ◌-ℤ◌
taken_count (pos zero) h k = (ground arith, inl (refl, refl))
taken_count (pos (suc n)) h k = (ground arith, inr (ground arith, ground arith))
taken_count (negsuc n) h k = (ground arith, inl (ground arith, ground arith))

-- the count that a signal leaves: it wakes a sleeper where it is at most 0
given_count :
    (c init : ℤ) (first : ℕ)
    → init ≡ pos first
    → first < 2 ^ 31 - 1
    → pos_part c ≤ first
    → neg_part c < 2 ^ 31
    → let n = (if leb_ℤ (to_int (c +ℤ pos 1)) init then to_int (c +ℤ pos 1) else c) in
      (pos_part n ≤ first)
      × (((leb_ℤ n (pos 0) ≡ true) × (neg_part n ≡ neg_part c - 1))
          ⊎ ((leb_ℤ n (pos 0) ≡ false) × (neg_part n ≡ neg_part c)))
unfolding to_int ◌+ℤ◌
given_count (pos n) init first e h l k = rw e (ground arith)
given_count (negsuc n) init first e h l k = rw e (ground arith)

pub take_one-IsCounted : (v : Node) → IsCounted v → v.asleep < 2 ^ 31 - 1 → IsCounted (take_one v).0
take_one-IsCounted v c few =
    let (limit, which) =
      taken_count v.count (omega (arith, c.limit, c.small)) (omega (arith, c.sleepers)) in
    elim which [
      | inl (below, more) ↦ rw below record {
        first = c.first;
        init = c.init;
        small = c.small;
        limit = omega (arith, limit, c.limit);
        sleepers = omega (arith, more, c.sleepers);
        few = omega arith;
      }
      | inr (above, same) ↦ rw above record {
        first = c.first;
        init = c.init;
        small = c.small;
        limit = omega (arith, limit, c.limit);
        sleepers = omega (arith, same, c.sleepers);
        few = omega arith;
      }
    ]

pub give_one-IsCounted : (v : Node) → IsCounted v → IsCounted (give_one v).0
give_one-IsCounted v c =
    let (limit, which) =
      given_count v.count v.init_count c.first c.init c.small c.limit
        (omega (arith, c.sleepers, c.few)) in
    elim which [
      | inl (low, less) ↦ rw low record {
        first = c.first;
        init = c.init;
        small = c.small;
        limit = limit;
        sleepers = omega (arith, less, c.sleepers);
        few = omega (arith, c.few);
      }
      | inr (high, same) ↦ rw high record {
        first = c.first;
        init = c.init;
        small = c.small;
        limit = limit;
        sleepers = omega (arith, same, c.sleepers);
        few = c.few;
      }
    ]

pub take_one-next : (v : Node) → (take_one v).0.next ≡ v.next
take_one-next v = elim (Bool-cases (ltb_ℤ (to_int (v.count -ℤ pos 1)) (pos 0))) [
  | inl e ↦ rw e refl
  | inr e ↦ rw e refl
]

pub give_one-next : (v : Node) → (give_one v).0.next ≡ v.next
give_one-next v = elim (Bool-cases (leb_ℤ (raised v) (pos 0))) [
  | inl e ↦ rw e refl
  | inr e ↦ rw e refl
]
