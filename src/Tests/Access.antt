-- ===== src/Tests/Access.antt =====
-- The access-controlled devices at small inputs.
use linux_kernel_experiment.Prelude.{
  ℕ, ◌≤◌, ◌≡◌, ◌⊎◌, refl, true, false, List, [], ◌∷◌, pos, arith, ◌+ℤ◌, ◌-ℤ◌, replicate, to_int,
  inl, length, ◌<◌,
}
use linux_kernel_experiment.Kernel.{error, ebusy, eagain, done}
use linux_kernel_experiment.Scull.Device.{Dev, Params}
use linux_kernel_experiment.Access.Single
use linux_kernel_experiment.Access.Single.{
  Stage, outside, undoing, inside, holders, busy, Counts, run-exclusive,
}
use linux_kernel_experiment.Access.Owner.{
  Cred, Lock, grab, let_go, copied_open, u_open, enters, turned_away, wait_for_turn, Held, Use,
  enter, leave_at, use_lock, use_all, w_release, remove, available_to,
}
use linux_kernel_experiment.Access.Ownership.{IsOwned, use_all-IsOwned, w_release-available_to}
use linux_kernel_experiment.Scull.Device.{trim, free_list}
use linux_kernel_experiment.Kernel.{Memory, Reply, count}
use linux_kernel_experiment.Prelude.{some, All}
use linux_kernel_experiment.Access.Private.{
  Item, IsFit, device_of, lookfor_device, trim_key, c_open, c_open-others,
}
use linux_kernel_experiment.Access.Turns.{u_open-available_to}
use linux_kernel_experiment.Tests.Sample.{sample, no_memory_used}

-- two opens race: the second loses, and the first releases before the loser puts the counter back
abbrev race : List ℕ
race = 0 ∷ 1 ∷ 0 ∷ []

first_two_race : Single.run race (pos 1) (replicate 2 outside) ≡ (pos 0, outside ∷ undoing ∷ [])
unfolding Single.run Single.schedule Single.advance to_int ◌+ℤ◌ ◌-ℤ◌
first_two_race = refl

run-exclusive_example :
    (holders (outside ∷ undoing ∷ []) ≤ 1) × Counts (pos 0) (busy (outside ∷ undoing ∷ []))
run-exclusive_example =
    run-exclusive 2 race (pos 0) (outside ∷ undoing ∷ []) (omega arith) first_two_race

abbrev alice : Cred
alice = record { uid = 1000; euid = 1000; overrides = false }

-- a `su` to alice
abbrev as_alice : Cred
as_alice = record { uid = 1001; euid = 1000; overrides = false }

abbrev bob : Cred
bob = record { uid = 1001; euid = 1001; overrides = false }

abbrev nobody : Held
nobody = record { lock = record { openings = pos 0; owner = 0 }; holders = [] }

abbrev uses : List Use
uses = enter alice ∷ enter bob ∷ enter as_alice ∷ leave_at 1 ∷ []

-- bob is refused, alice leaves
alice_leaves :
    use_all nobody uses
    ≡ record { lock = record { openings = pos 1; owner = 1000 }; holders = as_alice ∷ [] }
unfolding use_all use_lock let_go to_int ◌+ℤ◌ ◌-ℤ◌
alice_leaves = refl

use_all-IsOwned_example : IsOwned (use_all nobody uses)
use_all-IsOwned_example =
    use_all-IsOwned nobody uses (omega arith) (record { counted = refl; entitled = tt })

abbrev of_alice : Lock
of_alice = record { openings = pos 1; owner = 1000 }

abbrev params : Params
params = record { scull_quantum = pos 4; scull_qset = pos 3; scull_p_buffer = pos 8 }

abbrev empty : Dev
empty = record { qsets = []; quantum = pos 4; qset = pos 3; size = 0 }

u_open-available_to_example :
    ((wait_for_turn bob true of_alice empty no_memory_used []
        ≡ enters of_alice empty no_memory_used)
      × (u_open params bob 1 of_alice empty no_memory_used
          ≡ (grab bob of_alice, copied_open params 1 empty no_memory_used)))
    ⊎ ((wait_for_turn bob true of_alice empty no_memory_used [] ≡ turned_away eagain)
        × (u_open params bob 1 of_alice empty no_memory_used
            ≡ (of_alice, done (empty, no_memory_used, error ebusy))))
u_open-available_to_example = u_open-available_to params bob 1 of_alice empty no_memory_used

abbrev one_open : Held
one_open = record { lock = of_alice; holders = alice ∷ [] }

w_release-available_to_example :
    (((w_release of_alice).1 ≡ true)
      × (remove 0 (alice ∷ []) ≡ [])
      × (available_to bob (w_release of_alice).0 ≡ true))
    ⊎ (((w_release of_alice).1 ≡ false) × (0 < length (remove 0 (alice ∷ []))))
w_release-available_to_example =
    w_release-available_to one_open 0 bob (omega arith) (omega arith)
      (record { counted = refl; entitled = (inl refl, tt) })

abbrev two_terminals : List Item
two_terminals = record { device = empty; key = 1 } ∷ record { device = empty; key = 2 } ∷ []

abbrev third : Dev
third = record { qsets = []; quantum = pos 4; qset = pos 3; size = 0 }

abbrev one_request : Memory
one_request = record { requests = 1; granted = 1; freed = 0 }

third_opens :
    c_open sample 152 params (some 3) 1 two_terminals no_memory_used
    ≡ done (record { device = third; key = 3 } ∷ two_terminals, one_request, count 0)
unfolding c_open lookfor_device trim_key trim free_list
third_opens = refl

empty-IsFit : (key : ℕ) → IsFit (record { device = empty; key = key })
empty-IsFit key = (
  4,
  3,
  record { quantum = refl; qset = refl; items = tt; covered = omega arith; limit = omega arith },
)

c_open-others_example :
    (l : List Item) × (m' : Memory) × (r : Reply) × (c_open sample 152 params
        (some 3)
        1
        two_terminals
        no_memory_used
      ≡ done (l, m', r))
    × (device_of 2 l ≡ device_of 2 two_terminals)
    × All IsFit l
c_open-others_example =
    c_open-others 2 4 3 params refl refl sample 152 3 1 two_terminals no_memory_used (omega arith)
      (empty-IsFit 1, (empty-IsFit 2, tt))
