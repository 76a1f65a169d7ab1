-- ===== src/Tests/Event.antt =====
-- A queue of three events, of which one has two sleepers.
use linux_kernel_experiment.Prelude.{
  ℕ, ◌≡◌, ◌⊎◌, refl, true, none, some, List, [], ◌∷◌, ◌++◌, pos, negsuc, to_int, ◌+ℤ◌, arith,
}
use linux_kernel_experiment.Event.Queue.{Node, Heap, Events, stray, find}
use linux_kernel_experiment.Event.Calls.{
  returns, fault, wait_event, signal_event, close_event, open_event,
}
use linux_kernel_experiment.Event.Search.{IsChain}
use linux_kernel_experiment.Event.Places.{IsSound, IsFine, AreFew}
use linux_kernel_experiment.Event.Closing.{marks, close_event-IsSound}
use linux_kernel_experiment.Event.Dangling.{close_event-stray}
use linux_kernel_experiment.Event.Requests.{opens, perform, perform-IsSound}

abbrev pub first_node : Node
first_node = record {
  event_num = pos 2;
  next = some 1;
  count = pos 1;
  init_count = pos 1;
  asleep = 0;
}

abbrev pub busy_node : Node
busy_node = record {
  event_num = pos 5;
  next = some 2;
  count = negsuc 1;
  init_count = pos 1;
  asleep = 2;
}

abbrev pub last_node : Node
last_node = record { event_num = pos 7; next = none; count = pos 0; init_count = pos 3; asleep = 0 }

abbrev pub three_nodes : Heap
three_nodes = some first_node ∷ some busy_node ∷ some last_node ∷ []

abbrev pub three_events : Events
three_events = record { heap = three_nodes; head = some 0; last = some 2 }

abbrev pub three_places : List (ℕ × Node)
three_places = (0, first_node) ∷ (1, busy_node) ∷ (2, last_node) ∷ []

three_places-IsChain : IsChain three_nodes (some 0) three_places
three_places-IsChain = (refl, refl, (refl, refl, (refl, refl, refl)))

three_events-IsSound : IsSound three_events three_places
three_events-IsSound = record {
  chain = three_places-IsChain;
  last = refl;
  counted = (
    record {
      first = 1;
      init = refl;
      small = omega arith;
      limit = omega arith;
      sleepers = refl;
      few = omega arith;
    },
    (
      record {
        first = 1;
        init = refl;
        small = omega arith;
        limit = omega arith;
        sleepers = refl;
        few = omega arith;
      },
      (
        record {
          first = 3;
          init = refl;
          small = omega arith;
          limit = omega arith;
          sleepers = refl;
          few = omega arith;
        },
        tt,
      ),
    ),
  );
}

few_sleepers : AreFew three_places
few_sleepers = (omega arith, (omega arith, (omega arith, tt)))

perform-IsSound_example :
    IsFine 3 (perform 3 (pos 0) (opens (pos 9) (pos 1)) three_events)
    ⊎ IsFine 4 (perform 3 (pos 0) (opens (pos 9) (pos 1)) three_events)
perform-IsSound_example =
    perform-IsSound 3 (pos 0) (opens (pos 9) (pos 1)) three_events three_places three_events-IsSound
      (omega arith) few_sleepers (1, refl, omega arith)

-- the last event is closed, and the pointer to it stays
abbrev pub last_closed : Events
last_closed = record {
  heap = some first_node ∷ some busy_node ∷ none ∷ [];
  head = some 0;
  last = some 1;
}

close_last : close_event 3 (pos 7) three_events ≡ returns last_closed (pos 7)
unfolding close_event signal_event find to_int ◌+ℤ◌
close_last = refl

wait_after_close : wait_event 3 (pos 7) last_closed ≡ fault
unfolding wait_event find
wait_after_close = refl

-- the first event has the number 2 whatever was asked for
open_first :
    open_event 0 true (pos 0) (pos 9) (pos 1) (record { heap = []; head = none; last = none })
    ≡ returns
        (record {
          heap =
              some (record {
                event_num = pos 2;
                next = none;
                count = pos 1;
                init_count = pos 1;
                asleep = 0;
              })
              ∷ [];
          head = some 0;
          last = some 0;
        })
        (pos 2)
unfolding open_event find
open_first = refl

-- the event in the middle is closed, with two sleepers
close_event-IsSound_example :
    (s' : Events) × (l' : List (ℕ × Node)) × (close_event 3 (pos 5) three_events
      ≡ returns s' (pos 5))
    × IsSound s' l'
    × (marks l' ≡ marks ((0, first_node) ∷ []) ++ marks ((2, last_node) ∷ []))
close_event-IsSound_example =
    close_event-IsSound 3 (pos 5) three_events ((0, first_node) ∷ []) 1 busy_node (2, last_node) []
      three_events-IsSound (omega arith) refl (refl, tt) (refl, tt)

close_event-stray_example :
    (s' : Events) × (close_event 3 (pos 7) three_events ≡ returns s' (pos 7))
    × (find 3 s'.heap (pos 9) none s'.head ≡ stray)
close_event-stray_example =
    close_event-stray 3 (pos 7) (pos 9) three_events ((0, first_node) ∷ (1, busy_node) ∷ []) 2
      last_node three_events-IsSound (omega arith) refl (refl, (refl, tt)) (refl, (refl, tt))
