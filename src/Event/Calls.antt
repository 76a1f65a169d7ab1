-- ===== src/Event/Calls.antt =====
-- 实验6/others/exp6.c: `myevent_open`, `myevent_wait`, `myevent_signal` and `myevent_close`.
use linux_kernel_experiment.Prelude.{
  ℕ, ◌+◌, ◌-◌, Bool, true, false, Option, none, some, [], ◌∷◌, ◌++◌, ℤ, pos, pos_part, neg_part,
  ◌+ℤ◌, ◌-ℤ◌, to_int, eqb_ℤ, ltb_ℤ, leb, length, set, if◌then◌else◌,
}
use linux_kernel_experiment.Event.Queue.{
  Node, node_at, Events, Search, found, absent, stray, endless, find, write_node, points_to,
}

-- How a call goes: it returns a value; it sleeps, and when it is woken it returns the event's
-- number; it follows NULL or a pointer to a freed node; or its search is longer than the fuel.
pub data Course : Type 0 where
  returns : Events → ℤ → Course
  sleeps : Events → Course
  fault hangs : Course

abbrev pub leb_ℤ : ℤ → ℤ → Bool
leb_ℤ a b = leb (pos_part a + neg_part b) (pos_part b + neg_part a)

-- a new node
abbrev pub fresh : ℤ → ℤ → Node
fresh ev c = record { event_num = ev; next = none; count = c; init_count = c; asleep = 0 }

-- the new node at the address `length s.heap`
abbrev pub grow : Node → Events → Events
grow v s = record s { heap = s.heap ++ (some v ∷ []) }

-- `lpmyevent_end->next = new`, where that node is
abbrev pub link_at : ℤ → ℤ → Events → ℕ → Option Node → Course
link_at ev c s e none = fault
link_at ev c s e (some v) =
    let a = length s.heap in
    returns
      (record (write_node e (record v { next = some a }) (grow (fresh ev c) s)) { last = some a })
      ev

abbrev pub link_last : ℤ → ℤ → Events → Option ℕ → Course
link_last ev c s none = fault
link_last ev c s (some e) = link_at ev c s e (node_at s.heap e)

-- `if (!lpmyevent_head)`: the first event
abbrev pub link : ℤ → ℤ → Events → Option ℕ → Course
link ev c s none =
    let a = length s.heap in
    returns (record (grow (fresh (pos 2) c) s) { head = some a; last = some a }) (pos 2)
link ev c s (some h) = link_last ev c s s.last

-- the result of `kmalloc` is not tested
abbrev pub add_node : Bool → ℤ → ℤ → Events → Course
add_node false ev c s = fault
add_node true ev c s = link ev c s s.head

abbrev pub open_found : Bool → ℤ → ℤ → Events → Search → Course
open_found granted ev c s (found a prev) = returns s (pos 0)
open_found granted ev c s (absent prev) = add_node granted ev c s
open_found granted ev c s stray = fault
open_found granted ev c s endless = hangs

-- `myevent_open`; `granted` tells whether `kmalloc` grants the node, and `result` is what the
-- variable of that name happens to hold at first
unfoldable pub open_event : ℕ → Bool → ℤ → ℤ → ℤ → Events → Course
open_event fuel granted result ev c s =
    if eqb_ℤ ev (pos 0)
    then returns s result
    else open_found granted ev c s (find fuel s.heap ev none s.head)

-- the count of a wait, and the test that follows
abbrev pub take_one : Node → Node × Bool
take_one v =
    let n = to_int (v.count -ℤ pos 1) in
    if ltb_ℤ n (pos 0)
    then (record v { count = n; asleep = v.asleep + 1 }, true)
    else (record v { count = n }, false)

abbrev pub waited : ℕ → Events → Node × Bool → Course
waited a s (v, true) = sleeps (write_node a v s)
waited a s (v, false) = returns (write_node a v s) (pos 1)

abbrev pub wait_at : Events → ℕ → Option Node → Course
wait_at s a none = fault
wait_at s a (some v) = waited a s (take_one v)

abbrev pub wait_found : Events → Search → Course
wait_found s (found a prev) = wait_at s a (node_at s.heap a)
wait_found s (absent prev) = returns s (pos 0)
wait_found s stray = fault
wait_found s endless = hangs

-- `myevent_wait`
unfoldable pub wait_event : ℕ → ℤ → Events → Course
wait_event fuel ev s = wait_found s (find fuel s.heap ev none s.head)

-- `count + 1`, where that stays within `init_count`
abbrev pub raised : Node → ℤ
raised v =
    if leb_ℤ (to_int (v.count +ℤ pos 1)) v.init_count then to_int (v.count +ℤ pos 1) else v.count

-- the count of a signal, and whether it wakes the first sleeper, if there is one
abbrev pub give_one : Node → Node × Bool
give_one v =
    let n = raised v in
    if leb_ℤ n (pos 0)
    then (record v { count = n; asleep = v.asleep - 1 }, true)
    else (record v { count = n }, false)

abbrev pub signalled : ℤ → ℕ → Events → Node × Bool → Course
signalled ev a s (v, true) = returns (write_node a v s) ev
signalled ev a s (v, false) = returns (write_node a v s) (pos 0)

abbrev pub signal_at : ℤ → Events → ℕ → Option Node → Course
signal_at ev s a none = fault
signal_at ev s a (some v) = signalled ev a s (give_one v)

abbrev pub signal_found : ℤ → Events → Search → Course
signal_found ev s (found a prev) = signal_at ev s a (node_at s.heap a)
signal_found ev s (absent prev) = returns s (pos 0)
signal_found ev s stray = fault
signal_found ev s endless = hangs

-- `myevent_signal`
unfoldable pub signal_event : ℕ → ℤ → Events → Course
signal_event fuel ev s = signal_found ev s (find fuel s.heap ev none s.head)

-- `prev->next = releaseItem->next`
abbrev pub unlink_at : Node → Option ℕ → Events → Option Events
unlink_at v none s = none
unlink_at v (some p) s = elim (node_at s.heap p) [
  | none ↦ none
  | some w ↦ some (write_node p (record w { next = v.next }) s)
]

-- the three places of the node: last, first, or between
abbrev pub unlink : ℕ → Node → Option ℕ → Events → Option Events
unlink a v prev s =
    if points_to s.last a
    then some (record s { last = prev })
    else if points_to s.head a
    then some (record s { head = v.next })
    else unlink_at v prev s

-- `kfree(releaseItem)`
abbrev pub freed : ℤ → ℕ → Course → Course
freed ev a (returns s r) = returns (record s { heap = set s.heap a none }) ev
freed ev a (sleeps s) = sleeps s
freed ev a fault = fault
freed ev a hangs = hangs

abbrev pub close_at : ℕ → ℤ → ℕ → Option Events → Course
close_at fuel ev a none = fault
close_at fuel ev a (some s) = freed ev a (signal_event fuel ev s)

abbrev pub close_found : ℕ → ℤ → Events → Search → Course
close_found fuel ev s (found a prev) = elim (node_at s.heap a) [
  | none ↦ fault
  | some v ↦ close_at fuel ev a (unlink a v prev s)
]
close_found fuel ev s (absent prev) = returns s (pos 0)
close_found fuel ev s stray = fault
close_found fuel ev s endless = hangs

-- `myevent_close`
unfoldable pub close_event : ℕ → ℤ → Events → Course
close_event fuel ev s = close_found fuel ev s (find fuel s.heap ev none s.head)
