-- ===== src/Event/Queue.antt =====
-- 实验6/others/exp6.c: the queue of events, as a heap of nodes, and `scheventNum`.
use linux_kernel_experiment.Prelude.{
  ℕ, zero, suc, ◌==◌, Bool, false, Option, none, some, List, ℤ, eqb_ℤ, get_elem?, set,
  if◌then◌else◌,
}

-- `struct __myevent`; of the wait queue, how many processes sleep on it
pub record Node : Type 0 where
  pub event_num : ℤ
  pub next : Option ℕ
  pub count : ℤ
  pub init_count : ℤ
  pub asleep : ℕ

-- the blocks of the nodes, by address: `none` is one that was freed
abbrev pub Heap : Type 0
Heap = List (Option Node)

abbrev pub live : Option (Option Node) → Option Node
live none = none
live (some v) = v

-- `none` is a fault
abbrev pub node_at : Heap → ℕ → Option Node
node_at heap a = live (get_elem? heap a)

-- the heap, `lpmyevent_head` and `lpmyevent_end`
pub record Events : Type 0 where
  pub heap : Heap
  pub head : Option ℕ
  pub last : Option ℕ

-- What the search returns, with `*prev`. It may also read a freed node, or be longer than the fuel.
pub data Search : Type 0 where
  found : ℕ → Option ℕ → Search
  absent : Option ℕ → Search
  stray endless : Search

-- `scheventNum`, from the node that `tmp` points to
unfoldable pub find : ℕ → Heap → ℤ → Option ℕ → Option ℕ → Search
find fuel heap ev prev none = absent prev
find zero heap ev prev (some a) = endless
find (suc fuel) heap ev prev (some a) = elim (node_at heap a) [
  | none ↦ stray
  | some v ↦
      let rest = find fuel heap ev (some a) v.next in
      if eqb_ℤ v.event_num ev then found a prev else rest
]

abbrev pub write_node : ℕ → Node → Events → Events
write_node a v s = record s { heap = set s.heap a (some v) }

abbrev pub points_to : Option ℕ → ℕ → Bool
points_to none a = false
points_to (some b) a = a == b
