-- ===== src/Event/Places.antt =====
-- 实验6/others/exp6.c: a wait or a signal in the queue changes one node, and keeps the queue sound.
use linux_kernel_experiment.Prelude.{
  ℕ, suc, ◌-◌, ◌^◌, ◌<◌, ◌≤◌, ◌≡◌, refl, ap, ◌∙◌, sym, subst, ◌≢◌, Option-cases, ◌⊎◌, inl, inr,
  Bool, true, false, Option, none, some, List, [], ◌∷◌, ℤ, pos, length, get_elem?, set, All,
  if◌then◌else◌, ◌==◌, Bool-cases, ==→eq, ==→ne, get_elem?-set_self, get_elem?-set_ne, get_elem?-lt,
  eqb_ℤ,
}
use linux_kernel_experiment.Event.Queue.{
  Node, Heap, live, node_at, Events, found, absent, write_node,
}
use linux_kernel_experiment.Event.Calls.{
  Course, returns, sleeps, take_one, waited, wait_event, give_one, signalled, signal_event,
}
use linux_kernel_experiment.Event.Search.{IsChain, search_list, find-search_list}
use linux_kernel_experiment.Event.Counts.{
  IsCounted, take_one-IsCounted, give_one-IsCounted, take_one-next, give_one-next,
}

pub some_inj : (v w : Node) → some v ≡ some w → v ≡ w
some_inj v w e = cc

some_ne : (v : Node) → some v ≢ none
some_ne v e = cc

-- the list of the queue's nodes, with `v` at the address `a`
abbrev pub replaced : ℕ → Node → List (ℕ × Node) → List (ℕ × Node)
replaced a v [] = []
replaced a v ((b, w) ∷ l) = (b, if a == b then v else w) ∷ replaced a v l

pub node_at-lt : (heap : Heap) (a : ℕ) (v : Node) → node_at heap a ≡ some v → a < length heap
node_at-lt heap a v e = elim (Option-cases (get_elem? heap a)) [
  | inl gone ↦ absurd (some_ne v (sym e ∙ ap live gone))
  | inr (x, there) ↦ get_elem?-lt heap a there
]

node_at-set :
    (heap : Heap) (a b : ℕ) (v v' w : Node)
    → node_at heap a ≡ some v
    → node_at heap b ≡ some w
    → node_at (set heap a (some v')) b ≡ some (if a == b then v' else w)
node_at-set heap a b v v' w ea eb = elim (Bool-cases (a == b)) [
  | inl same ↦ rw same (
      ap (λ i. node_at (set heap i (some v')) b) (==→eq a b same)
      ∙ ap live (get_elem?-set_self heap b (some v') (node_at-lt heap b w eb)))
  | inr differ ↦ rw differ (ap live (get_elem?-set_ne heap (some v') (==→ne a b differ)) ∙ eb)
]

same_next :
    (heap : Heap) (a b : ℕ) (v v' w : Node)
    → node_at heap a ≡ some v
    → node_at heap b ≡ some w
    → v'.next ≡ v.next
    → w.next ≡ (if a == b then v' else w).next
same_next heap a b v v' w ea eb en = elim (Bool-cases (a == b)) [
  | inl same ↦
      let at_b : node_at heap b ≡ some v = ap (node_at heap) (sym (==→eq a b same)) ∙ ea in
      rw same (ap (λ u. u.next) (some_inj w v (sym eb ∙ at_b)) ∙ sym en)
  | inr differ ↦ rw differ refl
]

set-IsChain :
    (heap : Heap) (p : Option ℕ) (a : ℕ) (v v' : Node) (l : List (ℕ × Node))
    → node_at heap a ≡ some v
    → v'.next ≡ v.next
    → IsChain heap p l
    → IsChain (set heap a (some v')) p (replaced a v' l)
set-IsChain heap p a v v' [] ea en h = h
set-IsChain heap p a v v' ((b, w) ∷ l) ea en h =
    let (at_p, here, rest) = h in
    (
      at_p,
      node_at-set heap a b v v' w ea here,
      subst (λ q. IsChain (set heap a (some v')) q (replaced a v' l))
          (same_next heap a b v v' w ea here en) (set-IsChain heap w.next a v v' l ea en rest),
    )

replaced-All :
    (a : ℕ) (v : Node) (l : List (ℕ × Node))
    → All (λ x. IsCounted x.1) l
    → IsCounted v
    → All (λ x. IsCounted x.1) (replaced a v l)
replaced-All a v [] h c = tt
replaced-All a v ((b, w) ∷ l) h c = elim (Bool-cases (a == b)) [
  | inl e ↦ rw e (c, replaced-All a v l h.1 c)
  | inr e ↦ rw e (h.0, replaced-All a v l h.1 c)
]

-- the address of the last node
abbrev pub last_of : List (ℕ × Node) → Option ℕ
last_of [] = none
last_of ((a, v) ∷ []) = some a
last_of (x ∷ (y ∷ l)) = last_of (y ∷ l)

last_of-replaced : (a : ℕ) (v : Node) (l : List (ℕ × Node)) → last_of (replaced a v l) ≡ last_of l
last_of-replaced a v [] = refl
last_of-replaced a v ((b, w) ∷ []) = refl
last_of-replaced a v ((b, w) ∷ ((d, u) ∷ l)) = last_of-replaced a v ((d, u) ∷ l)

-- the queue is a chain of nodes that all keep their counts, and the pointer to its end is right
pub record IsSound (s : Events) (l : List (ℕ × Node)) : Type 0 where
  pub chain : IsChain s.heap s.head l
  pub last : s.last ≡ last_of l
  pub counted : All (λ x. IsCounted x.1) l

-- A call that returns or sleeps, with the queue as sound as before and no longer or shorter.
pub data IsFine (n : ℕ) : Course → Type 0 where
  returning :
      (s : Events) (r : ℤ) (l : List (ℕ × Node))
      → length l ≡ n
      → IsSound s l
      → IsFine n (returns s r)
  sleeping : (s : Events) (l : List (ℕ × Node)) → length l ≡ n → IsSound s l → IsFine n (sleeps s)

length-replaced : (a : ℕ) (v : Node) (l : List (ℕ × Node)) → length (replaced a v l) ≡ length l
length-replaced a v [] = refl
length-replaced a v ((b, w) ∷ l) = ap suc (length-replaced a v l)

write_node-IsSound :
    (a : ℕ) (v v' : Node) (s : Events) (l : List (ℕ × Node))
    → node_at s.heap a ≡ some v
    → v'.next ≡ v.next
    → IsCounted v'
    → IsSound s l
    → IsSound (write_node a v' s) (replaced a v' l)
write_node-IsSound a v v' s l e en c h = record {
  chain = set-IsChain s.heap s.head a v v' l e en h.chain;
  last = h.last ∙ sym (last_of-replaced a v' l);
  counted = replaced-All a v' l h.counted c;
}

-- what a search finds is a node of the list
pub search_cases :
    (P : Node → Type 0) (heap : Heap) (ev : ℤ) (prev p : Option ℕ) (l : List (ℕ × Node))
    → IsChain heap p l
    → All (λ x. P x.1) l
    → ((q : Option ℕ) × (search_list ev prev l ≡ absent q))
      ⊎ ((a : ℕ) × (q : Option ℕ) × (v : Node) × (search_list ev prev l ≡ found a q)
          × (node_at heap a ≡ some v)
          × P v)
search_cases P heap ev prev p [] h all = inl (prev, refl)
search_cases P heap ev prev p ((a, v) ∷ l) h all = elim (Bool-cases (eqb_ℤ v.event_num ev)) [
  | inl e ↦ rw e (inr (a, prev, v, refl, h.1, all.0))
  | inr e ↦ rw e (search_cases P heap ev (some a) v.next l h.2 all.1)
]

-- Fewer processes than an `int` can count sleep on each event.
abbrev pub AreFew : List (ℕ × Node) → Type 0
AreFew l = All (λ x. x.1.asleep < 2 ^ 31 - 1) l

All-pair :
    (l : List (ℕ × Node))
    → All (λ x. IsCounted x.1) l
    → AreFew l
    → All (λ x. IsCounted x.1 × (x.1.asleep < 2 ^ 31 - 1)) l
All-pair [] h k = tt
All-pair (x ∷ l) h k = ((h.0, k.0), All-pair l h.1 k.1)

waited-IsFine :
    (a : ℕ) (s : Events) (l : List (ℕ × Node)) (n : ℕ) (r : Node × Bool)
    → length l ≡ n
    → IsSound (write_node a r.0 s) l
    → IsFine n (waited a s r)
waited-IsFine a s l n (v, true) e h = sleeping (write_node a v s) l e h
waited-IsFine a s l n (v, false) e h = returning (write_node a v s) (pos 1) l e h

signalled-IsFine :
    (ev : ℤ) (a : ℕ) (s : Events) (l : List (ℕ × Node)) (n : ℕ) (r : Node × Bool)
    → length l ≡ n
    → IsSound (write_node a r.0 s) l
    → IsFine n (signalled ev a s r)
signalled-IsFine ev a s l n (v, true) e h = returning (write_node a v s) ev l e h
signalled-IsFine ev a s l n (v, false) e h = returning (write_node a v s) (pos 0) l e h

module _ (fuel : ℕ) (ev : ℤ) (s : Events) (l : List (ℕ × Node)) (h : IsSound s l)
    (enough : length l ≤ fuel) where
  pub wait_event-IsSound : AreFew l → IsFine (length l) (wait_event fuel ev s)
  unfolding wait_event
  wait_event-IsSound few =
      let e = find-search_list fuel s.heap ev none s.head l h.chain enough in
      elim (search_cases (λ v. IsCounted v × (v.asleep < 2 ^ 31 - 1)) s.heap ev none s.head l
        h.chain (All-pair l h.counted few)) [
          | inl (q, gone) ↦ rw (e, gone) (returning s (pos 0) l refl h)
          | inr (a, q, v, there, here, (c, f)) ↦
              rw (e, there, here)
                (waited-IsFine a s (replaced a (take_one v).0 l) (length l) (take_one v)
                  (length-replaced a (take_one v).0 l)
                  (write_node-IsSound a v (take_one v).0 s l here (take_one-next v)
                    (take_one-IsCounted v c f) h))
        ]

  pub signal_event-IsSound : IsFine (length l) (signal_event fuel ev s)
  unfolding signal_event
  signal_event-IsSound =
      let e = find-search_list fuel s.heap ev none s.head l h.chain enough in
      elim (search_cases IsCounted s.heap ev none s.head l h.chain h.counted) [
        | inl (q, gone) ↦ rw (e, gone) (returning s (pos 0) l refl h)
        | inr (a, q, v, there, here, c) ↦
            rw (e, there, here)
              (signalled-IsFine ev a s (replaced a (give_one v).0 l) (length l) (give_one v)
                (length-replaced a (give_one v).0 l)
                (write_node-IsSound a v (give_one v).0 s l here (give_one-next v)
                  (give_one-IsCounted v c) h))
      ]
