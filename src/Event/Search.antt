-- ===== src/Event/Search.antt =====
-- 实验6/others/exp6.c: the search ends, and finds the first node with the number.
use linux_kernel_experiment.Prelude.{
  ℕ, zero, suc, ◌≤◌, ◌≡◌, refl, ap, ◌∙◌, Option, none, some, List, [], ◌∷◌, ℤ, eqb_ℤ, length,
  if◌then◌else◌, arith,
}
use linux_kernel_experiment.Event.Queue.{Node, Heap, node_at, Search, found, absent, stray, find}

-- the nodes of the queue from `p` on, with their addresses
abbrev pub IsChain : Heap → Option ℕ → List (ℕ × Node) → Type 0
IsChain heap p [] = p ≡ none
IsChain heap p ((a, v) ∷ l) = (p ≡ some a) × (node_at heap a ≡ some v) × IsChain heap v.next l

-- the search in that list
abbrev pub search_list : ℤ → Option ℕ → List (ℕ × Node) → Search
search_list ev prev [] = absent prev
search_list ev prev ((a, v) ∷ l) =
    let rest = search_list ev (some a) l in if eqb_ℤ v.event_num ev then found a prev else rest

abbrev pub visit : ℕ → Heap → ℤ → Option ℕ → ℕ → Option Node → Search
visit fuel heap ev prev a none = stray
visit fuel heap ev prev a (some v) =
    let rest = find fuel heap ev (some a) v.next in
    if eqb_ℤ v.event_num ev then found a prev else rest

pub find-suc :
    (fuel : ℕ) (heap : Heap) (ev : ℤ) (prev : Option ℕ) (a : ℕ)
    → find (suc fuel) heap ev prev (some a) ≡ visit fuel heap ev prev a (node_at heap a)
unfolding find
find-suc fuel heap ev prev a =
    elim (node_at heap a)
      as (λ o.
        elim o as (λ _. Search) [
          | none ↦ stray
          | some v ↦
              if eqb_ℤ v.event_num ev then found a prev else find fuel heap ev (some a) v.next
        ]
        ≡ visit fuel heap ev prev a o) [ none ↦ refl | some v ↦ refl ]

-- On a chain of nodes, with at least as much fuel as there are nodes, the search ends without following a
-- stray pointer, and returns what the search in the list of the nodes returns: the first node with the
-- number and the node before it, or that there is none and which node is the last.
pub find-search_list :
    (fuel : ℕ) (heap : Heap) (ev : ℤ) (prev p : Option ℕ) (l : List (ℕ × Node))
    → IsChain heap p l
    → length l ≤ fuel
    → find fuel heap ev prev p ≡ search_list ev prev l
unfolding find
find-search_list zero heap ev prev p [] h e = ap (find zero heap ev prev) h
find-search_list (suc fuel) heap ev prev p [] h e = ap (find (suc fuel) heap ev prev) h
find-search_list zero heap ev prev p (x ∷ l) h e = absurd (omega arith)
find-search_list (suc fuel) heap ev prev p ((a, v) ∷ l) h e =
    let (at_p, here, rest) = h in
    ap (find (suc fuel) heap ev prev) at_p
    ∙ find-suc fuel heap ev prev a
    ∙ ap (visit fuel heap ev prev a) here
    ∙ ap (λ r. if eqb_ℤ v.event_num ev then found a prev else r)
        (find-search_list fuel heap ev (some a) v.next l rest (omega arith))
