-- ===== src/Event/Dangling.antt =====
-- 实验6/others/exp6.c: `myevent_close` on the last event.
use linux_kernel_experiment.Prelude.{
  ℕ, zero, suc, ◌<◌, ◌≤◌, ◌≡◌, ◌≢◌, refl, ap, sym, ◌∙◌, true, false, Bool, Option, none, some, List,
  [], ◌∷◌, ◌++◌, ℤ, eqb_ℤ, length, set, All, ==_refl, arith, if◌then◌else◌, length-append,
  length-set, get_elem?-set_self, get_elem?-set_ne,
}
use linux_kernel_experiment.Event.Queue.{
  Node, Heap, live, node_at, Events, found, stray, find, points_to,
}
use linux_kernel_experiment.Event.Calls.{
  returns, give_one, signalled, signal_event, freed, close_at, close_found, close_event,
}
use linux_kernel_experiment.Event.Search.{IsChain, search_list, find-search_list, visit, find-suc}
use linux_kernel_experiment.Event.Places.{IsSound, node_at-lt}
use linux_kernel_experiment.Event.Close.{Lacks, first_apart, last_of-append}

-- the nodes from `p` on, up to a pointer to the address `a`
abbrev pub LeadsTo : Heap → ℕ → Option ℕ → List (ℕ × Node) → Type 0
LeadsTo heap a p [] = p ≡ some a
LeadsTo heap a p ((b, w) ∷ l) = (p ≡ some b) × (node_at heap b ≡ some w) × LeadsTo heap a w.next l

-- A search that passes all of these nodes follows the pointer to the freed one.
find-LeadsTo :
    (fuel : ℕ) (heap : Heap) (a : ℕ) (ev : ℤ) (q p : Option ℕ) (l : List (ℕ × Node))
    → node_at heap a ≡ none
    → LeadsTo heap a p l
    → Lacks ev l
    → length l < fuel
    → find fuel heap ev q p ≡ stray
find-LeadsTo zero heap a ev q p l gone h k enough = absurd (omega arith)
find-LeadsTo (suc fuel) heap a ev q p [] gone h k enough =
    ap (find (suc fuel) heap ev q) h ∙ find-suc fuel heap ev q a ∙ ap (visit fuel heap ev q a) gone
find-LeadsTo (suc fuel) heap a ev q p ((b, w) ∷ l) gone h k enough =
    ap (find (suc fuel) heap ev q) h.0
    ∙ find-suc fuel heap ev q b
    ∙ ap (visit fuel heap ev q b) h.1
    ∙ ap (λ c. if c then found b q else find fuel heap ev (some b) w.next) k.0
    ∙ find-LeadsTo fuel heap a ev (some b) w.next l gone h.2 k.1 (omega arith)

-- the heap after the node was written once more and freed
abbrev scrapped : ℕ → Node → Heap → Heap
scrapped a v heap = set (set heap a (some v)) a none

module _ (a : ℕ) (v : Node) where
  abbrev whole : List (ℕ × Node) → List (ℕ × Node)
  whole before = before ++ ((a, v) ∷ [])

  scrapped_gone :
      (heap : Heap) (v' : Node) → node_at heap a ≡ some v → node_at (scrapped a v' heap) a ≡ none
  scrapped_gone heap v' here = ap live (
      get_elem?-set_self (set heap a (some v')) a none
        (omega (arith, node_at-lt heap a v here, length-set heap a (some v'))))

  last_node :
      (heap : Heap) (p : Option ℕ) (before : List (ℕ × Node))
      → IsChain heap p (whole before)
      → node_at heap a ≡ some v
  last_node heap p [] h = h.1
  last_node heap p ((b, w) ∷ before) h = last_node heap w.next before h.2

  last_differs :
      (P : ℕ × Node → Type 0) (before : List (ℕ × Node)) → All P (whole before) → P (a, v)
  last_differs P [] h = h.0
  last_differs P (x ∷ before) h = last_differs P before h.1

  scrapped-LeadsTo :
      (heap : Heap) (v' : Node) (p : Option ℕ) (before : List (ℕ × Node))
      → IsChain heap p (whole before)
      → LeadsTo (scrapped a v' heap) a p before
  scrapped-LeadsTo heap v' p [] h = h.0
  scrapped-LeadsTo heap v' p ((b, w) ∷ before) h =
      let differs = last_differs (λ x. b ≢ x.0) before (first_apart heap p b w (whole before) h) in
      (
        h.0,
        ap live (get_elem?-set_ne (set heap a (some v')) none (λ e. differs (sym e)))
            ∙ ap live (get_elem?-set_ne heap (some v') (λ e. differs (sym e)))
            ∙ h.1,
        scrapped-LeadsTo heap v' w.next before h.2,
      )

  search_last :
      (ev : ℤ) (q : Option ℕ) (before : List (ℕ × Node))
      → Lacks ev before
      → eqb_ℤ v.event_num ev ≡ true
      → (q' : Option ℕ) × (search_list ev q (whole before) ≡ found a q')
  search_last ev q [] h k = (q, rw k refl)
  search_last ev q ((b, w) ∷ before) h k =
      let (q', e) = search_last ev (some b) before h.1 k in (q', rw h.0 e)

-- what a close of a signalled node leaves
freed_signalled :
    (ev : ℤ) (a : ℕ) (s : Events) (r : Node × Bool)
    → freed ev a (signalled ev a s r) ≡ returns (record s { heap = scrapped a r.0 s.heap }) ev
freed_signalled ev a s (v, true) = refl
freed_signalled ev a s (v, false) = refl

-- the signal finds the node, which is still in the queue
close_last :
    (fuel : ℕ) (ev : ℤ) (s : Events) (a : ℕ) (v : Node) (q : Option ℕ)
    → find fuel s.heap ev none s.head ≡ found a q
    → node_at s.heap a ≡ some v
    → close_at fuel ev a (some s)
      ≡ returns (record s { heap = scrapped a (give_one v).0 s.heap }) ev
unfolding signal_event
close_last fuel ev s a v q found_it here = rw (found_it, here) (freed_signalled ev a s (give_one v))

-- On a sound queue, with fuel for its length, the last event, whose number no other has, is closed:
-- the call returns its number and frees the node, but the event before it, or the head, still points
-- there. A later search for any number that the events before it do not have reads the freed node.
pub close_event-stray :
    (fuel : ℕ) (ev other : ℤ) (s : Events) (before : List (ℕ × Node)) (a : ℕ) (v : Node)
    → IsSound s (before ++ ((a, v) ∷ []))
    → length (before ++ ((a, v) ∷ [])) ≤ fuel
    → eqb_ℤ v.event_num ev ≡ true
    → Lacks ev before
    → Lacks other before
    → (s' : Events) × (close_event fuel ev s ≡ returns s' ev)
      × (find fuel s'.heap other none s'.head ≡ stray)
unfolding close_event
close_event-stray fuel ev other s before a v h enough number lacks k =
    let len = length-append before ((a, v) ∷ []) in
    let l = before ++ ((a, v) ∷ []) in
    let here = last_node a v s.heap s.head before h.chain in
    let (q, found_here) = search_last a v ev none before lacks number in
    let found_it = find-search_list fuel s.heap ev none s.head l h.chain enough ∙ found_here in
    let is_last = ap (λ o. points_to o a) (h.last ∙ last_of-append before (a, v) []) ∙ ==_refl a in
    let s1 : Events = record s { last = q } in
    (
      record s1 { heap = scrapped a (give_one v).0 s.heap },
      rw (found_it, close_found, here, is_last) (close_last fuel ev s1 a v q found_it here),
      find-LeadsTo fuel (scrapped a (give_one v).0 s.heap) a other none s.head before
          (scrapped_gone a v s.heap (give_one v).0 here)
          (scrapped-LeadsTo a v s.heap (give_one v).0 s.head before h.chain) k (omega (arith, len)),
    )
