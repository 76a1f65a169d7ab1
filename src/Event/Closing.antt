-- ===== src/Event/Closing.antt =====
-- 实验6/others/exp6.c: `myevent_close` on an event that others follow.
use linux_kernel_experiment.Prelude.{
  ℕ, suc, ◌≤◌, ◌≡◌, refl, ap, sym, subst, ◌∙◌, ◌⊎◌, inl, inr, true, false, none, some, List, [],
  ◌∷◌, ◌++◌, ℤ, eqb_ℤ, length, arith, if◌then◌else◌, append_assoc, ==_refl,
}
use linux_kernel_experiment.Event.Queue.{Node, Events, found, write_node, points_to}
use linux_kernel_experiment.Event.Calls.{returns, close_found, close_event, unlink_at}
use linux_kernel_experiment.Event.Search.{search_list, find-search_list}
use linux_kernel_experiment.Event.Places.{IsSound}
use linux_kernel_experiment.Event.Close.{
  Lacks, Avoids, first_apart, set_avoided, without, close_at_lem, last_of-append, last-Avoids,
}
use linux_kernel_experiment.Event.Unlink.{
  past, queue, shorter, search_found, shorter-Lacks, shorter-Avoids, shorter-IsChain,
  shorter-IsCounted, queue_nodes, head_differs, length-shorter,
}

-- an event's place, number, count and sleepers
abbrev pub Mark : Type 0
Mark = ℕ × ℤ × ℤ × ℕ

abbrev pub marks : List (ℕ × Node) → List Mark
marks [] = []
marks ((a, v) ∷ l) = (a, v.event_num, v.count, v.asleep) ∷ marks l

marks-append : (l m : List (ℕ × Node)) → marks (l ++ m) ≡ marks l ++ marks m
marks-append [] m = refl
marks-append (x ∷ l) m = ap (◌∷◌ (x.0, x.1.event_num, x.1.count, x.1.asleep)) (marks-append l m)

tail-Avoids :
    (a : ℕ) (front : List (ℕ × Node)) (z : ℕ × Node) (l : List (ℕ × Node))
    → Avoids a (front ++ (z ∷ l))
    → Avoids a l
tail-Avoids a [] z l h = h.1
tail-Avoids a (x ∷ front) z l h = tail-Avoids a front z l h.1

module _ (fuel : ℕ) (ev : ℤ) (s : Events) (a : ℕ) (v : Node) (y : ℕ × Node) (rest : List (ℕ × Node))
    (number : eqb_ℤ v.event_num ev ≡ true) (later : Lacks ev (y ∷ rest)) where
  -- the event is the first one
  close_first :
      IsSound s ((a, v) ∷ (y ∷ rest))
      → suc (suc (length rest)) ≤ fuel
      → (close_event fuel ev s ≡ returns (without a (record s { head = v.next })) ev)
        × IsSound (without a (record s { head = v.next })) (y ∷ rest)
  unfolding close_event
  close_first h enough =
      let avoids = first_apart s.heap s.head a v (y ∷ rest) h.chain in
      let found_it =
        find-search_list fuel s.heap ev none s.head ((a, v) ∷ (y ∷ rest)) h.chain enough
        ∙ ap (λ b. if b then found a none else search_list ev (some a) (y ∷ rest)) number in
      let not_last = ap (λ q. points_to q a) h.last ∙ last-Avoids a y rest avoids in
      let is_head = ap (λ q. points_to q a) h.chain.0 ∙ ==_refl a in
      (
        rw (found_it, close_found, h.chain.1, not_last, is_head)
            (close_at_lem fuel ev a (record s { head = v.next }) (y ∷ rest) h.chain.2 (omega arith)
              later),
        record {
          chain = set_avoided s.heap a none v.next (y ∷ rest) h.chain.2 avoids;
          last = h.last;
          counted = h.counted.1;
        },
      )

  -- the event is between others
  module _ (e : ℕ) (u : Node) (front : List (ℕ × Node))
      (h : IsSound s (queue e u a v (y ∷ rest) front))
      (enough : length (queue e u a v (y ∷ rest) front) ≤ fuel) (before : Lacks ev front)
      (at_e : eqb_ℤ u.event_num ev ≡ false) where
    abbrev linked_past : Events
    linked_past = write_node e (past u v) s

    not_last : points_to s.last a ≡ false
    not_last =
        ap (λ q. points_to q a) (h.last ∙ last_of-append front (e, u) ((a, v) ∷ (y ∷ rest)))
        ∙ last-Avoids a y rest (
            tail-Avoids a front (e, past u v) (y ∷ rest)
              (shorter-Avoids e u a v (y ∷ rest) s.heap s.head front h.chain))

    close_between :
        (close_event fuel ev s ≡ returns (without a linked_past) ev)
        × IsSound (without a linked_past) (shorter e u a v (y ∷ rest) front)
    unfolding close_event
    close_between =
        let after = y ∷ rest in
        let nodes = queue_nodes e u a v after s.heap s.head front h.chain in
        let chain = shorter-IsChain e u a v after s.heap s.head front h.chain in
        let found_it =
          find-search_list fuel s.heap ev none s.head (queue e u a v after front) h.chain enough
          ∙ search_found e u a v after ev none front before at_e number in
        (
          rw
              (
                found_it,
                close_found,
                nodes.1,
                not_last,
                head_differs e u a v after s.heap s.head front h.chain,
                unlink_at,
                nodes.0,
              )
              (close_at_lem fuel ev a linked_past (shorter e u a v after front) chain
                (omega (arith, length-shorter e u a v after front, enough))
                (shorter-Lacks e u a v after ev front before at_e later)),
          record {
            chain =
                set_avoided linked_past.heap a none s.head (shorter e u a v after front) chain
                  (shorter-Avoids e u a v after s.heap s.head front h.chain);
            last =
                h.last
                ∙ last_of-append front (e, u) ((a, v) ∷ after)
                ∙ sym (last_of-append front (e, past u v) after);
            counted = shorter-IsCounted e u a v after front h.counted;
          },
        )

marks-past :
    (e : ℕ) (u v : Node) (front l : List (ℕ × Node))
    → marks (front ++ ((e, past u v) ∷ l)) ≡ marks (front ++ ((e, u) ∷ [])) ++ marks l
marks-past e u v [] l = refl
marks-past e u v (x ∷ front) l =
    ap (◌∷◌ (x.0, x.1.event_num, x.1.count, x.1.asleep)) (marks-past e u v front l)

-- a list is empty, or has a last element
ends_of :
    (l : List (ℕ × Node))
    → (l ≡ []) ⊎ ((front : List (ℕ × Node)) × (e : ℕ) × (u : Node) × (l ≡ front ++ ((e, u) ∷ [])))
ends_of [] = inl refl
ends_of (x ∷ l) = elim (ends_of l) [
  | inl none_left ↦ inr ([], x.0, x.1, ap (◌∷◌ x) none_left)
  | inr (front, e, u, same) ↦ inr (x ∷ front, e, u, ap (◌∷◌ x) same)
]

Lacks-ends :
    (ev : ℤ) (front : List (ℕ × Node)) (e : ℕ) (u : Node)
    → Lacks ev (front ++ ((e, u) ∷ []))
    → Lacks ev front × (eqb_ℤ u.event_num ev ≡ false)
Lacks-ends ev [] e u h = (tt, h.0)
Lacks-ends ev (x ∷ front) e u h = let (l, at_e) = Lacks-ends ev front e u h.1 in ((h.0, l), at_e)

-- On a sound queue, with fuel for its length, an event whose number no other has, and which others
-- follow, is closed: the call returns its number, and leaves a sound queue, in which all the other
-- events stay where they were, in their order, with their numbers, counts and sleepers.
pub close_event-IsSound :
    (fuel : ℕ) (ev : ℤ) (s : Events) (before : List (ℕ × Node)) (a : ℕ) (v : Node) (y : ℕ × Node)
    (rest : List (ℕ × Node))
    → IsSound s (before ++ ((a, v) ∷ (y ∷ rest)))
    → length (before ++ ((a, v) ∷ (y ∷ rest))) ≤ fuel
    → eqb_ℤ v.event_num ev ≡ true
    → Lacks ev before
    → Lacks ev (y ∷ rest)
    → (s' : Events) × (l' : List (ℕ × Node)) × (close_event fuel ev s ≡ returns s' ev)
      × IsSound s' l'
      × (marks l' ≡ marks before ++ marks (y ∷ rest))
close_event-IsSound fuel ev s before a v y rest h enough number earlier later =
    elim (ends_of before) [
      | inl none_left ↦
          let (runs, sound) =
            close_first fuel ev s a v y rest number later
              (subst (λ l. IsSound s (l ++ ((a, v) ∷ (y ∷ rest)))) none_left h)
              (subst (λ l. length (l ++ ((a, v) ∷ (y ∷ rest))) ≤ fuel) none_left enough) in
          (
            without a (record s { head = v.next }),
            y ∷ rest,
            runs,
            sound,
            ap (λ l. marks l ++ marks (y ∷ rest)) (sym none_left),
          )
      | inr (front, e, u, same) ↦
          let whole =
            ap (λ l. l ++ ((a, v) ∷ (y ∷ rest))) same
            ∙ append_assoc front ((e, u) ∷ []) ((a, v) ∷ (y ∷ rest)) in
          let (lacks, at_e) = Lacks-ends ev front e u (subst (Lacks ev) same earlier) in
          let (runs, sound) =
            close_between fuel ev s a v y rest number later e u front (subst (IsSound s) whole h)
              (subst (λ l. length l ≤ fuel) whole enough) lacks at_e in
          (
            without a (write_node e (past u v) s),
            shorter e u a v (y ∷ rest) front,
            runs,
            sound,
            marks-past e u v front (y ∷ rest) ∙ ap (λ l. marks l ++ marks (y ∷ rest)) (sym same),
          )
    ]
