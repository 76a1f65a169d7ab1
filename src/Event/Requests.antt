-- ===== src/Event/Requests.antt =====
-- 实验6/others/exp6.c: opening an event, waiting for one and signalling one keep the queue sound.
use linux_kernel_experiment.Prelude.{
  ℕ, zero, suc, ◌-◌, ◌^◌, ◌<◌, ◌≤◌, ◌≡◌, ◌≢◌, refl, ap, sym, subst, ◌∙◌, ◌⊎◌, inl, inr, true,
  Option, none, some, List, [], ◌∷◌, ◌++◌, ℤ, pos, eqb_ℤ, length, get_elem?, set, All, arith,
  Bool-cases, get_elem?-set_self, get_elem?-set_ne, length-append,
}
use linux_kernel_experiment.Event.Queue.{Node, Heap, live, node_at, Events}
use linux_kernel_experiment.Event.Calls.{
  Course, returns, fresh, grow, link_at, link_last, link, open_event, wait_event, signal_event,
}
use linux_kernel_experiment.Event.Search.{IsChain, find-search_list}
use linux_kernel_experiment.Event.Counts.{IsCounted}
use linux_kernel_experiment.Event.Places.{
  IsSound, IsFine, returning, AreFew, last_of, search_cases, node_at-lt, some_inj,
  wait_event-IsSound, signal_event-IsSound,
}

module _ {ℓ} {A : Type ℓ} where
  get_elem?-append :
      (xs ys : List A) (i : ℕ) → i < length xs → get_elem? (xs ++ ys) i ≡ get_elem? xs i
  get_elem?-append [] ys i h = elim h [ ]
  get_elem?-append (x ∷ xs) ys zero h = refl
  get_elem?-append (x ∷ xs) ys (suc i) h = get_elem?-append xs ys i (omega arith)

  get_elem?-append_end : (xs : List A) (y : A) → get_elem? (xs ++ (y ∷ [])) (length xs) ≡ some y
  get_elem?-append_end [] y = refl
  get_elem?-append_end (x ∷ xs) y = get_elem?-append_end xs y

some-none : (d : ℕ) → some d ≢ none
some-none d e = cc

-- the end of a chain: its node has no next one
chain_end :
    (heap : Heap) (p : Option ℕ) (x : ℕ × Node) (l : List (ℕ × Node))
    → IsChain heap p (x ∷ l)
    → (e : ℕ) × (v : Node) × (last_of (x ∷ l) ≡ some e)
      × (node_at heap e ≡ some v)
      × (v.next ≡ none)
chain_end heap p (a, v) [] h = (a, v, refl, h.1, h.2)
chain_end heap p (a, v) (y ∷ l) h = chain_end heap v.next y l h.2

abbrev pointing : ℕ → Node → Node
pointing a v = record v { next = some a }

-- the list with a new node at its end
abbrev linked : ℕ → Node → List (ℕ × Node) → List (ℕ × Node)
linked a n [] = []
linked a n ((b, w) ∷ []) = (b, record w { next = some a }) ∷ ((a, n) ∷ [])
linked a n (x ∷ (y ∷ l)) = x ∷ linked a n (y ∷ l)

linked-last_of :
    (a : ℕ) (n : Node) (x : ℕ × Node) (l : List (ℕ × Node)) → last_of (linked a n (x ∷ l)) ≡ some a
linked-last_of a n (b, w) [] = refl
linked-last_of a n (b, w) ((d, u) ∷ []) = refl
linked-last_of a n (b, w) ((d, u) ∷ (z ∷ l)) = linked-last_of a n (d, u) (z ∷ l)

length-linked :
    (a : ℕ) (n : Node) (x : ℕ × Node) (l : List (ℕ × Node))
    → length (linked a n (x ∷ l)) ≡ suc (suc (length l))
length-linked a n (b, w) [] = refl
length-linked a n (b, w) (y ∷ l) = ap suc (length-linked a n y l)

linked-All :
    (a : ℕ) (n : Node) (l : List (ℕ × Node))
    → IsCounted n
    → All (λ x. IsCounted x.1) l
    → All (λ x. IsCounted x.1) (linked a n l)
linked-All a n [] c h = tt
linked-All a n ((b, w) ∷ []) c h =
    let o = h.0 in
    (
      record {
        first = o.first;
        init = o.init;
        small = o.small;
        limit = o.limit;
        sleepers = o.sleepers;
        few = o.few;
      },
      (c, tt),
    )
linked-All a n ((b, w) ∷ (y ∷ l)) c h = (h.0, linked-All a n (y ∷ l) c h.1)

module _ (heap : Heap) (e : ℕ) (v n : Node) (at_e : node_at heap e ≡ some v) (ends : v.next ≡ none)
    (n_ends : n.next ≡ none) where
  abbrev longer : Heap
  longer = set (heap ++ (some n ∷ [])) e (some (record v { next = some (length heap) }))

  inside : e < length (heap ++ (some n ∷ []))
  inside = omega (arith, node_at-lt heap e v at_e, length-append heap (some n ∷ []))

  at_same : node_at longer e ≡ some (record v { next = some (length heap) })
  at_same = ap live (
      get_elem?-set_self (heap ++ (some n ∷ [])) e (some (record v { next = some (length heap) }))
        inside)

  at_new : node_at longer (length heap) ≡ some n
  at_new =
      ap live (
        get_elem?-set_ne (heap ++ (some n ∷ [])) (some (record v { next = some (length heap) }))
          (λ q. absurd (omega (arith, node_at-lt heap e v at_e, q))))
      ∙ ap live (get_elem?-append_end heap (some n))

  at_other : (b : ℕ) (w : Node) → e ≢ b → node_at heap b ≡ some w → node_at longer b ≡ some w
  at_other b w differ here =
      ap live (
        get_elem?-set_ne (heap ++ (some n ∷ [])) (some (record v { next = some (length heap) }))
          differ)
      ∙ ap live (get_elem?-append heap (some n ∷ []) b (node_at-lt heap b w here))
      ∙ here

  linked-IsChain :
      (p : Option ℕ) (l : List (ℕ × Node))
      → last_of l ≡ some e
      → IsChain heap p l
      → IsChain longer p (linked (length heap) n l)
  linked-IsChain p [] q h = h
  linked-IsChain p ((b, w) ∷ []) q h =
      let e_b : e ≡ b = cc in
      let same = some_inj v w (sym at_e ∙ ap (node_at heap) e_b ∙ h.1) in
      (
        h.0,
        ap (node_at longer) (sym e_b) ∙ at_same ∙ ap (λ u. some (pointing (length heap) u)) same,
        (refl, at_new, n_ends),
      )
  linked-IsChain p ((b, w) ∷ ((d, u) ∷ l)) q h = (
    h.0,
    at_other b w
        (λ e_b. some-none d (
          sym h.2.0
          ∙ ap (λ x. x.next) (sym (some_inj v w (sym at_e ∙ ap (node_at heap) e_b ∙ h.1)))
          ∙ ends))
        h.1,
    linked-IsChain w.next ((d, u) ∷ l) q h.2,
  )

module _ (ev c : ℤ) (first : ℕ) (e_c : c ≡ pos first) (small : first < 2 ^ 31 - 1)
    (s : Events) where
  fresh-IsCounted : (n : ℤ) → IsCounted (fresh n c)
  fresh-IsCounted n = record {
    first = first;
    init = e_c;
    small = small;
    limit = rw e_c (omega arith);
    sleepers = rw e_c refl;
    few = omega arith;
  }

  abbrev first_event : Events
  first_event = record (grow (fresh (pos 2) c) s) {
    head = some (length s.heap);
    last = some (length s.heap);
  }

  link_first : s.head ≡ none → IsFine 1 (link ev c s s.head)
  link_first e =
      subst (λ o. IsFine 1 (link ev c s o)) (sym e)
        (returning first_event (pos 2) ((length s.heap, fresh (pos 2) c) ∷ []) refl (record {
          chain = (refl, ap live (get_elem?-append_end s.heap (some (fresh (pos 2) c))), refl);
          last = refl;
          counted = (fresh-IsCounted (pos 2), tt);
        }))

  link_next :
      (x : ℕ × Node) (l : List (ℕ × Node))
      → IsSound s (x ∷ l)
      → IsFine (suc (suc (length l))) (link ev c s s.head)
  link_next x l h =
      let (e, v, at_last, at_e, ends) = chain_end s.heap s.head x l h.chain in
      let a = length s.heap in
      let n = fresh ev c in
      let s' : Events = record s {
        heap = set (s.heap ++ (some n ∷ [])) e (some (record v { next = some a }));
        last = some a;
      } in
      let run : link ev c s s.head ≡ returns s' ev =
        ap (link ev c s) h.chain.0
        ∙ ap (link_last ev c s) (h.last ∙ at_last)
        ∙ ap (link_at ev c s e) at_e in
      subst (IsFine (suc (suc (length l)))) (sym run) (
        returning s' ev (linked a n (x ∷ l)) (length-linked a n x l) (record {
          chain = linked-IsChain s.heap e v n at_e ends refl s.head (x ∷ l) at_last h.chain;
          last = sym (linked-last_of a n x l);
          counted = linked-All a n (x ∷ l) (fresh-IsCounted ev) h.counted;
        }))

  link-IsSound : (l : List (ℕ × Node)) → IsSound s l → IsFine (suc (length l)) (link ev c s s.head)
  link-IsSound [] h = link_first h.chain
  link-IsSound (x ∷ l) h = link_next x l h

  open_event-IsSound :
      (fuel : ℕ) (result : ℤ) (l : List (ℕ × Node))
      → IsSound s l
      → length l ≤ fuel
      → IsFine (length l) (open_event fuel true result ev c s)
        ⊎ IsFine (suc (length l)) (open_event fuel true result ev c s)
  unfolding open_event
  open_event-IsSound fuel result l h enough =
      let e = find-search_list fuel s.heap ev none s.head l h.chain enough in
      elim (Bool-cases (eqb_ℤ ev (pos 0))) [
        | inl zero_event ↦ inl (rw zero_event (returning s result l refl h))
        | inr some_event ↦ elim (search_cases IsCounted s.heap ev none s.head l h.chain h.counted) [
          | inr (a, q, v, there, here, c') ↦
              inl (rw (some_event, e, there) (returning s (pos 0) l refl h))
          | inl (q, gone) ↦ inr (rw (some_event, e, gone) (link-IsSound l h))
        ]
      ]

-- the calls of a program that does not close an event
pub data Request : Type 0 where
  opens : ℤ → ℤ → Request
  waits signals : ℤ → Request

-- a call, where `kmalloc` grants the node of a new event
abbrev pub perform : ℕ → ℤ → Request → Events → Course
perform fuel result (opens ev c) s = open_event fuel true result ev c s
perform fuel result (waits ev) s = wait_event fuel ev s
perform fuel result (signals ev) s = signal_event fuel ev s

-- the first count of a new event is not negative, and below the largest `int`
abbrev pub IsRequest : Request → Type 0
IsRequest (opens ev c) = (first : ℕ) × (c ≡ pos first) × (first < 2 ^ 31 - 1)
IsRequest (waits ev) = Unit
IsRequest (signals ev) = Unit

-- On a sound queue, with fuel for its length and fewer sleepers than an `int` can count, opening an
-- event with a first count that is not negative and below the largest `int`, where its node is
-- granted, waiting for an event and signalling one return or sleep. They follow no stray pointer, and
-- leave a sound queue, of the same length or one longer: each count is at most the first one, and
-- below 0 by exactly the number of the sleepers, and the pointer to the end is right.
pub perform-IsSound :
    (fuel : ℕ) (result : ℤ) (r : Request) (s : Events) (l : List (ℕ × Node))
    → IsSound s l
    → length l ≤ fuel
    → AreFew l
    → IsRequest r
    → IsFine (length l) (perform fuel result r s)
      ⊎ IsFine (suc (length l)) (perform fuel result r s)
perform-IsSound fuel result (opens ev c) s l h enough few (first, e, small) =
    open_event-IsSound ev c first e small s fuel result l h enough
perform-IsSound fuel result (waits ev) s l h enough few ok =
    inl (wait_event-IsSound fuel ev s l h enough few)
perform-IsSound fuel result (signals ev) s l h enough few ok =
    inl (signal_event-IsSound fuel ev s l h enough)
