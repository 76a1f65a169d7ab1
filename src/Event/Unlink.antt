-- ===== src/Event/Unlink.antt =====
-- 实验6/others/exp6.c: what is left of the queue when an event between others is closed.
use linux_kernel_experiment.Prelude.{
  ℕ, suc, ◌≡◌, ◌≢◌, refl, ap, sym, ◌∙◌, true, false, Option, some, List, [], ◌∷◌, ◌++◌, ℤ, eqb_ℤ,
  length, set, All, ne→==, get_elem?-set_self, get_elem?-set_ne,
}
use linux_kernel_experiment.Event.Queue.{Node, Heap, live, node_at, found, points_to}
use linux_kernel_experiment.Event.Search.{IsChain, search_list}
use linux_kernel_experiment.Event.Counts.{IsCounted}
use linux_kernel_experiment.Event.Places.{node_at-lt}
use linux_kernel_experiment.Event.Close.{Lacks, Avoids, first_apart, set_avoided}

-- `prev->next = releaseItem->next`
abbrev pub past : Node → Node → Node
past u v = record u { next = v.next }

module _ (e : ℕ) (u : Node) (a : ℕ) (v : Node) (after : List (ℕ × Node)) where
  -- the queue before and after, with `front` before the node at `e`
  abbrev pub queue : List (ℕ × Node) → List (ℕ × Node)
  queue front = front ++ ((e, u) ∷ ((a, v) ∷ after))

  abbrev pub shorter : List (ℕ × Node) → List (ℕ × Node)
  shorter front = front ++ ((e, past u v) ∷ after)

  queue_tail :
      (P : ℕ × Node → Type 0) (front : List (ℕ × Node))
      → All P (queue front)
      → P (e, u) × P (a, v) × All P after
  queue_tail P [] h = (h.0, h.1.0, h.1.1)
  queue_tail P (x ∷ front) h = queue_tail P front h.1

  pub search_found :
      (ev : ℤ) (q : Option ℕ) (front : List (ℕ × Node))
      → Lacks ev front
      → eqb_ℤ u.event_num ev ≡ false
      → eqb_ℤ v.event_num ev ≡ true
      → search_list ev q (queue front) ≡ found a (some e)
  search_found ev q [] h k m = rw (k, m) refl
  search_found ev q ((b, w) ∷ front) h k m = rw h.0 (search_found ev (some b) front h.1 k m)

  pub shorter-Lacks :
      (ev : ℤ) (front : List (ℕ × Node))
      → Lacks ev front
      → eqb_ℤ u.event_num ev ≡ false
      → Lacks ev after
      → Lacks ev (shorter front)
  shorter-Lacks ev [] h k r = (k, r)
  shorter-Lacks ev (x ∷ front) h k r = (h.0, shorter-Lacks ev front h.1 k r)

  -- the node that is closed is not in the queue that is left
  pub shorter-Avoids :
      (heap : Heap) (p : Option ℕ) (front : List (ℕ × Node))
      → IsChain heap p (queue front)
      → Avoids a (shorter front)
  shorter-Avoids heap p [] h = (
    λ q. (first_apart heap p e u ((a, v) ∷ after) h).0 (sym q),
    first_apart heap u.next a v after h.2,
  )
  shorter-Avoids heap p ((b, w) ∷ front) h = (
    λ q. (queue_tail (λ x. b ≢ x.0) front (first_apart heap p b w (queue front) h)).1 (sym q),
    shorter-Avoids heap w.next front h.2,
  )

  -- the heap with the node at `e` past the closed one
  abbrev relinked : Heap → Heap
  relinked heap = set heap e (some (past u v))

  pub shorter-IsChain :
      (heap : Heap) (p : Option ℕ) (front : List (ℕ × Node))
      → IsChain heap p (queue front)
      → IsChain (relinked heap) p (shorter front)
  shorter-IsChain heap p [] h = (
    h.0,
    ap live (get_elem?-set_self heap e (some (past u v)) (node_at-lt heap e u h.1)),
    set_avoided heap e (some (past u v)) v.next after h.2.2
        (first_apart heap p e u ((a, v) ∷ after) h).1,
  )
  shorter-IsChain heap p ((b, w) ∷ front) h = (
    h.0,
    ap live (
          get_elem?-set_ne heap (some (past u v)) (λ q.
            (queue_tail (λ x. b ≢ x.0) front (first_apart heap p b w (queue front) h)).0 (sym q)))
        ∙ h.1,
    shorter-IsChain heap w.next front h.2,
  )

  pub shorter-IsCounted :
      (front : List (ℕ × Node))
      → All (λ x. IsCounted x.1) (queue front)
      → All (λ x. IsCounted x.1) (shorter front)
  shorter-IsCounted [] h =
      let o = h.0 in
      (
        record {
          first = o.first;
          init = o.init;
          small = o.small;
          limit = o.limit;
          sleepers = o.sleepers;
          few = o.few;
        },
        h.1.1,
      )
  shorter-IsCounted (x ∷ front) h = (h.0, shorter-IsCounted front h.1)

  -- the nodes of the queue that the search, the head and the writes meet
  pub queue_nodes :
      (heap : Heap) (p : Option ℕ) (front : List (ℕ × Node))
      → IsChain heap p (queue front)
      → (node_at heap e ≡ some u) × (node_at heap a ≡ some v)
  queue_nodes heap p [] h = (h.1, h.2.1)
  queue_nodes heap p ((b, w) ∷ front) h = queue_nodes heap w.next front h.2

  pub head_differs :
      (heap : Heap) (p : Option ℕ) (front : List (ℕ × Node))
      → IsChain heap p (queue front)
      → points_to p a ≡ false
  head_differs heap p [] h = ap (λ q. points_to q a) h.0 ∙ ne→== a e (shorter-Avoids heap p [] h).0
  head_differs heap p ((b, w) ∷ front) h =
      ap (λ q. points_to q a) h.0 ∙ ne→== a b (shorter-Avoids heap p ((b, w) ∷ front) h).0

  pub length-shorter :
      (front : List (ℕ × Node)) → suc (length (shorter front)) ≡ length (queue front)
  length-shorter [] = refl
  length-shorter (x ∷ front) = ap suc (length-shorter front)
