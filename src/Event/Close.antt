-- ===== src/Event/Close.antt =====
-- 实验6/others/exp6.c: closing an event that is not the last one takes it out of the queue.
use linux_kernel_experiment.Prelude.{
  ℕ, suc, ◌<◌, ◌≤◌, ◌≡◌, ◌≢◌, refl, ap, sym, subst, ◌∙◌, false, Option, none, some, List, [], ◌∷◌,
  ◌++◌, ℤ, pos, eqb_ℤ, length, set, All, ne→==, arith, get_elem?-set_ne,
}
use linux_kernel_experiment.Event.Queue.{Node, Heap, live, node_at, Events, absent, points_to}
use linux_kernel_experiment.Event.Calls.{returns, signal_event, freed, close_at}
use linux_kernel_experiment.Event.Search.{IsChain, search_list, find-search_list}
use linux_kernel_experiment.Event.Places.{last_of, some_inj}

-- no node of the list has the number
abbrev pub Lacks : ℤ → List (ℕ × Node) → Type 0
Lacks ev l = All (λ x. eqb_ℤ x.1.event_num ev ≡ false) l

-- no node of the list has the address
abbrev pub Avoids : ℕ → List (ℕ × Node) → Type 0
Avoids a l = All (λ x. a ≢ x.0) l

address_inj : (a b : ℕ) → some a ≡ some b → a ≡ b
address_inj a b e = cc

no_end : (a : ℕ) → some a ≢ none
no_end a e = cc

-- two chains from one place have the same length
same_length :
    (heap : Heap) (p : Option ℕ) (l m : List (ℕ × Node))
    → IsChain heap p l
    → IsChain heap p m
    → length l ≡ length m
same_length heap p [] [] h k = refl
same_length heap p [] ((b, w) ∷ m) h k = absurd (no_end b (sym k.0 ∙ h))
same_length heap p ((a, v) ∷ l) [] h k = absurd (no_end a (sym h.0 ∙ k))
same_length heap p ((a, v) ∷ l) ((b, w) ∷ m) h k =
    let at = address_inj a b (sym h.0 ∙ k.0) in
    let same = some_inj v w (sym h.1 ∙ ap (node_at heap) at ∙ k.1) in
    ap suc
      (same_length heap w.next l m (subst (λ n. IsChain heap n l) (ap (λ u. u.next) same) h.2) k.2)

-- a chain never comes back to where a longer one starts
apart :
    (heap : Heap) (a : ℕ) (long : List (ℕ × Node)) (p : Option ℕ) (l : List (ℕ × Node))
    → IsChain heap (some a) long
    → length l < length long
    → IsChain heap p l
    → Avoids a l
apart heap a long p [] h less k = tt
apart heap a long p ((b, w) ∷ l) h less k = (
  λ e.
      let here = subst (λ q. IsChain heap q ((b, w) ∷ l)) (k.0 ∙ ap some (sym e)) k in
      absurd (omega (arith, same_length heap (some a) long ((b, w) ∷ l) h here, less)),
  apart heap a long w.next l h (omega (arith, less)) k.2,
)

pub first_apart :
    (heap : Heap) (p : Option ℕ) (a : ℕ) (v : Node) (l : List (ℕ × Node))
    → IsChain heap p ((a, v) ∷ l)
    → Avoids a l
first_apart heap p a v l h = apart heap a ((a, v) ∷ l) v.next l (refl, h.1, h.2) (omega arith) h.2

-- a node that is not in the chain may be written or freed
pub set_avoided :
    (heap : Heap) (a : ℕ) (o : Option Node) (p : Option ℕ) (l : List (ℕ × Node))
    → IsChain heap p l
    → Avoids a l
    → IsChain (set heap a o) p l
set_avoided heap a o p [] h k = h
set_avoided heap a o p ((b, w) ∷ l) h k =
    (h.0, ap live (get_elem?-set_ne heap o k.0) ∙ h.1, set_avoided heap a o w.next l h.2 k.1)

search_lacking :
    (ev : ℤ) (q : Option ℕ) (l : List (ℕ × Node))
    → Lacks ev l
    → (q' : Option ℕ) × (search_list ev q l ≡ absent q')
search_lacking ev q [] h = (q, refl)
search_lacking ev q ((a, v) ∷ l) h =
    let (q', e) = search_lacking ev (some a) l h.1 in (q', rw h.0 e)

-- a signal of an event that is not there does nothing
signal_lacking :
    (fuel : ℕ) (ev : ℤ) (s : Events) (l : List (ℕ × Node))
    → IsChain s.heap s.head l
    → length l ≤ fuel
    → Lacks ev l
    → signal_event fuel ev s ≡ returns s (pos 0)
unfolding signal_event
signal_lacking fuel ev s l h enough k =
    let (q, e) = search_lacking ev none l k in
    rw (find-search_list fuel s.heap ev none s.head l h enough, e) refl

-- the end of a call of `myevent_close` for a node that was taken out of the queue
abbrev pub without : ℕ → Events → Events
without a s = record s { heap = set s.heap a none }

pub close_at_lem :
    (fuel : ℕ) (ev : ℤ) (a : ℕ) (s : Events) (l : List (ℕ × Node))
    → IsChain s.heap s.head l
    → length l ≤ fuel
    → Lacks ev l
    → close_at fuel ev a (some s) ≡ returns (without a s) ev
close_at_lem fuel ev a s l h enough k = ap (freed ev a) (signal_lacking fuel ev s l h enough k)

pub last_of-append :
    (front : List (ℕ × Node)) (y : ℕ × Node) (l : List (ℕ × Node))
    → last_of (front ++ (y ∷ l)) ≡ last_of (y ∷ l)
last_of-append [] y l = refl
last_of-append (x ∷ []) y l = refl
last_of-append (x ∷ (z ∷ front)) y l = last_of-append (z ∷ front) y l

pub last-Avoids :
    (a : ℕ) (y : ℕ × Node) (l : List (ℕ × Node))
    → Avoids a (y ∷ l)
    → points_to (last_of (y ∷ l)) a ≡ false
last-Avoids a (b, w) [] h = ne→== a b h.0
last-Avoids a (b, w) (z ∷ l) h = last-Avoids a z l h.1
