-- ===== src/Access/Turns.antt =====
-- 实验7/scull/access.c: whom the open routines of the per-user devices let in.
use linux_kernel_experiment.Prelude.{
  ◌≡◌, ◌⊎◌, inl, inr, refl, ap, ◌∙◌, Bool, true, false, not, List, [], ◌∷◌, ℕ, Bool-cases,
  if◌then◌else◌,
}
use linux_kernel_experiment.Kernel.{Memory, error, ebusy, done, eagain, erestartsys}
use linux_kernel_experiment.Scull.Device.{Dev, Params}
use linux_kernel_experiment.Access.Owner.{
  Cred, Lock, available_to, refused_to, refused_to-available_to, grab, copied_open, u_open, Woken,
  signalled, sees, Entry, enters, turned_away, still_waiting, wait_for_turn,
}

-- `scull_u_open` lets a process in exactly if `scull_w_open` would let it in without waiting; a process
-- that it refuses gets EBUSY, and lock, device and memory stay as they are.
pub u_open-available_to :
    (g : Params) (c : Cred) (flags : ℕ) (l : Lock) (d : Dev) (m : Memory)
    → ((wait_for_turn c true l d m [] ≡ enters l d m)
        × (u_open g c flags l d m ≡ (grab c l, copied_open g flags d m)))
      ⊎ ((wait_for_turn c true l d m [] ≡ turned_away eagain)
          × (u_open g c flags l d m ≡ (l, done (d, m, error ebusy))))
unfolding u_open wait_for_turn
u_open-available_to g c flags l d m = elim (Bool-cases (available_to c l)) [
  | inl free ↦
      let e : refused_to c l ≡ false = refused_to-available_to c l ∙ ap not free in
      inl (rw (wait_for_turn, free) refl, rw (u_open, e) refl)
  | inr held ↦
      let e : refused_to c l ≡ true = refused_to-available_to c l ∙ ap not held in
      inr (rw (wait_for_turn, held) refl, rw (u_open, e) refl)
]

-- what the end of a wait says
abbrev pub Turn : Cred → Bool → Entry → Type 0
Turn c nonblock (enters l d m) = available_to c l ≡ true
Turn c nonblock (turned_away e) =
    ((e ≡ eagain) × (nonblock ≡ true)) ⊎ ((e ≡ erestartsys) × (nonblock ≡ false))
Turn c nonblock still_waiting = nonblock ≡ false

blocked_end :
    (c : Cred) (nonblock : Bool)
    → Turn c nonblock (if nonblock then turned_away eagain else still_waiting)
blocked_end c true = inl (refl, refl)
blocked_end c false = refl

signalled_end :
    (c : Cred) (nonblock : Bool)
    → Turn c nonblock (if nonblock then turned_away eagain else turned_away erestartsys)
signalled_end c true = inl (refl, refl)
signalled_end c false = inr (refl, refl)

later_end :
    (c : Cred) (nonblock : Bool) (e : Entry)
    → Turn c nonblock e
    → Turn c nonblock (if nonblock then turned_away eagain else e)
later_end c true e h = inl (refl, refl)
later_end c false e h = h

-- A process that comes through the loop of `scull_w_open` finds the device available to it; one that
-- may not wait is turned away by EAGAIN, and one that may wait only by a signal.
wait_for_turn-Turn :
    (c : Cred) (nonblock : Bool) (l : Lock) (d : Dev) (m : Memory) (ws : List Woken)
    → Turn c nonblock (wait_for_turn c nonblock l d m ws)
unfolding wait_for_turn
wait_for_turn-Turn c nonblock l d m [] = elim (Bool-cases (available_to c l)) [
  | inl free ↦ rw (wait_for_turn, free) free
  | inr held ↦ rw (wait_for_turn, held) (blocked_end c nonblock)
]
wait_for_turn-Turn c nonblock l d m (signalled ∷ ws) = elim (Bool-cases (available_to c l)) [
  | inl free ↦ rw (wait_for_turn, free) free
  | inr held ↦ rw (wait_for_turn, held) (signalled_end c nonblock)
]
wait_for_turn-Turn c nonblock l d m (sees l' d' m' ∷ ws) = elim (Bool-cases (available_to c l)) [
  | inl free ↦ rw (wait_for_turn, free) free
  | inr held ↦
      rw (wait_for_turn, held)
        (later_end c nonblock (wait_for_turn c nonblock l' d' m' ws)
          (wait_for_turn-Turn c nonblock l' d' m' ws))
]
