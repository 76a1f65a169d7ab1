-- ===== src/Access/Owner.antt =====
-- 实验7/scull/access.c: the two devices that belong to a user while they are open. `scull_u_open`
-- refuses other users, `scull_w_open` lets them wait. The two differ in nothing else.
use linux_kernel_experiment.Prelude.{
  ℕ, zero, suc, ◌≡◌, Bool, true, false, not, List, [], ◌∷◌, length, ◌==◌, if◌then◌else◌, arith, ℤ,
  pos, ◌+ℤ◌, ◌-ℤ◌, to_int, eqb_ℤ, ltb,
}
use linux_kernel_experiment.Kernel.{
  Memory, Errno, Reply, count, error, eagain, ebusy, erestartsys, Run, done,
}
use linux_kernel_experiment.Scull.Device.{Dev, Params, trim}
use linux_kernel_experiment.Scull.Seek.{is_write_only, opened}

-- `current->cred` and the verdict of `capable(CAP_DAC_OVERRIDE)`
pub record Cred : Type 0 where
  pub uid : ℕ
  pub euid : ℕ
  pub overrides : Bool

-- `scull_u_count` and `scull_u_owner`, or their `scull_w` kin
pub record Lock : Type 0 where
  pub openings : ℤ
  pub owner : ℕ

-- `scull_w_available`
abbrev pub available_to : Cred → Lock → Bool
available_to c l =
    if eqb_ℤ l.openings (pos 0)
    then true
    else if l.owner == c.uid
    then true
    else if l.owner == c.euid
    then true
    else c.overrides

-- the test in `scull_u_open`
abbrev pub refused_to : Cred → Lock → Bool
refused_to c l =
    if eqb_ℤ l.openings (pos 0)
    then false
    else if not (l.owner == c.uid)
    then (if not (l.owner == c.euid) then not c.overrides else false)
    else false

-- "grab it", and count the opening
abbrev pub grab : Cred → Lock → Lock
grab c l = record {
  openings = to_int (l.openings +ℤ pos 1);
  owner = if eqb_ℤ l.openings (pos 0) then c.uid else l.owner;
}

-- `scull_u_release`, and `scull_w_release` without its waking of the queue
unfoldable pub let_go : Lock → Lock
let_go l = record l { openings = to_int (l.openings -ℤ pos 1) }

-- "then, everything else is copied from the bare scull device"
unfoldable pub copied_open : Params → ℕ → Dev → Memory → Run (Dev × Memory × Reply)
copied_open g flags d m = if is_write_only flags then opened (trim g d m) else done (d, m, count 0)

-- `scull_u_open`: the lock afterwards, and the rest of the call
unfoldable pub u_open : Params → Cred → ℕ → Lock → Dev → Memory → Lock × Run (Dev × Memory × Reply)
u_open g c flags l d m =
    if refused_to c l then (l, done (d, m, error ebusy)) else (grab c l, copied_open g flags d m)

-- what a process that waits in `scull_w_open` finds: a signal, or the lock, the device and the memory
-- as others have left them
pub data Woken : Type 0 where
  signalled : Woken
  sees : (l : Lock) → (d : Dev) → (m : Memory) → Woken

-- how the loop of `scull_w_open` ends
pub data Entry : Type 0 where
  enters : Lock → Dev → Memory → Entry
  turned_away : Errno → Entry
  still_waiting : Entry

-- `while (! scull_w_available())`; after each wake the loop tests again
unfoldable pub wait_for_turn : Cred → Bool → Lock → Dev → Memory → List Woken → Entry
wait_for_turn c nonblock l d m [] =
    if available_to c l
    then enters l d m
    else if nonblock
    then turned_away eagain
    else still_waiting
wait_for_turn c nonblock l d m (signalled ∷ ws) =
    if available_to c l
    then enters l d m
    else if nonblock
    then turned_away eagain
    else turned_away erestartsys
wait_for_turn c nonblock l d m (sees l' d' m' ∷ ws) =
    let later = wait_for_turn c nonblock l' d' m' ws in
    if available_to c l then enters l d m else if nonblock then turned_away eagain else later

-- how `scull_w_open` ends: with the lock taken, and the rest of the call; with an error; or not yet
pub data Admission : Type 0 where
  admitted : Lock → Run (Dev × Memory × Reply) → Admission
  denied : Errno → Admission
  queued : Admission

abbrev pub admit : Params → Cred → ℕ → Entry → Admission
admit g c flags (enters l d m) = admitted (grab c l) (copied_open g flags d m)
admit g c flags (turned_away e) = denied e
admit g c flags still_waiting = queued

-- `scull_w_open`
abbrev pub w_open : Params → Cred → Bool → ℕ → Lock → Dev → Memory → List Woken → Admission
w_open g c nonblock flags l d m ws = admit g c flags (wait_for_turn c nonblock l d m ws)

-- `scull_w_release`: the lock, and whether the waiting processes are woken
abbrev pub w_release : Lock → Lock × Bool
w_release l = let l' = let_go l in (l', eqb_ℤ l'.openings (pos 0))

-- the two tests are one
pub refused_to-available_to : (c : Cred) (l : Lock) → refused_to c l ≡ not (available_to c l)
refused_to-available_to c l = ground arith

-- the lock and those who have the device open
pub record Held : Type 0 where
  pub lock : Lock
  pub holders : List Cred

-- one call on the device: an open, or the release by the holder at some place of the list
pub data Use : Type 0 where
  enter : Cred → Use
  leave_at : ℕ → Use

abbrev pub remove {ℓ} : {A : Type ℓ} → ℕ → List A → List A
remove n [] = []
remove zero (x ∷ xs) = xs
remove (suc n) (x ∷ xs) = x ∷ remove n xs

abbrev pub let_go_at : ℕ → Held → Held
let_go_at n h =
    if ltb n (length h.holders)
    then record { lock = let_go h.lock; holders = remove n h.holders }
    else h

unfoldable pub use_lock : Held → Use → Held
use_lock h (enter c) =
    if refused_to c h.lock then h else record { lock = grab c h.lock; holders = c ∷ h.holders }
use_lock h (leave_at n) = let_go_at n h

unfoldable pub use_all : Held → List Use → Held
use_all h [] = h
use_all h (u ∷ us) = use_all (use_lock h u) us
