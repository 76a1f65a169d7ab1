-- ===== src/Pipe/Ring.antt =====
-- 实验7/scull/pipe.c: the pipe device, its reads, its writes and poll. Pointers into the buffer are offsets from
-- `dev->buffer`. The kernel is a 32-bit one, where `int`, `size_t` and pointer differences have 32 bits.
use linux_kernel_experiment.Prelude.{
  ℕ, ◌+◌, ◌-◌, Bool, true, false, Option, none, some, List, [], ◌∷◌, ℤ, pos, ◌+ℤ◌, ◌-ℤ◌, eqb_ℤ,
  to_int, bits32, rem_ℤ, ltb, leb, ◌==◌, if◌then◌else◌, length, splice, slice, least,
}
use linux_kernel_experiment.Kernel.{Kernel, Errno, Reply, count, error, eagain, efault, erestartsys}

-- `struct scull_pipe`; `async_queue` holds the files to be notified
pub record Pipe : Type 0 where
  pub buffer : Option (List ℕ)
  pub end_at : ℤ
  pub buffersize : ℤ
  pub rp : ℕ
  pub wp : ℕ
  pub nreaders : ℤ
  pub nwriters : ℤ
  pub async_queue : List ℕ

-- `filp->f_mode` and `filp->f_flags`
pub record File : Type 0 where
  pub for_read : Bool
  pub for_write : Bool
  pub nonblock : Bool

-- `spacefree` by the buffer's size and the pointers; `none` is a division by zero
unfoldable pub space : ℤ → ℕ → ℕ → Option ℤ
space size rp wp =
    if rp == wp
    then some (to_int (size -ℤ pos 1))
    else if eqb_ℤ size (pos 0)
    then none
    else some (rem_ℤ (to_int (pos rp +ℤ size -ℤ pos wp)) size -ℤ pos 1)

abbrev pub spacefree : Pipe → Option ℤ
spacefree p = space p.buffersize p.rp p.wp

-- What a sleeping call finds when it is woken: a pending signal, whether `down_interruptible` is
-- interrupted, and the device, which other calls may have changed meanwhile.
pub record Wake : Type 0 where
  pub signal : Bool
  pub interrupted : Bool
  pub pipe : Pipe

-- How a wait ends: the condition holds and the semaphore is held; the call gives up, without the
-- semaphore; the wakes have run out and it sleeps on; or it has divided by zero.
pub data Waited : Type 0 where
  ready : Pipe → Waited
  gives_up : Errno → Pipe → Waited
  asleep : Waited
  trap : Waited

-- a call that would wait, and what it does if it may sleep
abbrev pub would_block : File → Pipe → Waited → Waited
would_block f p wait = if f.nonblock then gives_up eagain p else wait

abbrev pub woken : Wake → Waited → Waited
woken w again =
    if w.signal
    then gives_up erestartsys w.pipe
    else if w.interrupted
    then gives_up erestartsys w.pipe
    else again

-- `while (dev->rp == dev->wp)` in `scull_p_read`
unfoldable pub await_data : File → Pipe → List Wake → Waited
await_data f p [] = if p.rp == p.wp then would_block f p asleep else ready p
await_data f p (w ∷ ws) =
    let again = await_data f w.pipe ws in
    if p.rp == p.wp then would_block f p (woken w again) else ready p

-- `while (spacefree(dev) == 0)`
abbrev pub while_full : Option ℤ → Pipe → Waited → Waited
while_full none p wait = trap
while_full (some n) p wait = if eqb_ℤ n (pos 0) then wait else ready p

-- `scull_getwritespace`
unfoldable pub getwritespace : File → Pipe → List Wake → Waited
getwritespace f p [] = while_full (spacefree p) p (would_block f p asleep)
getwritespace f p (w ∷ ws) =
    let again = getwritespace f w.pipe ws in
    while_full (spacefree p) p (would_block f p (woken w again))

-- What a call that returns leaves: the device, user memory, the reply, whether it woke the other
-- side's queue, and the files that it sent SIGIO.
pub record Effect : Type 0 where
  pub pipe : Pipe
  pub user : List ℕ
  pub reply : Reply
  pub wakes : Bool
  pub notified : List ℕ

pub data Outcome : Type 0 where
  returns : Effect → Outcome
  sleeps : Outcome
  faults : Outcome

-- a call that wakes nobody
abbrev pub silent : Pipe → List ℕ → Reply → Effect
silent p user r = record { pipe = p; user = user; reply = r; wakes = false; notified = [] }

abbrev pub quiet : Pipe → List ℕ → Reply → Outcome
quiet p user r = returns (silent p user r)

-- `(size_t)(dev->end - at)`
abbrev pub to_end : Pipe → ℕ → ℕ
to_end p at = bits32 (p.end_at -ℤ pos at)

-- an offset after it has moved, back at the start if it is `dev->end`
abbrev pub wrap_at : Pipe → ℕ → ℕ
wrap_at p at = if eqb_ℤ (pos at) p.end_at then 0 else at

-- how much of `count` a read takes
abbrev pub readable : Pipe → ℕ → ℕ
readable p n = if ltb p.rp p.wp then least n (p.wp - p.rp) else least n (to_end p p.rp)

-- what a read of `n` bytes leaves, with `user` copied
abbrev pub after_read : Pipe → List ℕ → ℕ → Effect
after_read p user n = record {
  pipe = record p { rp = wrap_at p (p.rp + n) };
  user = user;
  reply = count n;
  wakes = true;
  notified = [];
}

-- the copy out of the buffer `b`, and the new `rp`
unfoldable pub take_from : Kernel → Pipe → List ℕ → ℕ → List ℕ → Outcome
take_from k p user n b =
    let (user', left) = k.copy_to_user user (slice b p.rp n) in
    if ltb (length b) (p.rp + n)
    then faults
    else if left == 0
    then returns (after_read p user' n)
    else quiet p user' (error efault)

-- `scull_p_read` once there is data
abbrev pub take_bytes : Kernel → Pipe → List ℕ → ℕ → Outcome
take_bytes k p user n = elim p.buffer [ none ↦ faults | some b ↦ take_from k p user n b ]

abbrev pub read_after : Kernel → List ℕ → ℕ → Waited → Outcome
read_after k user n (ready p) = take_bytes k p user (readable p n)
read_after k user n (gives_up e p) = quiet p user (error e)
read_after k user n asleep = sleeps
read_after k user n trap = faults

-- `scull_p_read`; `interrupted` is the result of the first `down_interruptible`
unfoldable pub p_read : Kernel → File → Bool → Pipe → List Wake → List ℕ → ℕ → Outcome
p_read k f true p ws user n = quiet p user (error erestartsys)
p_read k f false p ws user n = read_after k user n (await_data f p ws)

-- how much of `count` a write takes, of the free space `free`
abbrev pub writable : Pipe → ℕ → ℕ → ℕ
writable p free n =
    if leb p.rp p.wp
    then least (least n free) (to_end p p.wp)
    else least (least n free) (p.rp - p.wp - 1)

-- what a write of `n` bytes leaves, in the pipe `p'` that holds them
abbrev pub after_write : Pipe → List ℕ → ℕ → Effect
after_write p' user n = record {
  pipe = record p' { wp = wrap_at p' (p'.wp + n) };
  user = user;
  reply = count n;
  wakes = true;
  notified = p'.async_queue;
}

-- the copy into the buffer `b`, and the new `wp`
unfoldable pub put_into : Kernel → Pipe → List ℕ → ℕ → List ℕ → Outcome
put_into k p user n b =
    let (bytes, left) = k.copy_from_user user n in
    let p' = record p { buffer = some (splice b p.wp bytes) } in
    if ltb (length b) (p.wp + n)
    then faults
    else if left == 0
    then returns (after_write p' user n)
    else quiet p' user (error efault)

-- `scull_p_write` once there is space
abbrev pub put_bytes : Kernel → Pipe → List ℕ → ℕ → Outcome
put_bytes k p user n = elim p.buffer [ none ↦ faults | some b ↦ put_into k p user n b ]

abbrev pub write_after : Kernel → List ℕ → ℕ → Waited → Outcome
write_after k user n (ready p) = elim (spacefree p) [
  | none ↦ faults
  | some free ↦ put_bytes k p user (writable p (bits32 free) n)
]
write_after k user n (gives_up e p) = quiet p user (error e)
write_after k user n asleep = sleeps
write_after k user n trap = faults

-- `scull_p_write`; `interrupted` is the result of the first `down_interruptible`
unfoldable pub p_write : Kernel → File → Bool → Pipe → List Wake → List ℕ → ℕ → Outcome
p_write k f true p ws user n = quiet p user (error erestartsys)
p_write k f false p ws user n = write_after k user n (getwritespace f p ws)

-- `POLLIN | POLLRDNORM` and `POLLOUT | POLLWRNORM`, which have no bit in common
abbrev pub pollin : ℕ
pollin = 0x41

abbrev pub pollout : ℕ
pollout = 0x104

-- `scull_p_poll`; `none` is a division by zero in `spacefree`
unfoldable pub p_poll : Pipe → Option ℕ
p_poll p =
    let readable = if p.rp == p.wp then 0 else pollin in
    elim (spacefree p) [
      | none ↦ none
      | some n ↦ some (readable + (if eqb_ℤ n (pos 0) then 0 else pollout))
    ]
