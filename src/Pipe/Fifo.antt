-- ===== src/Pipe/Fifo.antt =====
-- 实验7/scull/pipe.c: any sequence of reads and writes on one pipe. A call that has to wait takes no
-- part until it is made again: the calls that run in between stand in the sequence.
use linux_kernel_experiment.Prelude.{
  ℕ, ◌-◌, ◌≡◌, ◌⊎◌, inl, inr, refl, sym, ap, ap₂, subst, ◌∙◌, Bool, true, false, Option, none, some,
  List, [], ◌∷◌, ◌++◌, length, take, drop, ltb, ◌==◌, arith, Bool-cases, append_nil, append_assoc,
  take-append, pos,
}
use linux_kernel_experiment.Kernel.{Kernel, Reply, count, error, eagain, efault, Errno}
use linux_kernel_experiment.Pipe.Ring.{
  Pipe, File, await_data, getwritespace, Effect, Outcome, returns, sleeps, faults, quiet, p_read,
  p_write, spacefree,
}
use linux_kernel_experiment.Pipe.Contents.{contents}
use linux_kernel_experiment.Pipe.Shape.{IsValid, spacefree-contents}
use linux_kernel_experiment.Pipe.Reading.{Took, p_read-takes}
use linux_kernel_experiment.Pipe.Writing.{Gave, Spoilt, p_write-gives}

-- one call: whose file, whether `down_interruptible` is interrupted, user memory and the count
pub data Op : Type 0 where
  reads writes : (f : File) → (interrupted : Bool) → (user : List ℕ) → (n : ℕ) → Op

-- the bytes that a reply vouches for
abbrev pub moved : Reply → List ℕ → List ℕ
moved (count t) user = take t user
moved (error e) user = []

-- the pipe and the bytes that the calls delivered to readers and accepted from writers
pub record Log : Type 0 where
  pub pipe : Pipe
  pub delivered : List ℕ
  pub accepted : List ℕ

-- what one call does: the log of a call that sleeps is empty, `none` is a fault
abbrev pub read_log : Pipe → Outcome → Option Log
read_log p (returns out) =
    some (record { pipe = out.pipe; delivered = moved out.reply out.user; accepted = [] })
read_log p sleeps = some (record { pipe = p; delivered = []; accepted = [] })
read_log p faults = none

abbrev pub write_log : Pipe → Outcome → Option Log
write_log p (returns out) =
    some (record { pipe = out.pipe; delivered = []; accepted = moved out.reply out.user })
write_log p sleeps = some (record { pipe = p; delivered = []; accepted = [] })
write_log p faults = none

unfoldable pub perform : Kernel → Pipe → Op → Option Log
perform k p (reads f i user n) = read_log p (p_read k f i p [] user n)
perform k p (writes f i user n) = write_log p (p_write k f i p [] user n)

abbrev pub joined : Log → Log → Log
joined a c = record {
  pipe = c.pipe;
  delivered = a.delivered ++ c.delivered;
  accepted = a.accepted ++ c.accepted;
}

unfoldable pub run : Kernel → Pipe → List Op → Option Log
run k p [] = some (record { pipe = p; delivered = []; accepted = [] })
run k p (o ∷ os) = elim (perform k p o) [
  | none ↦ none
  | some a ↦ elim (run k a.pipe os) [ none ↦ none | some c ↦ some (joined a c) ]
]

-- from the queue `xs` on, the bytes come out as they went in
abbrev InOrder : ℕ → List ℕ → Log → Type 0
InOrder n xs l =
    (b : List ℕ) × IsValid n b l.pipe
    × (xs ++ l.accepted ≡ l.delivered ++ contents b l.pipe.rp l.pipe.wp)

unmoved :
    (n : ℕ) (b : List ℕ) (p : Pipe)
    → IsValid n b p
    → InOrder n (contents b p.rp p.wp) (record { pipe = p; delivered = []; accepted = [] })
unmoved n b p v = (b, v, append_nil (contents b p.rp p.wp))

Logged : ℕ → List ℕ → Option Log → Type 0
Logged n xs r = (l : Log) × (r ≡ some l) × InOrder n xs l

-- a call that replies an error or sleeps, on an empty or a full pipe
read_empty :
    (k : Kernel) (f : File) (p : Pipe) (user : List ℕ) (m : ℕ)
    → (p.rp == p.wp) ≡ true
    → (p_read k f false p [] user m ≡ sleeps)
      ⊎ (p_read k f false p [] user m ≡ quiet p user (error eagain))
unfolding p_read await_data
read_empty k f p user m e = elim (Bool-cases f.nonblock) [
  | inl now ↦ inr (rw (p_read, await_data, e, now) refl)
  | inr waits ↦ inl (rw (p_read, await_data, e, waits) refl)
]

write_full :
    (k : Kernel) (f : File) (p : Pipe) (user : List ℕ) (m : ℕ)
    → spacefree p ≡ some (pos 0)
    → (p_write k f false p [] user m ≡ sleeps)
      ⊎ (p_write k f false p [] user m ≡ quiet p user (error eagain))
unfolding p_write getwritespace
write_full k f p user m e = elim (Bool-cases f.nonblock) [
  | inl now ↦ inr (rw (p_write, getwritespace, e, now) refl)
  | inr waits ↦ inl (rw (p_write, getwritespace, e, waits) refl)
]

module _ {n : ℕ} {b : List ℕ} (k : Kernel) (p : Pipe) (v : IsValid n b p) where
  Took-InOrder :
      (user : List ℕ) (m : ℕ) (out : Effect)
      → Took n b p user m out
      → InOrder n
          (contents b p.rp p.wp)
          (record { pipe = out.pipe; delivered = moved out.reply out.user; accepted = [] })
  Took-InOrder user m out t =
      let e : moved out.reply out.user ≡ t.bytes =
        ap₂ moved t.reply t.user ∙ take-append t.bytes (drop (length t.bytes) user) in
      (
        b,
        t.valid,
        append_nil (contents b p.rp p.wp)
            ∙ t.queue
            ∙ ap (λ l. l ++ contents b out.pipe.rp out.pipe.wp) (sym e),
      )

  failed-InOrder :
      (out : Effect)
      → (e : Errno) → out.reply ≡ error e
      → out.pipe ≡ p
      → InOrder n
          (contents b p.rp p.wp)
          (record { pipe = out.pipe; delivered = moved out.reply out.user; accepted = [] })
  failed-InOrder out e r same = (
    b,
    subst (IsValid n b) (sym same) v,
    append_nil (contents b p.rp p.wp)
        ∙ ap (λ q. contents b q.rp q.wp) (sym same)
        ∙ ap (λ a. moved a out.user ++ contents b out.pipe.rp out.pipe.wp) (sym r),
  )

  reads-Logged :
      (f : File) (i : Bool) (user : List ℕ) (m : ℕ)
      → Logged n (contents b p.rp p.wp) (perform k p (reads f i user m))
  unfolding Logged perform p_read
  reads-Logged f true user m = (_, refl, unmoved n b p v)
  reads-Logged f false user m = elim (Bool-cases (p.rp == p.wp)) [
    | inl empty ↦ elim (read_empty k f p user m empty) [
      | inl waits ↦ (_, ap (read_log p) waits, unmoved n b p v)
      | inr now ↦ (_, ap (read_log p) now, unmoved n b p v)
    ]
    | inr data_there ↦
        let (out, ran, after) = p_read-takes k f p [] user m v (ground arith) in
        (
          _,
          ap (read_log p) ran,
          elim after [
            | inl (r, same) ↦ failed-InOrder out efault r same
            | inr t ↦ Took-InOrder user m out t
          ],
        )
  ]

  Gave-InOrder :
      (user : List ℕ) (m : ℕ) (out : Effect)
      → out.user ≡ user
      → Gave n b p user m out
      → InOrder n
          (contents b p.rp p.wp)
          (record { pipe = out.pipe; delivered = []; accepted = moved out.reply out.user })
  Gave-InOrder user m out u g =
      (g.buffer, g.valid, ap (λ l. contents b p.rp p.wp ++ l) (ap₂ moved g.reply u) ∙ sym g.queue)

  Spoilt-InOrder :
      (out : Effect)
      → Spoilt n b p out
      → InOrder n
          (contents b p.rp p.wp)
          (record { pipe = out.pipe; delivered = []; accepted = moved out.reply out.user })
  Spoilt-InOrder out g = (
    g.buffer,
    g.valid,
    ap (λ a. contents b p.rp p.wp ++ moved a out.user) g.reply
        ∙ append_nil (contents b p.rp p.wp)
        ∙ sym g.queue,
  )

  writes-Logged :
      (f : File) (i : Bool) (user : List ℕ) (m : ℕ)
      → Logged n (contents b p.rp p.wp) (perform k p (writes f i user m))
  unfolding Logged perform p_write
  writes-Logged f true user m = (_, refl, unmoved n b p v)
  writes-Logged f false user m = elim (Bool-cases (ltb (length (contents b p.rp p.wp)) (n - 1))) [
    | inl room ↦
        let (out, ran, after) = p_write-gives k f p [] user m v (ground arith) in
        (
          _,
          ap (write_log p) ran,
          elim after [ inl g ↦ Spoilt-InOrder out g | inr g ↦ Gave-InOrder user m out g.user g ],
        )
    | inr full ↦
        let e : spacefree p ≡ some (pos 0) =
          spacefree-contents p v ∙ ap (λ a. some (pos a)) (ground arith) in
        elim (write_full k f p user m e) [
          | inl waits ↦ (_, ap (write_log p) waits, unmoved n b p v)
          | inr now ↦ (_, ap (write_log p) now, unmoved n b p v)
        ]
  ]

perform-Logged :
    {n : ℕ} {b : List ℕ} (k : Kernel) (p : Pipe) (o : Op)
    → IsValid n b p
    → Logged n (contents b p.rp p.wp) (perform k p o)
perform-Logged k p (reads f i user m) v = reads-Logged k p v f i user m
perform-Logged k p (writes f i user m) v = writes-Logged k p v f i user m

in_order_trans :
    (xs a_in a_out c_in c_out mid last : List ℕ)
    → xs ++ a_in ≡ a_out ++ mid
    → mid ++ c_in ≡ c_out ++ last
    → xs ++ (a_in ++ c_in) ≡ (a_out ++ c_out) ++ last
in_order_trans xs a_in a_out c_in c_out mid last e e' =
    sym (append_assoc xs a_in c_in)
    ∙ ap (λ l. l ++ c_in) e
    ∙ append_assoc a_out mid c_in
    ∙ ap (λ l. a_out ++ l) e'
    ∙ sym (append_assoc a_out c_out last)

-- Any sequence of reads and writes on a valid pipe, blocking or not, interrupted or not, runs without
-- a fault and is first in, first out: the bytes that were in the pipe and then those accepted from the
-- writers are, in this order, the bytes delivered to the readers and then those still in the pipe.
pub run-fifo :
    (k : Kernel) (p : Pipe) (os : List Op) (n : ℕ) (b : List ℕ)
    → IsValid n b p
    → (l : Log) × (run k p os ≡ some l)
      × ((b' : List ℕ) × IsValid n b' l.pipe
          × (contents b p.rp p.wp ++ l.accepted ≡ l.delivered ++ contents b' l.pipe.rp l.pipe.wp))
unfolding run Logged
run-fifo k p [] n b v = (_, refl, unmoved n b p v)
run-fifo k p (o ∷ os) n b v =
    let (a, ran, (b', v', e)) = perform-Logged k p o v in
    let (c, ran', (b'', v'', e')) = run-fifo k a.pipe os n b' v' in
    (
      joined a c,
      rw (run, ran, ran') refl,
      (
        b'',
        v'',
        in_order_trans (contents b p.rp p.wp) a.accepted a.delivered c.accepted c.delivered
            (contents b' a.pipe.rp a.pipe.wp) (contents b'' c.pipe.rp c.pipe.wp) e e',
      ),
    )
