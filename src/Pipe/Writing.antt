-- ===== src/Pipe/Writing.antt =====
-- 实验7/scull/pipe.c: what `scull_p_write` stores and leaves.
use linux_kernel_experiment.Prelude.{
  ℕ, ◌+◌, ◌-◌, ◌^◌, ◌<◌, ◌≤◌, ◌≡◌, ◌⊎◌, inl, inr, refl, sym, ap, ◌∙◌, true, false, none, some, List,
  [], ◌∷◌, ◌++◌, ==→eq, pos, length, take, splice, ltb, ◌==◌, arith, Bool-cases, bits32, bits32-pos,
  eqb_ℤ,
}
use linux_kernel_experiment.Kernel.{Kernel, count, error, efault}
use linux_kernel_experiment.Pipe.Ring.{
  Pipe, File, Wake, ready, getwritespace, spacefree, Effect, returns, writable, put_bytes, put_into,
  faults, write_after, silent, after_write, p_write,
}
use linux_kernel_experiment.Pipe.Contents.{contents, contents-splice_free}
use linux_kernel_experiment.Pipe.Shape.{IsValid, used, spacefree-used, used-contents}
use linux_kernel_experiment.Pipe.Fitting.{
  filled, Fits, writable-Fits, writable-le, writable-some, filled-IsValid, advance_write-IsValid,
  contents-wrap_at, contents-filled,
}

getwritespace-ready :
    (f : File) (p : Pipe) (ws : List Wake) (free : ℕ)
    → spacefree p ≡ some (pos free)
    → 0 < free
    → getwritespace f p ws ≡ ready p
unfolding getwritespace
getwritespace-ready f p [] free e h =
    let room : eqb_ℤ (pos free) (pos 0) ≡ false = ground arith in rw (getwritespace, e, room)
getwritespace-ready f p (w ∷ ws) free e h =
    let room : eqb_ℤ (pos free) (pos 0) ≡ false = ground arith in rw (getwritespace, e, room)

-- A write that stored the first bytes of `source`, of `m` asked for.
pub record Gave (n : ℕ) (b : List ℕ) (p : Pipe) (source : List ℕ) (m : ℕ) (out : Effect)
    : Type 0 where
  pub count_of : ℕ
  pub buffer : List ℕ
  pub reply : out.reply ≡ count count_of
  pub queue : contents buffer out.pipe.rp out.pipe.wp ≡ contents b p.rp p.wp ++ take count_of source
  pub valid : IsValid n buffer out.pipe
  pub limit : count_of ≤ m
  pub some_byte : (0 < m) → 0 < count_of
  pub wakes : out.wakes ≡ true
  pub notified : out.notified ≡ p.async_queue
  pub user : out.user ≡ source

-- A write that failed to copy: the queue is as it was.
pub record Spoilt (n : ℕ) (b : List ℕ) (p : Pipe) (out : Effect) : Type 0 where
  pub buffer : List ℕ
  pub reply : out.reply ≡ error efault
  pub queue : contents buffer out.pipe.rp out.pipe.wp ≡ contents b p.rp p.wp
  pub valid : IsValid n buffer out.pipe

module _ {n : ℕ} {b : List ℕ} where
  gave :
      (p : Pipe) (user ys : List ℕ) (m t : ℕ)
      → IsValid n b p
      → length ys ≡ t
      → ys ≡ take t user
      → Fits n p.rp p.wp t
      → p.wp + t ≤ n
      → t ≤ m
      → ((0 < m) → 0 < t)
      → Gave n b p user m (after_write (filled p b ys) user t)
  gave p user ys m t v e e' h inside ht some_byte = record {
    count_of = t;
    buffer = splice b p.wp ys;
    reply = refl;
    queue =
        sym (
          contents-wrap_at (filled p b ys) (p.wp + t) (filled-IsValid p ys v)
            (λ start. short start h))
        ∙ ap (λ a. contents (splice b p.wp ys) p.rp (p.wp + a)) (sym e)
        ∙ contents-filled p ys v (rw e h)
        ∙ ap (λ l. contents b p.rp p.wp ++ l) e';
    valid = advance_write-IsValid (filled p b ys) t (filled-IsValid p ys v) inside;
    limit = ht;
    some_byte = some_byte;
    wakes = refl;
    notified = refl;
    user = refl;
  }
    where
      short : p.rp ≡ 0 → Fits n p.rp p.wp t → p.wp + t < n
      short start (inl (_, _, limit)) = limit start
      short start (inr (wrapped, fits)) = omega arith

  spoilt :
      (p : Pipe) (user ys : List ℕ) (t : ℕ)
      → IsValid n b p
      → length ys ≡ t
      → Fits n p.rp p.wp t
      → Spoilt n b p (silent (filled p b ys) user (error efault))
  spoilt p user ys t v e h = record {
    buffer = splice b p.wp ys;
    reply = refl;
    queue = contents-splice_free b p.rp p.wp ys (apart h);
    valid = filled-IsValid p ys v;
  }
    where
      apart : Fits n p.rp p.wp t → (p.rp ≤ p.wp) ⊎ (p.wp + length ys < p.rp)
      apart (inl (ahead, _, _)) = inl ahead
      apart (inr (wrapped, fits)) = inr (omega (arith, e, fits))

  put_into-Gave :
      (k : Kernel) (p : Pipe) (user : List ℕ) (m t : ℕ)
      → IsValid n b p
      → Fits n p.rp p.wp t
      → t ≤ m
      → ((0 < m) → 0 < t)
      → (out : Effect) × (put_into k p user t b ≡ returns out)
        × (Spoilt n b p out ⊎ Gave n b p user m out)
  unfolding put_into
  put_into-Gave k p user m t v h ht some_byte =
      let inside : p.wp + t ≤ n = elim h [
        | inl (_, fits, _) ↦ fits
        | inr (_, fits) ↦ omega (arith, v.rp)
      ] in
      let room : ltb (length b) (p.wp + t) ≡ false = ground (arith, v.size) in
      let ys = (k.copy_from_user user t).0 in
      let left = (k.copy_from_user user t).1 in
      let e = k.length-copy_from_user user t in
      elim (Bool-cases (left == 0)) [
        | inl whole ↦ (
          after_write (filled p b ys) user t,
          rw (put_into, room, whole) refl,
          inr (
              gave p user ys m t v e (k.copy_from_user_all user t (==→eq left 0 whole)) h inside ht
                some_byte),
        )
        | inr short ↦ (
          silent (filled p b ys) user (error efault),
          rw (put_into, room, short) refl,
          inl (spoilt p user ys t v e h),
        )
      ]

  -- A `scull_p_write` that gets the semaphore of a valid pipe with less than `n - 1` bytes in it does
  -- not sleep or fault. It replies EFAULT and leaves the queue of bytes as it is, or it appends the
  -- first bytes of the user's buffer, at most as many as asked for and at least one if any were; the
  -- pipe is valid, the readers are woken and the files of the async queue notified.
  pub p_write-gives :
      (k : Kernel) (f : File) (p : Pipe) (ws : List Wake) (user : List ℕ) (m : ℕ)
      → IsValid n b p
      → length (contents b p.rp p.wp) < n - 1
      → (out : Effect) × (p_write k f false p ws user m ≡ returns out)
        × (Spoilt n b p out ⊎ Gave n b p user m out)
  unfolding p_write
  p_write-gives k f p ws user m v free =
      let room = n - 1 - used n p.rp p.wp in
      let e = spacefree-used p v in
      let some_room : 0 < room = omega (arith, used-contents p v, free) in
      let t = writable p room m in
      let fits : room < 2 ^ 32 = omega (arith, v.fits) in
      let (out, ran, after) =
        put_into-Gave k p user m t v (writable-Fits p m v) (writable-le p room m v)
          (writable-some p m v some_room) in
      (
        out,
        ap (write_after k user m) (getwritespace-ready f p ws room e some_room)
            ∙ ap
                (λ s. elim s [
                  | none ↦ faults
                  | some a ↦ put_bytes k p user (writable p (bits32 a) m)
                ])
                e
            ∙ ap (λ a. put_bytes k p user (writable p a m)) (bits32-pos room fits)
            ∙ ap (λ a. elim a [ none ↦ faults | some b ↦ put_into k p user t b ]) v.buffer
            ∙ ran,
        after,
      )
