-- ===== src/Pipe/Reading.antt =====
-- 实验7/scull/pipe.c: what `scull_p_read` delivers and leaves.
use linux_kernel_experiment.Prelude.{
  ℕ, ◌+◌, ◌-◌, ◌<◌, ◌≤◌, ◌≡◌, ◌≢◌, ◌⊎◌, inl, inr, refl, sym, ap, ◌∙◌, true, false, none, some, List,
  [], ◌∷◌, ◌++◌, ==→eq, length, drop, slice, least, ltb, ◌==◌, if◌then◌else◌, arith, Bool-cases,
  length-slice,
}
use linux_kernel_experiment.Kernel.{Kernel, count, error, efault}
use linux_kernel_experiment.Pipe.Ring.{
  Pipe, File, Wake, ready, await_data, Effect, returns, wrap_at, readable, take_from, faults,
  read_after, silent, after_read, p_read,
}
use linux_kernel_experiment.Pipe.Contents.{
  contents, contents-read_ahead, contents-read_wrapped, contents-rewind,
}
use linux_kernel_experiment.Pipe.Shape.{IsValid, to_end-IsValid, wrap_at-IsValid}

-- the pipe after `t` bytes are taken
abbrev pub advance_read : Pipe → ℕ → Pipe
advance_read p t = record p { rp = wrap_at p (p.rp + t) }

-- the bytes up to `wp` or to the end of the buffer
abbrev Contiguous : ℕ → ℕ → ℕ → ℕ → Type 0
Contiguous n rp wp t = ((rp < wp) × (rp + t ≤ wp)) ⊎ ((wp < rp) × (rp + t ≤ n))

module _ {n : ℕ} {b : List ℕ} where
  readable-IsValid :
      (p : Pipe) (m : ℕ)
      → IsValid n b p
      → readable p m ≡ (if ltb p.rp p.wp then least m (p.wp - p.rp) else least m (n - p.rp))
  readable-IsValid p m v =
      ap (λ a. if ltb p.rp p.wp then least m (p.wp - p.rp) else least m a)
        (to_end-IsValid p p.rp v (omega (arith, v.rp)))

  readable-Contiguous :
      (p : Pipe) (m : ℕ) → IsValid n b p → p.rp ≢ p.wp → Contiguous n p.rp p.wp (readable p m)
  readable-Contiguous p m v apart = elim (Bool-cases (ltb p.rp p.wp)) [
    | inl ahead ↦ rw (readable-IsValid p m v, ahead) (inl (ground arith, ground arith))
    | inr wrapped ↦ rw (readable-IsValid p m v, wrapped) (inr (ground arith, ground (arith, v.rp)))
  ]

  advance_read-IsValid :
      (p : Pipe) (t : ℕ) → IsValid n b p → p.rp + t ≤ n → IsValid n b (advance_read p t)
  advance_read-IsValid p t v h = record {
    buffer = v.buffer;
    size = v.size;
    fits = v.fits;
    buffersize = v.buffersize;
    end_at = v.end_at;
    rp = rw (wrap_at-IsValid p (p.rp + t) v) (ground (arith, v.rp));
    wp = v.wp;
  }

  contents-wrap_at :
      (p : Pipe) (at : ℕ) → IsValid n b p → contents b at p.wp ≡ contents b (wrap_at p at) p.wp
  contents-wrap_at p at v = elim (Bool-cases (at == n)) [
    | inl reached ↦
        rw (wrap_at-IsValid p at v, reached)
          (contents-rewind b at p.wp (ground (arith, v.size)) (omega (arith, v.size, v.wp)))
    | inr short ↦ rw (wrap_at-IsValid p at v, short) refl
  ]

  contents-advance_read :
      (p : Pipe) (t : ℕ)
      → IsValid n b p
      → Contiguous n p.rp p.wp t
      → contents b p.rp p.wp ≡ slice b p.rp t ++ contents b (wrap_at p (p.rp + t)) p.wp
  contents-advance_read p t v h =
      (elim h [
        | inl (ahead, fits) ↦ contents-read_ahead b p.rp p.wp t fits
        | inr (wrapped, fits) ↦ contents-read_wrapped b p.rp p.wp t wrapped
      ])
      ∙ ap (λ l. slice b p.rp t ++ l) (contents-wrap_at p (p.rp + t) v)

-- A read that delivered `bytes`, of `m` asked for.
pub record Took (n : ℕ) (b : List ℕ) (p : Pipe) (room : List ℕ) (m : ℕ) (out : Effect)
    : Type 0 where
  pub bytes : List ℕ
  pub reply : out.reply ≡ count (length bytes)
  pub user : out.user ≡ bytes ++ drop (length bytes) room
  pub queue : contents b p.rp p.wp ≡ bytes ++ contents b out.pipe.rp out.pipe.wp
  pub valid : IsValid n b out.pipe
  pub limit : length bytes ≤ m
  pub some_byte : (0 < m) → 0 < length bytes
  pub wakes : out.wakes ≡ true

await_data-ready :
    (f : File) (p : Pipe) (ws : List Wake) → p.rp ≢ p.wp → await_data f p ws ≡ ready p
unfolding await_data
await_data-ready f p [] apart = let e : (p.rp == p.wp) ≡ false = ground arith in rw (await_data, e)
await_data-ready f p (w ∷ ws) apart =
    let e : (p.rp == p.wp) ≡ false = ground arith in rw (await_data, e)

module _ {n : ℕ} {b : List ℕ} where
  took :
      (k : Kernel) (p : Pipe) (user : List ℕ) (m t : ℕ)
      → IsValid n b p
      → Contiguous n p.rp p.wp t
      → p.rp + t ≤ n
      → t ≤ m
      → ((0 < m) → 0 < t)
      → (k.copy_to_user user (slice b p.rp t)).1 ≡ 0
      → Took n b p user m (after_read p (k.copy_to_user user (slice b p.rp t)).0 t)
  took k p user m t v h inside ht some_byte copied =
      let e = length-slice b p.rp t (omega (arith, v.size)) in
      record {
        bytes = slice b p.rp t;
        reply = ap count (sym e);
        user = k.copy_to_user_all user (slice b p.rp t) copied;
        queue = contents-advance_read p t v h;
        valid = advance_read-IsValid p t v inside;
        limit = omega (arith, e);
        some_byte = λ h. omega (arith, e, some_byte h);
        wakes = refl;
      }

  take_from-Took :
      (k : Kernel) (p : Pipe) (user : List ℕ) (m t : ℕ)
      → IsValid n b p
      → Contiguous n p.rp p.wp t
      → t ≤ m
      → ((0 < m) → 0 < t)
      → (out : Effect) × (take_from k p user t b ≡ returns out)
        × (((out.reply ≡ error efault) × (out.pipe ≡ p)) ⊎ Took n b p user m out)
  unfolding take_from
  take_from-Took k p user m t v h ht some_byte =
      let inside : p.rp + t ≤ n = elim h [
        | inl (ahead, fits) ↦ omega (arith, v.wp)
        | inr (_, fits) ↦ fits
      ] in
      let room : ltb (length b) (p.rp + t) ≡ false = ground (arith, v.size) in
      let (user', left) = k.copy_to_user user (slice b p.rp t) in
      elim (Bool-cases (left == 0)) [
        | inl whole ↦ (
          after_read p user' t,
          rw (take_from, room, whole) refl,
          inr (took k p user m t v h inside ht some_byte (==→eq left 0 whole)),
        )
        | inr short ↦
            (silent p user' (error efault), rw (take_from, room, short) refl, inl (refl, refl))
      ]

  -- A `scull_p_read` that gets the semaphore of a valid pipe with data in it does not sleep or fault. It
  -- replies EFAULT and leaves the pipe as it is, or it delivers the oldest bytes, at most as many as
  -- asked for and at least one if any were: they are gone from the queue, the pipe is valid, and the
  -- writers are woken.
  pub p_read-takes :
      (k : Kernel) (f : File) (p : Pipe) (ws : List Wake) (user : List ℕ) (m : ℕ)
      → IsValid n b p
      → p.rp ≢ p.wp
      → (out : Effect) × (p_read k f false p ws user m ≡ returns out)
        × (((out.reply ≡ error efault) × (out.pipe ≡ p)) ⊎ Took n b p user m out)
  unfolding p_read await_data
  p_read-takes k f p ws user m v apart =
      let h = readable-Contiguous p m v apart in
      let (out, ran, after) =
        take_from-Took k p user m (readable p m) v h (rw (readable-IsValid p m v) (ground arith))
          (λ some_byte. rw (readable-IsValid p m v) (ground (arith, v.rp))) in
      (
        out,
        ap (read_after k user m) (await_data-ready f p ws apart)
            ∙ ap (λ a. elim a [ none ↦ faults | some b ↦ take_from k p user (readable p m) b ])
                v.buffer
            ∙ ran,
        after,
      )
