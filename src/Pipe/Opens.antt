-- ===== src/Pipe/Opens.antt =====
-- 实验7/scull/pipe.c: the counts of readers and writers, and when the buffer is held.
use linux_kernel_experiment.Prelude.{
  ℕ, ◌+◌, ◌-◌, ◌^◌, ◌<◌, ◌≤◌, ◌≡◌, ◌⊎◌, inl, inr, refl, ap, ap₂, ◌∙◌, Bool, true, false, none, some,
  List, pos, ◌+ℤ◌, ◌-ℤ◌, to_int, bits32, eqb_ℤ, ◌==◌, if◌then◌else◌, arith, Bool-cases,
  Option-cases, tabulate,
}
use linux_kernel_experiment.Kernel.{Kernel, Memory, granted_block, kfree, count, error, enomem}
use linux_kernel_experiment.Scull.Device.{Params, block_count}
use linux_kernel_experiment.Pipe.Ring.{Pipe, File}
use linux_kernel_experiment.Pipe.Files.{
  count_up, count_down, rewind, open_new, open_with, p_open, leave_by, nobody_left, p_release,
}

-- `r` open readers and `w` open writers: the buffer is held by them, and is the one block outstanding
pub record IsHeld (r w : ℕ) (p : Pipe) (m : Memory) : Type 0 where
  pub readers : p.nreaders ≡ pos r
  pub writers : p.nwriters ≡ pos w
  pub balanced : m.granted ≡ m.freed + block_count p.buffer
  pub released : r + w ≡ 0 → p.buffer ≡ none
  pub held : 0 < r + w → block_count p.buffer ≡ 1

-- 1 for a mode that a file has
abbrev pub one_if : Bool → ℕ
one_if b = if b then 1 else 0

count_up-pos : (b : Bool) (n : ℕ) → n < 2 ^ 30 → count_up b (pos n) ≡ pos (n + one_if b)
unfolding ◌+ℤ◌ to_int
count_up-pos true n h = ground arith
count_up-pos false n h = ground arith

count_down-pos :
    (b : Bool) (n : ℕ) → n < 2 ^ 30 → one_if b ≤ n → count_down b (pos n) ≡ pos (n - one_if b)
unfolding ◌-ℤ◌ to_int
count_down-pos true n h h' = ground arith
count_down-pos false n h h' = ground arith

nobody_left-pos :
    (r w : ℕ) → r < 2 ^ 30 → w < 2 ^ 30 → eqb_ℤ (to_int (pos r +ℤ pos w)) (pos 0) ≡ (r + w == 0)
unfolding ◌+ℤ◌ to_int
nobody_left-pos r w h h' = ground arith

-- a file open for reading, for writing or for both
abbrev pub IsUsed : File → Type 0
IsUsed f = 0 < one_if f.for_read + one_if f.for_write

module _ (g : Params) (f : File) (used : IsUsed f) (r w : ℕ) (hr : r < 2 ^ 30)
    (hw : w < 2 ^ 30) where
  rewind-IsHeld :
      (p : Pipe) (m : Memory)
      → p.nreaders ≡ pos r
      → p.nwriters ≡ pos w
      → block_count p.buffer ≡ 1
      → m.granted ≡ m.freed + 1
      → IsHeld (r + one_if f.for_read) (w + one_if f.for_write) (rewind g f p) m
  rewind-IsHeld p m er ew held balanced = record {
    readers = ap (count_up f.for_read) er ∙ count_up-pos f.for_read r hr;
    writers = ap (count_up f.for_write) ew ∙ count_up-pos f.for_write w hw;
    balanced = omega (arith, balanced, held);
    released = λ e. absurd (omega (arith, used, e));
    held = λ _. held;
  }

  unchanged :
      (p : Pipe) (m : Memory)
      → IsHeld r w p m
      → IsHeld r w p (record m { requests = m.requests + 1 })
  unchanged p m h = record {
    readers = h.readers;
    writers = h.writers;
    balanced = h.balanced;
    released = h.released;
    held = h.held;
  }

  open_first :
      (k : Kernel) (p : Pipe) (m : Memory)
      → IsHeld r w p m
      → p.buffer ≡ none
      → (p' : Pipe) × (m' : Memory) × (((p_open k g f false p m ≡ (p', m', error enomem))
            × (p' ≡ p)
            × IsHeld r w p' m')
          ⊎ ((p_open k g f false p m ≡ (p', m', count 0))
              × IsHeld (r + one_if f.for_read) (w + one_if f.for_write) p' m'))
  unfolding p_open
  open_first k p m h e =
      let size = bits32 g.scull_p_buffer in
      let open_none = ap (open_with k g f p m) e in
      let account : m.granted ≡ m.freed =
        h.balanced ∙ ap (λ a. m.freed + block_count a) e ∙ omega arith in
      elim (Option-cases (k.kmalloc m.requests size)) [
        | inl got ↦ (
          p,
          record m { requests = m.requests + 1 },
          inl (open_none ∙ ap (λ a. open_new g f p (granted_block m a)) got, refl, unchanged p m h),
        )
        | inr (bytes, got) ↦ (
          rewind g f (record p { buffer = some (tabulate bytes 0 size) }),
          record m { requests = m.requests + 1; granted = m.granted + 1 },
          inr (
            open_none ∙ ap (λ a. open_new g f p (granted_block m a)) got,
            rewind-IsHeld (record p { buffer = some (tabulate bytes 0 size) })
                (record m { requests = m.requests + 1; granted = m.granted + 1 }) h.readers
                h.writers refl (omega (arith, account)),
          ),
        )
      ]

  -- On a pipe with `r` readers and `w` writers, fewer than 2^30 each, a `scull_p_open` for
  -- reading, writing or both that gets the semaphore counts the file among them, and the buffer is
  -- then held; or it replies ENOMEM and changes neither the pipe nor the blocks outstanding.
  pub p_open-IsHeld :
      (k : Kernel) (p : Pipe) (m : Memory)
      → IsHeld r w p m
      → (p' : Pipe) × (m' : Memory) × (((p_open k g f false p m ≡ (p', m', error enomem))
            × (p' ≡ p)
            × IsHeld r w p' m')
          ⊎ ((p_open k g f false p m ≡ (p', m', count 0))
              × IsHeld (r + one_if f.for_read) (w + one_if f.for_write) p' m'))
  unfolding p_open
  p_open-IsHeld k p m h = elim (Option-cases p.buffer) [
    | inl e ↦ open_first k p m h e
    | inr (b, e) ↦
        let one : block_count p.buffer ≡ 1 = ap (λ a. block_count a) e in
        (
          rewind g f p,
          m,
          inr (
            ap (open_with k g f p m) e,
            rewind-IsHeld p m h.readers h.writers one (omega (arith, h.balanced, one)),
          ),
        )
  ]

module _ (f : File) (r w : ℕ) (hr : r + one_if f.for_read < 2 ^ 30)
    (hw : w + one_if f.for_write < 2 ^ 30) where
  leave_by-held :
      (p : Pipe)
      → p.nreaders ≡ pos (r + one_if f.for_read)
      → p.nwriters ≡ pos (w + one_if f.for_write)
      → ((leave_by f p).nreaders ≡ pos r) × ((leave_by f p).nwriters ≡ pos w)
  leave_by-held p er ew = (
    ap (count_down f.for_read) er
        ∙ count_down-pos f.for_read (r + one_if f.for_read) hr (omega arith)
        ∙ ap pos (omega arith),
    ap (count_down f.for_write) ew
        ∙ count_down-pos f.for_write (w + one_if f.for_write) hw (omega arith)
        ∙ ap pos (omega arith),
  )

  -- `scull_p_release` of a file for reading, writing or both that is counted, among fewer than
  -- 2^30 each, takes it out of the counts, and gives the buffer back exactly if it was the last.
  pub p_release-IsHeld :
      (forget : List ℕ → List ℕ) (p : Pipe) (m : Memory)
      → IsUsed f
      → IsHeld (r + one_if f.for_read) (w + one_if f.for_write) p m
      → (p' : Pipe) × (m' : Memory) × (p_release forget f p m ≡ (p', m', count 0))
        × IsHeld r w p' m'
  unfolding p_release
  p_release-IsHeld forget p m used h =
      let q = leave_by f (record p { async_queue = forget p.async_queue }) in
      let (er, ew) = leave_by-held p h.readers h.writers in
      let one = h.held (omega (arith, used)) in
      let last : nobody_left q ≡ (r + w == 0) =
        ap₂ (λ a b. eqb_ℤ (to_int (a +ℤ b)) (pos 0)) er ew
        ∙ nobody_left-pos r w (omega (arith, hr)) (omega (arith, hw)) in
      elim (Bool-cases (r + w == 0)) [
        | inl none_left ↦ (
          record q { buffer = none },
          kfree (block_count p.buffer) m,
          rw (p_release, last, none_left) refl,
          record {
            readers = er;
            writers = ew;
            balanced = omega (arith, h.balanced);
            released = λ _. refl;
            held = λ some_left. absurd (ground arith);
          },
        )
        | inr some_left ↦ (
          q,
          m,
          rw (p_release, last, some_left) refl,
          record {
            readers = er;
            writers = ew;
            balanced = h.balanced;
            released = λ none_left. absurd (ground arith);
            held = λ _. one;
          },
        )
      ]
