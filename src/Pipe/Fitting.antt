-- ===== src/Pipe/Fitting.antt =====
-- 实验7/scull/pipe.c: where the bytes of a `scull_p_write` go, and how many fit.
use linux_kernel_experiment.Prelude.{
  ℕ, ◌+◌, ◌-◌, ◌<◌, ◌≤◌, ◌≡◌, ◌⊎◌, inl, inr, refl, ap, ◌∙◌, some, List, ◌++◌, length, splice, least,
  leb, ◌==◌, if◌then◌else◌, arith, Bool-cases, length-splice,
}
use linux_kernel_experiment.Pipe.Ring.{Pipe, wrap_at, writable}
use linux_kernel_experiment.Pipe.Contents.{
  contents, contents-write_ahead, contents-write_wrapped, contents-wrap,
}
use linux_kernel_experiment.Pipe.Shape.{IsValid, used, to_end-IsValid, wrap_at-IsValid}

-- the pipe with `ys` at `wp`, before it moves
abbrev pub filled : Pipe → List ℕ → List ℕ → Pipe
filled p b ys = record p { buffer = some (splice b p.wp ys) }

-- what a write of `t` bytes fits in: up to the end, or to one byte before `rp`
abbrev pub Fits : ℕ → ℕ → ℕ → ℕ → Type 0
Fits n rp wp t = ((rp ≤ wp) × (wp + t ≤ n) × ((rp ≡ 0) → wp + t < n)) ⊎ ((wp < rp) × (wp + t < rp))

module _ {n : ℕ} {b : List ℕ} where
  writable-IsValid :
      (p : Pipe) (free m : ℕ)
      → IsValid n b p
      → writable p free m ≡ (
          if leb p.rp p.wp
          then least (least m free) (n - p.wp)
          else least (least m free) (p.rp - p.wp - 1))
  writable-IsValid p free m v =
      ap
        (λ a.
          if leb p.rp p.wp then least (least m free) a else least (least m free) (p.rp - p.wp - 1))
        (to_end-IsValid p p.wp v (omega (arith, v.wp)))

  pub writable-Fits :
      (p : Pipe) (m : ℕ)
      → IsValid n b p
      → Fits n p.rp p.wp (writable p (n - 1 - used n p.rp p.wp) m)
  writable-Fits p m v = elim (Bool-cases (leb p.rp p.wp)) [
    | inl ahead ↦
        rw (writable-IsValid p (n - 1 - used n p.rp p.wp) m v, ahead)
          (inl (ground arith, ground (arith, v.wp), ground (arith, v.wp)))
    | inr wrapped ↦
        rw (writable-IsValid p (n - 1 - used n p.rp p.wp) m v, wrapped)
          (inr (ground arith, ground (arith, v.rp)))
  ]

  pub writable-le : (p : Pipe) (free m : ℕ) → IsValid n b p → writable p free m ≤ m
  writable-le p free m v = rw (writable-IsValid p free m v) (ground arith)

  pub writable-some :
      (p : Pipe) (m : ℕ)
      → IsValid n b p
      → 0 < n - 1 - used n p.rp p.wp
      → 0 < m
      → 0 < writable p (n - 1 - used n p.rp p.wp) m
  writable-some p m v h hm = elim (Bool-cases (leb p.rp p.wp)) [
    | inl ahead ↦
        rw (writable-IsValid p (n - 1 - used n p.rp p.wp) m v, ahead) (ground (arith, ahead, v.wp))
    | inr wrapped ↦
        rw (writable-IsValid p (n - 1 - used n p.rp p.wp) m v, wrapped)
          (ground (arith, wrapped, v.rp))
  ]

  pub filled-IsValid :
      (p : Pipe) (ys : List ℕ) → IsValid n b p → IsValid n (splice b p.wp ys) (filled p b ys)
  filled-IsValid p ys v = record {
    buffer = refl;
    size = length-splice b p.wp ys ∙ v.size;
    fits = v.fits;
    buffersize = v.buffersize;
    end_at = v.end_at;
    rp = v.rp;
    wp = v.wp;
  }

-- the pipe with `wp` moved by `t`
abbrev pub advance_write : Pipe → ℕ → Pipe
advance_write p t = record p { wp = wrap_at p (p.wp + t) }

module _ {n : ℕ} {b : List ℕ} where
  pub advance_write-IsValid :
      (p : Pipe) (t : ℕ) → IsValid n b p → p.wp + t ≤ n → IsValid n b (advance_write p t)
  advance_write-IsValid p t v h = record {
    buffer = v.buffer;
    size = v.size;
    fits = v.fits;
    buffersize = v.buffersize;
    end_at = v.end_at;
    rp = v.rp;
    wp = rw (wrap_at-IsValid p (p.wp + t) v) (ground (arith, v.wp));
  }

  pub contents-wrap_at :
      (p : Pipe) (at : ℕ)
      → IsValid n b p
      → ((p.rp ≡ 0) → at < n)
      → contents b p.rp at ≡ contents b p.rp (wrap_at p at)
  contents-wrap_at p at v h = elim (Bool-cases (at == n)) [
    | inl reached ↦
        rw (wrap_at-IsValid p at v, reached)
          (contents-wrap b p.rp at (ground (arith, v.size)) (ground (arith, h))
            (omega (arith, v.size, v.rp)))
    | inr short ↦ rw (wrap_at-IsValid p at v, short) refl
  ]

  pub contents-filled :
      (p : Pipe) (ys : List ℕ)
      → IsValid n b p
      → Fits n p.rp p.wp (length ys)
      → contents (splice b p.wp ys) p.rp (p.wp + length ys) ≡ contents b p.rp p.wp ++ ys
  contents-filled p ys v (inl (ahead, fits, _)) =
      contents-write_ahead b p.rp p.wp ys ahead (omega (arith, v.size, fits))
  contents-filled p ys v (inr (wrapped, fits)) =
      contents-write_wrapped b p.rp p.wp ys fits (omega (arith, v.size, v.rp))
