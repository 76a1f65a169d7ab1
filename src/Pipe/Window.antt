-- ===== src/Pipe/Window.antt =====
-- 实验7/scull/pipe.c: where a read of the file scullpipe begins in the whole text.
use linux_kernel_experiment.Prelude.{
  ℕ, zero, suc, ◌+◌, ◌≡◌, ◌≤◌, ◌<◌, ◌⊎◌, inl, inr, refl, sym, ap, subst, ◌∙◌, true, false, some,
  List, [], ◌∷◌, ◌++◌, ℤ, leb, ◌==◌, length, arith, length-append, append_assoc, append_nil,
  Bool-cases, lt→leb, ==→eq,
}
use linux_kernel_experiment.Kernel.{done, count}
use linux_kernel_experiment.Pipe.Ring.{Pipe}
use linux_kernel_experiment.Pipe.Listing.{
  Proc, Window, default_line, proc_offset, put, pipe_text, moved, below_limit, show_pipes,
  shown_pipes, read_p_mem,
}

-- the texts of the devices from number `i` on
abbrev pub pipes_text : Proc → ℕ → List Pipe → List ℕ
pipes_text c i [] = []
pipes_text c i (p ∷ ps) = pipe_text c i p ++ pipes_text c (suc i) ps

-- the window on `printed` for a read at `o`: what is before it was dropped
pub record Shows (o : ℕ) (printed : List ℕ) (w : Window) : Type 0 where
  pub before : List ℕ
  pub whole : printed ≡ before ++ w.bytes
  pub place : length before + w.start + w.offset ≡ o

put_fits :
    (c : Proc) (t : List ℕ) (w : Window)
    → length w.bytes + length t < c.page_size
    → put c t w ≡ done (record w { bytes = w.bytes ++ t })
put_fits c t w h = rw (lt→leb c.page_size (length w.bytes + length t) h) refl

-- where the bytes begin, as far as it is known
abbrev Side : Window → Type 0
Side w = (w.offset ≡ 0) ⊎ (w.start ≡ 0)

-- the window has found its place, or holds nothing
abbrev pub Placed : Window → Type 0
Placed w = (w.offset ≡ 0) ⊎ (w.bytes ≡ [])

proc_offset-Shows :
    (o : ℕ) (printed : List ℕ) (w : Window)
    → Shows o printed w
    → Side w
    → Shows o printed (proc_offset w) × Side (proc_offset w) × Placed (proc_offset w)
proc_offset-Shows o printed w s side = elim (Bool-cases (w.offset == 0)) [
  | inl at_start ↦ let e = ==→eq w.offset 0 at_start in rw at_start (s, side, inl e)
  | inr more ↦ elim (Bool-cases (leb (length w.bytes) w.offset)) [
    | inl past ↦
        let len = length-append s.before w.bytes in
        rw (more, past)
          (
            record {
              before = s.before ++ w.bytes;
              whole = s.whole ∙ sym (append_nil (s.before ++ w.bytes));
              place = ground (arith, len, s.place, past);
            },
            ground arith,
            inr refl,
          )
    | inr inside ↦
        let at : w.start ≡ 0 = ground arith in
        rw (more, inside)
          (
            record { before = s.before; whole = s.whole; place = omega (arith, s.place, at) },
            inl refl,
            inl refl,
          )
  ]
]

put-Shows :
    (o : ℕ) (printed t : List ℕ) (w : Window)
    → Shows o printed w
    → Shows o (printed ++ t) (record w { bytes = w.bytes ++ t })
put-Shows o printed t w s = record {
  before = s.before;
  whole = ap (λ l. l ++ t) s.whole ∙ append_assoc s.before w.bytes t;
  place = s.place;
}

-- the bytes of a window are no more than all that is printed
shorter :
    (o : ℕ) (printed : List ℕ) (w : Window) → Shows o printed w → length w.bytes ≤ length printed
shorter o printed w s =
    let len = length-append s.before w.bytes in omega (arith, len, ap length s.whole)

below : (c : Proc) (w : Window) → length w.bytes + 200 ≤ c.page_size → below_limit c w ≡ true
below c w h = ground arith

module _ (c : Proc) (o : ℕ) (quiet : (i : ℕ) → c.interrupted i ≡ false) where
  -- one device more
  step :
      (i : ℕ) (p : Pipe) (printed : List ℕ) (w : Window)
      → length (printed ++ pipe_text c i p) + 200 ≤ c.page_size
      → Shows o printed w
      → Side w
      → (w' : Window) × (moved (put c (pipe_text c i p) w) ≡ done w')
        × Shows o (printed ++ pipe_text c i p) w'
        × Side w'
        × Placed w'
  step i p printed w room s side =
      let t = pipe_text c i p in
      let len = length-append printed t in
      let w' : Window = record w { bytes = w.bytes ++ t } in
      let (s', side', placed) =
        proc_offset-Shows o (printed ++ t) w' (put-Shows o printed t w s) side in
      (
        proc_offset w',
        ap moved (put_fits c t w (omega (arith, len, shorter o printed w s))),
        s',
        side',
        placed,
      )

  -- the loop, on at least one device where the window has no place yet
  show_pipes-Shows :
      (ps : List Pipe) (n i : ℕ) (printed : List ℕ) (w : Window)
      → length ps ≡ n
      → length (printed ++ pipes_text c i ps) + 200 ≤ c.page_size
      → Shows o printed w
      → Side w
      → Placed w ⊎ (0 < n)
      → (w' : Window) × (show_pipes c n i ps (done w) ≡ done (w', false))
        × Shows o (printed ++ pipes_text c i ps) w'
        × Placed w'
  unfolding show_pipes
  show_pipes-Shows [] zero i printed w e room s side placed = (
    w,
    refl,
    subst (λ l. Shows o l w) (sym (append_nil printed)) s,
    elim placed [ inl at ↦ at | inr some_left ↦ absurd (omega arith) ],
  )
  show_pipes-Shows [] (suc n) i printed w e room s side placed = absurd (omega arith)
  show_pipes-Shows (p ∷ ps) zero i printed w e room s side placed = absurd (omega arith)
  show_pipes-Shows (p ∷ ps) (suc n) i printed w e room s side placed =
      let t = pipe_text c i p in
      let more = pipes_text c (suc i) ps in
      let len1 = length-append printed (t ++ more) in
      let len2 = length-append t more in
      let len3 = length-append printed t in
      let assoc = append_assoc printed t more in
      let (w1, moves, s1, side1, placed1) = step i p printed w (omega arith) s side in
      let (w2, runs, s2, placed2) =
        show_pipes-Shows ps n (suc i) (printed ++ t) w1 (omega arith)
          (omega (arith, ap length assoc)) s1 side1 (inl placed1) in
      (
        w2,
        rw (below c w (omega (arith, shorter o printed w s)), quiet i, moves) runs,
        subst (λ l. Shows o l w2) assoc s2,
        placed2,
      )

-- all that the file holds
abbrev pub whole_text : Proc → ℤ → List Pipe → List ℕ
whole_text c size pipes = c.sprintf (default_line size) ++ pipes_text c 0 pipes

-- A read at `o` that no wait interrupts, of at least one device, whose whole text leaves 200 bytes of
-- the page: it runs to its end, says that this is the end of the file, and returns how many bytes the
-- window holds. The window holds the whole text but for what was dropped before it, and `o` is as far
-- from the beginning as what was dropped, the start in the window and the rest of the offset; where
-- there is a rest, the window is empty.
pub read_p_mem-Shows :
    (c : Proc) (size : ℤ) (pipes : List Pipe) (n o : ℕ)
    → ((i : ℕ) → c.interrupted i ≡ false)
    → length pipes ≡ n
    → 0 < n
    → length (whole_text c size pipes) + 200 ≤ c.page_size
    → (w : Window) × (read_p_mem c size n pipes o ≡ done (w, some true, count (length w.bytes)))
      × Shows o (whole_text c size pipes) w
      × Placed w
unfolding read_p_mem
read_p_mem-Shows c size pipes n o quiet e pos_n room =
    let head = c.sprintf (default_line size) in
    let len = length-append head (pipes_text c 0 pipes) in
    let w : Window = record { bytes = head; start = 0; offset = o } in
    let (w', runs, s, placed) =
      show_pipes-Shows c o quiet pipes n 0 head w e room
        (record { before = []; whole = refl; place = omega arith }) (inr refl) (inr pos_n) in
    (
      w',
      ap (λ r. shown_pipes c (show_pipes c n 0 pipes r))
            (put_fits c head (record { bytes = []; start = 0; offset = o }) (omega (arith, len)))
          ∙ ap (shown_pipes c) runs
          ∙ ap (λ b. done (w', some b, count (length w'.bytes)))
              (below c w' (omega (arith, shorter o (whole_text c size pipes) w' s))),
      s,
      placed,
    )
