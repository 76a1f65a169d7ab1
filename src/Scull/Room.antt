-- ===== src/Scull/Room.antt =====
-- 实验7/scull/main.c, under SCULL_DEBUG: how much of the page the file scullmem may take, and its entry.
use linux_kernel_experiment.Prelude.{
  ℕ, zero, suc, ◌+◌, ◌*◌, ◌≡◌, ◌≤◌, ◌<◌, ◌⊎◌, inl, inr, refl, sym, ap, subst, ◌∙◌, Bool, true,
  false, Option, none, some, List, [], ◌∷◌, ◌++◌, ℤ, pos_part, All, length, arith, length-append,
  Bool-cases, lt→leb,
}
use linux_kernel_experiment.Kernel.{Run, done, Reply, count, error, erestartsys}
use linux_kernel_experiment.Scull.Device.{Quantum, Qset, Dev}
use linux_kernel_experiment.Scull.Shape.{IsArray, IsItem, IsValid}
use linux_kernel_experiment.Scull.Debug.{
  Line, device_line, item_line, quantum_line, has, line_if, add_line, show_quanta, show_last,
}
use linux_kernel_experiment.Scull.Procmem.{
  Proc, put, put_lines, put_shown, below_limit, dump_last, dump_items, dump_device, dump_devices,
  dumped, read_procmem,
}

-- the bytes of some lines
abbrev lines_size : Proc → List Line → ℕ
lines_size c [] = 0
lines_size c (x ∷ l) = length (c.sprintf x) + lines_size c l

put_fits :
    (c : Proc) (x : Line) (t : List ℕ)
    → length t + length (c.sprintf x) < c.page_size
    → put c x (done t) ≡ done (t ++ c.sprintf x)
put_fits c x t h = rw (lt→leb c.page_size (length t + length (c.sprintf x)) h) refl

put_lines_fits :
    (c : Proc) (l : List Line) (t : List ℕ)
    → length t + lines_size c l < c.page_size
    → (t' : List ℕ) × (put_lines c l (done t) ≡ done t') × (length t' ≡ length t + lines_size c l)
put_lines_fits c [] t h = (t, refl, omega arith)
put_lines_fits c (x ∷ l) t h =
    let len = length-append t (c.sprintf x) in
    let (t', runs, size) = put_lines_fits c l (t ++ c.sprintf x) (omega (arith, len)) in
    (t', ap (put_lines c l) (put_fits c x t (omega arith)) ∙ runs, omega (arith, len, size))

-- How wide the lines are: 80 bytes hold one of a device or of an item, `w` bytes one of a quantum.
pub record Widths (c : Proc) (w : ℕ) : Type 0 where
  pub device :
      (i : ℕ) (qset quantum : ℤ) (size : ℕ)
      → length (c.sprintf (device_line i qset quantum size)) ≤ 80
  pub item : (b : Bool) → length (c.sprintf (item_line b)) ≤ 80
  pub quantum : (i : ℕ) → length (c.sprintf (quantum_line i)) ≤ w

module _ (c : Proc) (w : ℕ) (wide : Widths c w) where
  line_if_size :
      (b : Bool) (i : ℕ) (l : List Line) → lines_size c (line_if b i l) ≤ w + lines_size c l
  line_if_size true i l = omega (arith, wide.quantum i)
  line_if_size false i l = omega arith

  show_quanta_size :
      (i : ℕ) (qs : List Quantum)
      → (l : List Line) × (show_quanta (length qs) i qs ≡ done l) × (lines_size c l ≤ length qs * w)
  unfolding show_quanta
  show_quanta_size i [] = ([], refl, omega arith)
  show_quanta_size i (b ∷ qs) =
      let (l, runs, size) = show_quanta_size (suc i) qs in
      (line_if (has b) i l, ap (add_line b i) runs, omega (arith, line_if_size (has b) i l, size))

  show_last_size :
      (q s : ℕ) (a : Option (List Quantum))
      → IsArray q s a
      → (l : List Line) × (show_last s a ≡ done l) × (lines_size c l ≤ s * w)
  show_last_size q s none h = ([], refl, omega arith)
  show_last_size q s (some qs) h =
      let (l, runs, size) = show_quanta_size 0 qs in
      (
        l,
        ap (λ n. show_quanta n 0 qs) (sym h.0) ∙ runs,
        subst (λ m. lines_size c l ≤ m * w) h.0 size,
      )

  module _ (n q s : ℕ) (room : n + s * w < c.page_size) where
    -- what a step leaves: a text that is at most the quanta of one item past the count
    abbrev Within : Run (List ℕ) → Type 0
    Within r = (t : List ℕ) × (r ≡ done t) × (length t ≤ n + s * w)

    put-Within :
        (x : Line) (t : List ℕ)
        → length t + 80 ≤ n
        → length (c.sprintf x) ≤ 80
        → (t' : List ℕ) × (put c x (done t) ≡ done t') × (length t' ≤ n)
    put-Within x t h size =
        let len = length-append t (c.sprintf x) in
        (t ++ c.sprintf x, put_fits c x t (omega arith), omega (arith, len))

    dump_last-Within :
        (it : Qset) (l : List Qset) (t : List ℕ)
        → IsItem q s it
        → length t ≤ n
        → Within (dump_last c s it l (done t))
    dump_last-Within it [] t h size =
        let (l, shows, l_size) = show_last_size q s it.quanta h in
        let (t', puts, t'_size) = put_lines_fits c l t (omega arith) in
        (t', ap (λ r. put_shown c r (done t)) shows ∙ puts, omega arith)
    dump_last-Within it (r ∷ l) t h size = (t, refl, omega arith)

    dump_items-Within :
        (items : List Qset) (t : List ℕ)
        → All (IsItem q s) items
        → length t ≤ n + s * w
        → Within (dump_items c n s items (done t))
    dump_items-Within [] t h size = (t, refl, size)
    dump_items-Within (it ∷ l) t h size = elim (Bool-cases (below_limit n t)) [
      | inr full ↦ (t, rw full refl, size)
      | inl below ↦
          let (t1, puts, size1) =
            put-Within (item_line (has it.quanta)) t (ground (arith, below))
              (wide.item (has it.quanta)) in
          let (t2, dumps, size2) = dump_last-Within it l t1 h.0 size1 in
          let (t3, runs, size3) = dump_items-Within l t2 h.1 size2 in
          (
            t3,
            rw below (
                ap (λ r. dump_items c n s l (dump_last c s it l r)) puts
                ∙ ap (dump_items c n s l) dumps
                ∙ runs),
            size3,
          )
    ]

    dump_device-Within :
        (i : ℕ) (d : Dev) (t : List ℕ)
        → IsValid q s d
        → length t + 80 ≤ n
        → Within (dump_device c n i d t)
    dump_device-Within i d t v size =
        let (t1, puts, size1) =
          put-Within (device_line i d.qset d.quantum d.size) t size
            (wide.device i d.qset d.quantum d.size) in
        let (t2, runs, size2) = dump_items-Within d.qsets t1 v.items (omega arith) in
        (
          t2,
          ap
                (λ k.
                  dump_items c n k d.qsets (put c (device_line i d.qset d.quantum d.size) (done t)))
                (ap pos_part v.qset)
              ∙ ap (dump_items c n s d.qsets) puts
              ∙ runs,
          size2,
        )

    dump_devices-Within :
        (ds : List Dev) (k i : ℕ) (t : List ℕ)
        → length ds ≡ k
        → All (IsValid q s) ds
        → length t ≤ n + s * w
        → (t' : List ℕ) × (b : Bool) × (dump_devices c n k i ds (done t) ≡ done (t', b))
          × (length t' ≤ n + s * w)
    unfolding dump_devices
    dump_devices-Within [] zero i t e h size = (t, false, refl, size)
    dump_devices-Within [] (suc k) i t e h size = absurd (omega arith)
    dump_devices-Within (d ∷ ds) zero i t e h size = absurd (omega arith)
    dump_devices-Within (d ∷ ds) (suc k) i t e h size = elim (Bool-cases (below_limit n t)) [
      | inr full ↦ (t, false, rw full refl, size)
      | inl below ↦ elim (Bool-cases (c.interrupted i)) [
        | inl stopped ↦ (t, true, rw (below, stopped) refl, size)
        | inr quiet ↦
            let (t1, dumps, size1) = dump_device-Within i d t h.0 (ground (arith, below)) in
            let (t2, b, runs, size2) =
              dump_devices-Within ds k (suc i) t1 (omega arith) h.1 size1 in
            (t2, b, rw (below, quiet, dumps) runs, size2)
      ]
    ]

-- what a read of the file returns for the text `t`
abbrev pub Returns : List ℕ → Option Bool → Reply → Type 0
Returns t eof r =
    ((eof ≡ some true) × (r ≡ count (length t))) ⊎ ((eof ≡ none) × (r ≡ error erestartsys))

dumped-Returns :
    (t : List ℕ) (b : Bool) (r : Run (List ℕ × Bool))
    → r ≡ done (t, b)
    → (eof : Option Bool) × (reply : Reply) × (dumped r ≡ done (t, eof, reply))
      × Returns t eof reply
dumped-Returns t true r e = (none, error erestartsys, ap dumped e, inr (refl, refl))
dumped-Returns t false r e = (some true, count (length t), ap dumped e, inl (refl, refl))

-- Where every device is valid for the quanta `q` and the arrays `s`, the lines are no wider than
-- `Widths` says, and the page has room for the count and the `s` lines of one array more: the read
-- stays in the page, and its text is at most those lines longer than the count. It returns how long
-- the text is, or that it was interrupted.
pub read_procmem-Widths :
    (c : Proc) (n q s w k : ℕ) (devices : List Dev)
    → Widths c w
    → n + s * w < c.page_size
    → length devices ≡ k
    → All (IsValid q s) devices
    → (t : List ℕ) × (eof : Option Bool) × (reply : Reply) × (read_procmem c n k devices
        ≡ done (t, eof, reply))
      × (length t ≤ n + s * w)
      × Returns t eof reply
unfolding read_procmem
read_procmem-Widths c n q s w k devices wide room e h =
    let (t, b, runs, size) =
      dump_devices-Within c w wide n q s room devices k 0 [] e h (omega arith) in
    let (eof, reply, ends, returns) =
      dumped-Returns t b (dump_devices c n k 0 devices (done [])) runs in
    (t, eof, reply, ends, size, returns)
