-- ===== src/Scull/Debug.antt =====
-- 实验7/scull/main.c, under SCULL_DEBUG: the file scullseq, by the operations of a `seq_file`. A printed
-- line is a value of `Line`; the addresses that are printed are left out.
use linux_kernel_experiment.Prelude.{
  ℕ, zero, suc, ◌+◌, ◌≡◌, refl, ap, sym, ◌∙◌, Bool, true, false, Option, none, some, List, [], ◌∷◌,
  All, ℤ, pos_part, leb, length, if◌then◌else◌,
}
use linux_kernel_experiment.Kernel.{Run, done, crash, Reply, count, error, erestartsys}
use linux_kernel_experiment.Scull.Device.{Quantum, Qset, Dev}
use linux_kernel_experiment.Scull.Shape.{IsArray, IsItem, IsValid}

pub data Line : Type 0 where
  -- number, qset, quantum and size
  device_line : ℕ → ℤ → ℤ → ℕ → Line
  -- an item, and whether it has an array
  item_line : Bool → Line
  -- the number of a quantum
  quantum_line : ℕ → Line

-- `scull_seq_start`, and the rest of `scull_seq_next`: the number of the device, or NULL
abbrev pub seq_start : List Dev → ℕ → Option ℕ
seq_start devices p = if leb (length devices) p then none else some p

abbrev pub seq_next : List Dev → ℕ → Option ℕ × ℕ
seq_next devices p = (seq_start devices (p + 1), p + 1)

abbrev pub has {ℓ} : {A : Type ℓ} → Option A → Bool
has none = false
has (some a) = true

abbrev pub line_if : Bool → ℕ → List Line → List Line
line_if true i l = quantum_line i ∷ l
line_if false i l = l

abbrev pub add_line : Quantum → ℕ → Run (List Line) → Run (List Line)
add_line b i crash = crash
add_line b i (done l) = done (line_if (has b) i l)

-- `for (i = 0; i < dev->qset; i++)`, from `i` on
unfoldable pub show_quanta : ℕ → ℕ → List Quantum → Run (List Line)
show_quanta zero i qs = done []
show_quanta (suc n) i [] = crash
show_quanta (suc n) i (b ∷ qs) = add_line b i (show_quanta n (suc i) qs)

-- only the last item shows its quanta
abbrev pub show_last : ℕ → Option (List Quantum) → Run (List Line)
show_last n none = done []
show_last n (some qs) = show_quanta n 0 qs

abbrev pub after_line : Line → Run (List Line) → Run (List Line)
after_line x crash = crash
after_line x (done l) = done (x ∷ l)

-- `for (d = dev->data; d; d = d->next)`
unfoldable pub show_items : ℕ → List Qset → Run (List Line)
show_items n [] = done []
show_items n (q ∷ []) = after_line (item_line (has q.quanta)) (show_last n q.quanta)
show_items n (q ∷ (r ∷ l)) = after_line (item_line (has q.quanta)) (show_items n (r ∷ l))

abbrev pub shown : Run (List Line) → Run (List Line × Reply)
shown crash = crash
shown (done l) = done (l, count 0)

-- `scull_seq_show` on device number `i`; `interrupted` is the result of `down_interruptible`
unfoldable pub seq_show : ℕ → Bool → Dev → Run (List Line × Reply)
seq_show i true d = done ([], error erestartsys)
seq_show i false d =
    shown
      (after_line (device_line i d.qset d.quantum d.size) (show_items (pos_part d.qset) d.qsets))

show_quanta_total :
    (i : ℕ) (qs : List Quantum) → (l : List Line) × (show_quanta (length qs) i qs ≡ done l)
unfolding show_quanta
show_quanta_total i [] = ([], refl)
show_quanta_total i (b ∷ qs) =
    let (l, run) = show_quanta_total (suc i) qs in (line_if (has b) i l, ap (add_line b i) run)

module _ (q s : ℕ) where
  show_last_total :
      (a : Option (List Quantum)) → IsArray q s a → (l : List Line) × (show_last s a ≡ done l)
  show_last_total none h = ([], refl)
  show_last_total (some qs) h =
      let (l, run) = show_quanta_total 0 qs in (l, ap (λ n. show_quanta n 0 qs) (sym h.0) ∙ run)

  show_items_total :
      (items : List Qset) → All (IsItem q s) items → (l : List Line) × (show_items s items ≡ done l)
  unfolding show_items
  show_items_total [] h = ([], refl)
  show_items_total (it ∷ []) h =
      let (l, run) = show_last_total it.quanta h.0 in
      (item_line (has it.quanta) ∷ l, ap (after_line (item_line (has it.quanta))) run)
  show_items_total (it ∷ (r ∷ items)) h =
      let (l, run) = show_items_total (r ∷ items) h.1 in
      (item_line (has it.quanta) ∷ l, ap (after_line (item_line (has it.quanta))) run)

  -- A valid device is shown without a fault, its own line first.
  seq_show_total :
      (i : ℕ) (d : Dev)
      → IsValid q s d
      → (l : List Line) × (seq_show i false d
          ≡ done (device_line i d.qset d.quantum d.size ∷ l, count 0))
  unfolding seq_show
  seq_show_total i d v =
      let (l, run) = show_items_total d.qsets v.items in
      (
        l,
        ap (λ n. shown (after_line (device_line i d.qset d.quantum d.size) (show_items n d.qsets)))
              (ap pos_part v.qset)
            ∙ ap (λ r. shown (after_line (device_line i d.qset d.quantum d.size) r)) run,
      )
