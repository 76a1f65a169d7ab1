-- ===== src/Access/Private.antt =====
-- 实验7/scull/access.c: the private device, one for each controlling terminal. `scull_c_list` is a list
-- in which each item is reached by its key; the devices stay until the module is removed.
use linux_kernel_experiment.Prelude.{
  ℕ, ◌≡◌, ◌≢◌, ◌⊎◌, inl, inr, refl, ap, All, ◌∙◌, Bool, true, false, Option, none, some, List, [],
  ◌∷◌, ◌==◌, if◌then◌else◌, arith, Bool-cases, Option-cases, pos,
}
use linux_kernel_experiment.Kernel.{
  Kernel, Memory, kmalloc, kfree, Reply, count, error, einval, enomem, Run, done, crash,
}
use linux_kernel_experiment.Scull.Device.{Dev, Params, trim, empty_dev}
use linux_kernel_experiment.Scull.Seek.{is_write_only}
use linux_kernel_experiment.Scull.Shape.{IsValid, blocks}
use linux_kernel_experiment.Scull.Trim.{trim-blocks}

-- `struct scull_listitem`
pub record Item : Type 0 where
  pub device : Dev
  pub key : ℕ

-- the device of a key, the first in the list
abbrev pub device_of : ℕ → List Item → Option Dev
device_of key [] = none
device_of key (x ∷ xs) = if x.key == key then some x.device else device_of key xs

-- a cleared item
abbrev pub zero_dev : Dev
zero_dev = record { qsets = []; quantum = pos 0; qset = pos 0; size = 0 }

-- "initialize the device" and "place it in the list"
abbrev pub place_new : ℕ → List Item → Run (Dev × Memory) → Run (List Item × Memory)
place_new key items crash = crash
place_new key items (done (d, m)) = done (record { device = d; key = key } ∷ items, m)

abbrev pub created : Run (List Item × Memory) → Run (Bool × List Item × Memory)
created crash = crash
created (done (l, m)) = done (true, l, m)

abbrev pub create :
    Params → ℕ → List Item → Option (ℕ → ℕ) × Memory → Run (Bool × List Item × Memory)
create g key items (none, m) = done (false, items, m)
create g key items (some _, m) = created (place_new key items (trim g zero_dev m))

-- `scull_c_lookfor_device`, with the size of an item: whether there is a device of the key, the list
-- and the allocator
unfoldable pub lookfor_device :
    Kernel → ℕ → Params → ℕ → List Item → Memory → Run (Bool × List Item × Memory)
lookfor_device k size g key items m = elim (device_of key items) [
  | some _ ↦ done (true, items, m)
  | none ↦ create g key items (kmalloc k size m)
]

abbrev pub behind : Item → Run (List Item × Memory) → Run (List Item × Memory)
behind x crash = crash
behind x (done (xs, m)) = done (x ∷ xs, m)

-- `scull_trim` of the device of a key
unfoldable pub trim_key : Params → ℕ → List Item → Memory → Run (List Item × Memory)
trim_key g key [] m = done ([], m)
trim_key g key (x ∷ xs) m =
    let later = trim_key g key xs m in
    if x.key == key then place_new key xs (trim g x.device m) else behind x later

abbrev pub replied : Run (List Item × Memory) → Run (List Item × Memory × Reply)
replied crash = crash
replied (done (l, m)) = done (l, m, count 0)

-- `if (!dev) return -ENOMEM` and the rest
abbrev pub c_opened :
    Params → ℕ → ℕ → Run (Bool × List Item × Memory) → Run (List Item × Memory × Reply)
c_opened g key flags crash = crash
c_opened g key flags (done (false, l, m)) = done (l, m, error enomem)
c_opened g key flags (done (true, l, m)) =
    if is_write_only flags then replied (trim_key g key l m) else done (l, m, count 0)

-- `scull_c_open`; `tty` is the number of the controlling terminal, if there is one
unfoldable pub c_open :
    Kernel → ℕ → Params → Option ℕ → ℕ → List Item → Memory → Run (List Item × Memory × Reply)
c_open k size g none flags items m = done (items, m, error einval)
c_open k size g (some key) flags items m =
    c_opened g key flags (lookfor_device k size g key items m)

-- a well-formed device, whatever its geometry
abbrev pub IsFit : Item → Type 0
IsFit x = (q s : ℕ) × IsValid q s x.device

module _ (other q s : ℕ) (g : Params) (quantum : g.scull_quantum ≡ pos q)
    (qset : g.scull_qset ≡ pos s) where
  -- the device of `other` is as it was in `items`, and all are well-formed
  abbrev Keeps : List Item → List Item → Type 0
  Keeps items l = (device_of other l ≡ device_of other items) × All IsFit l

  abbrev Spares : List Item → Run (List Item × Memory) → Type 0
  Spares items r = (l : List Item) × (m : Memory) × (r ≡ done (l, m)) × Keeps items l

  -- a trimmed device of the key at the head
  placed-Spares :
      (key q' s' : ℕ) (xs items : List Item) (d : Dev) (m : Memory)
      → other ≢ key
      → IsValid q' s' d
      → Keeps items xs
      → Spares items (place_new key xs (trim g d m))
  placed-Spares key q' s' xs items d m apart v (same, fit) =
      let differ : (key == other) ≡ false = ground arith in
      let fresh : IsValid q s (empty_dev g) = record {
        quantum = quantum;
        qset = qset;
        items = tt;
        covered = omega arith;
        limit = omega arith;
      } in
      (
        record { device = empty_dev g; key = key } ∷ xs,
        kfree (blocks d.qsets) m,
        ap (place_new key xs) (trim-blocks q' s' g d m v),
        (rw differ same, ((q, s, fresh), fit)),
      )

  trim_key-Spares :
      (key : ℕ) (items : List Item) (m : Memory)
      → other ≢ key
      → All IsFit items
      → Spares items (trim_key g key items m)
  unfolding trim_key
  trim_key-Spares key [] m apart fit = ([], m, refl, (refl, tt))
  trim_key-Spares key (x ∷ xs) m apart ((q', s', v), fit) = elim (Bool-cases (x.key == key)) [
    | inl here ↦
        let differ : (x.key == other) ≡ false = ground arith in
        rw (trim_key, here)
          (placed-Spares key q' s' xs (x ∷ xs) x.device m apart v (rw differ refl, fit))
    | inr away ↦
        let (l, m', ran, (same, fit')) = trim_key-Spares key xs m apart fit in
        (
          x ∷ l,
          m',
          rw (trim_key, away) (ap (behind x) ran),
          (ap (λ o. if x.key == other then some x.device else o) same, ((q', s', v), fit')),
        )
  ]

  abbrev Found : List Item → Run (Bool × List Item × Memory) → Type 0
  Found items r = (b : Bool) × (l : List Item) × (m : Memory) × (r ≡ done (b, l, m)) × Keeps items l

  cleared-IsValid : IsValid 0 0 zero_dev
  cleared-IsValid = record {
    quantum = refl;
    qset = refl;
    items = tt;
    covered = omega arith;
    limit = omega arith;
  }

  create-Found :
      (key : ℕ) (items : List Item) (b : Option (ℕ → ℕ)) (m : Memory)
      → other ≢ key
      → All IsFit items
      → Found items (create g key items (b, m))
  create-Found key items none m apart fit = (false, items, m, refl, (refl, fit))
  create-Found key items (some f) m apart fit =
      let (l, m', ran, kept) =
        placed-Spares key 0 0 items items zero_dev m apart cleared-IsValid (refl, fit) in
      (true, l, m', ap created ran, kept)

  lookfor_device-Found :
      (k : Kernel) (size key : ℕ) (items : List Item) (m : Memory)
      → other ≢ key
      → All IsFit items
      → Found items (lookfor_device k size g key items m)
  unfolding lookfor_device
  lookfor_device-Found k size key items m apart fit = elim (Option-cases (device_of key items)) [
    | inl absent ↦
        rw (lookfor_device, absent)
          (create-Found key items (kmalloc k size m).0 (kmalloc k size m).1 apart fit)
    | inr (d, there) ↦ (true, items, m, rw (lookfor_device, there) refl, (refl, fit))
  ]

  abbrev Leaves : List Item → Run (List Item × Memory × Reply) → Type 0
  Leaves items r =
      (l : List Item) × (m : Memory) × (a : Reply) × (r ≡ done (l, m, a)) × Keeps items l

  c_opened-Leaves :
      (key flags : ℕ) (items l : List Item) (b : Bool) (m : Memory)
      → other ≢ key
      → Keeps items l
      → Leaves items (c_opened g key flags (done (b, l, m)))
  c_opened-Leaves key flags items l false m apart kept = (l, m, error enomem, refl, kept)
  c_opened-Leaves key flags items l true m apart (same, fit) =
      elim (Bool-cases (is_write_only flags)) [
        | inl trims ↦
            let (l', m', ran, (same', fit')) = trim_key-Spares key l m apart fit in
            (l', m', count 0, rw trims (ap replied ran), (same' ∙ same, fit'))
        | inr keeps ↦ (l, m, count 0, rw keeps refl, (same, fit))
      ]

  -- If the parameters are a quantum and a set size, and all the private devices are well-formed, a
  -- `scull_c_open` returns without a fault, whatever its flags and its reply, leaves the devices of all
  -- other terminals as they were, and all devices well-formed.
  pub c_open-others :
      (k : Kernel) (size key flags : ℕ) (items : List Item) (m : Memory)
      → other ≢ key
      → All IsFit items
      → (l : List Item) × (m' : Memory) × (r : Reply) × (c_open k size g (some key) flags items m
          ≡ done (l, m', r))
        × (device_of other l ≡ device_of other items)
        × All IsFit l
  unfolding c_open
  c_open-others k size key flags items m apart fit =
      let (b, l, m', ran, kept) = lookfor_device-Found k size key items m apart fit in
      let (l', m'', r, ran', kept') = c_opened-Leaves key flags items l b m' apart kept in
      (l', m'', r, ap (c_opened g key flags) ran ∙ ran', kept'.0, kept'.1)

-- A terminal that has a device already keeps it: an open that is not write-only changes nothing at all,
-- and one that is only trims that device.
c_open-mine :
    (k : Kernel) (size : ℕ) (g : Params) (key flags : ℕ) (items : List Item) (m : Memory) (d : Dev)
    → device_of key items ≡ some d
    → ((is_write_only flags ≡ false)
        × (c_open k size g (some key) flags items m ≡ done (items, m, count 0)))
      ⊎ ((is_write_only flags ≡ true)
          × (c_open k size g (some key) flags items m ≡ replied (trim_key g key items m)))
unfolding c_open lookfor_device
c_open-mine k size g key flags items m d there = elim (Bool-cases (is_write_only flags)) [
  | inl trims ↦ inr (trims, rw (c_open, lookfor_device, there, trims) refl)
  | inr keeps ↦ inl (keeps, rw (c_open, lookfor_device, there, keeps) refl)
]
