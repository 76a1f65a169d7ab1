-- ===== src/Pointed/Stop.antt =====
-- 实验7/parta/main.c: the end of the module after a start that went well.
use linux_kernel_experiment.Prelude.{
  ℕ, zero, suc, ◌+◌, ◌*◌, ◌%◌, ◌^◌, ◌<◌, ◌≡◌, ◌⊎◌, ◌≢◌, inl, inr, refl, sym, ap, ◌∙◌, Option, none,
  some, leb, if◌then◌else◌, arith, Bool-cases,
}
use linux_kernel_experiment.Kernel.{Run, done, crash, Errno, Reply, count, error, enomem}
use linux_kernel_experiment.Chrdev.{Host, Ledger, add_each, request}
use linux_kernel_experiment.Pointed.Start.{
  Driver, zeroed, setup_pointed, drop_pointed, free_array, without_devices, stop, own_numbers,
  taken, taken_any, take_numbers, start_with, set_up, start,
}

-- the first of the new devices has no array to clear
drop_new :
    (n i : ℕ) (h : Host) (dev : ℕ → ℕ) (l l' : Ledger)
    → 0 < n
    → drop_pointed n (add_each h zeroed dev i n l).0 l' ≡ crash
unfolding add_each
drop_new zero i h dev l l' up = absurd (omega arith)
drop_new (suc n) i h dev l l' up = refl

-- the driver after the devices are set up
abbrev ready : Host → Driver → Driver
ready h s = let (slots, l) = setup_pointed h s in record s { devices = some slots; ledger = l }

stop-ready : (h : Host) (s : Driver) → 0 < s.devs → stop h (ready h s) ≡ crash
stop-ready h s up =
    let (slots, l) = setup_pointed h s in
    ap (λ r. without_devices h (ready h s) (free_array r))
      (drop_new s.devs 0 h (λ i. h.mkdev s.major (s.minor + i)) s.ledger l up)

reply_of : (a b : Reply × Driver) → done a ≡ done b → a ≡ b
reply_of a b h = cc

-- what the start returns
abbrev outcome : Reply → Driver → Run (Reply × Driver)
outcome r s = done (r, s)

refused : (s s' : Driver) (e : Errno) → outcome (error e) s ≢ outcome (count 0) s'
refused s s' e h = let same = ap (λ x. x.0) (reply_of (error e, s) (count 0, s') h) in absurd (cc)

set_up-stop :
    (h : Host) (s s' : Driver) (block : Option (ℕ → ℕ))
    → 0 < s.devs
    → set_up h s block ≡ done (count 0, s')
    → stop h s' ≡ crash
set_up-stop h s s' none up e = absurd (refused _ s' enomem e)
set_up-stop h s s' (some b) up e = elim (Bool-cases (leb (2 ^ 32) (s.devs * h.dev_bytes))) [
  | inl over ↦
      let crashed = sym (ap (λ x. if x then crash else done (count 0, ready h s)) over) ∙ e in
      absurd (cc)
  | inr fits ↦
      let same = sym (ap (λ x. if x then crash else done (count 0, ready h s)) fits) ∙ e in
      ap (λ x. stop h x.1) (sym (reply_of (count 0, ready h s) (count 0, s') same))
      ∙ stop-ready h s up
]

start_with-stop :
    (h : Host) (x : Option Errno × Driver) (s' : Driver)
    → 0 < x.1.devs
    → start_with h x ≡ done (count 0, s')
    → stop h s' ≡ crash
start_with-stop h (some e, s) s' up start_e = absurd (refused s s' e start_e)
start_with-stop h (none, s) s' up start_e =
    let (block, l) = request h (s.devs * h.dev_bytes % 2 ^ 32) s.ledger in
    set_up-stop h (record s { ledger = l }) s' block up start_e

taken_devs : (h : Host) (s : Driver) (r : Option Errno) → (taken h s r).1.devs ≡ s.devs
taken_devs h s none = refl
taken_devs h s (some e) = refl

taken_any_devs : (h : Host) (s : Driver) (r : Errno ⊎ ℕ) → (taken_any h s r).1.devs ≡ s.devs
taken_any_devs h s (inl e) = refl
taken_any_devs h s (inr dev) = refl

take_numbers_devs : (h : Host) (s : Driver) (m : ℕ) → (take_numbers h s m).1.devs ≡ s.devs
take_numbers_devs h s zero = taken_any_devs h s (h.alloc_chrdev_region s.ledger s.minor s.devs)
take_numbers_devs h s (suc m) = taken_devs h s (h.register_chrdev_region s.ledger (own_numbers h s))

-- After a start of at least one device that returns 0, the end of the module crashes: the data that it
-- clears is nowhere.
stop-start :
    (h : Host) (s s' : Driver) → 0 < s.devs → start h s ≡ done (count 0, s') → stop h s' ≡ crash
stop-start h s s' up e =
    start_with-stop h (take_numbers h s s.major) s' (omega (arith, take_numbers_devs h s s.major)) e
