-- ===== src/Module/Stop.antt =====
-- 实验7/scull: what `scull_cleanup_module` gives back.
use linux_kernel_experiment.Prelude.{
  ℕ, zero, suc, ◌+◌, ◌-◌, ◌≡◌, refl, ap, ◌∙◌, Option, none, some, List, [], ◌∷◌, length, All, arith,
}
use linux_kernel_experiment.Kernel.{done}
use linux_kernel_experiment.Scull.Device.{Dev, Params, block_count}
use linux_kernel_experiment.Scull.Shape.{IsValid, blocks}
use linux_kernel_experiment.Scull.Trim.{trim-blocks}
use linux_kernel_experiment.Pipe.Ring.{Pipe}
use linux_kernel_experiment.Chrdev.{
  Host, Ledger, Span, Slot, cdev_del, give_back, unregister_chrdev_region,
}
use linux_kernel_experiment.Chrdev.Tally.{
  one, one?, tally, used, tally-remove, tally-cdev_del, cdev_del-rest,
}
use linux_kernel_experiment.Module.Pipes.{Pipes, free_pipes, p_cleanup, p_cleanup_with, leave_pipes}
use linux_kernel_experiment.Module.Start.{
  Config, Module, numbers, and_then, drop_devices, drop_array, drop_rest, cleaned, cleanup,
}

-- what is registered less, and how many blocks are freed
pub record Less (l l' : Ledger) (regions cdevs : Span → ℕ) (n : ℕ) : Type 0 where
  pub fewer : (k : Span) → tally k l'.regions ≡ tally k l.regions - regions k
  pub deleted : (k : Span) → tally k l'.cdevs ≡ tally k l.cdevs - cdevs k
  pub granted : l'.memory.granted ≡ l.memory.granted
  pub freed : l'.memory.freed ≡ l.memory.freed + n

-- a device of any valid shape
abbrev pub IsSound : Slot Dev → Type 0
IsSound s = (q : ℕ) × (n : ℕ) × IsValid q n s.dev

-- the blocks below the devices and the pipes of an array
abbrev pub device_blocks : List (Slot Dev) → ℕ
device_blocks [] = 0
device_blocks (s ∷ slots) = blocks s.dev.qsets + device_blocks slots

abbrev pub pipe_blocks : List (Slot Pipe) → ℕ
pipe_blocks [] = 0
pipe_blocks (s ∷ slots) = block_count s.dev.buffer + pipe_blocks slots

-- nothing, or what an array and its items give
abbrev pub in_array : {A : Type 0} → (A → ℕ) → Option A → ℕ
in_array f none = 0
in_array f (some a) = f a

-- an array has all its items
abbrev pub IsFull : {D : Type 0} → ℕ → Option (List (Slot D)) → Type 0
IsFull n none = Unit
IsFull n (some slots) = length slots ≡ n

abbrev pub AreSound : Option (List (Slot Dev)) → Type 0
AreSound none = Unit
AreSound (some slots) = All IsSound slots

abbrev pub none_of : Span → ℕ
none_of k = 0

module _ {l l' l'' : Ledger} {r c r' c' r'' c'' : Span → ℕ} {n n' n'' : ℕ} where
  pub Less-trans :
      Less l l' r c n
      → Less l' l'' r' c' n'
      → ((k : Span) → r'' k ≡ r k + r' k)
      → ((k : Span) → c'' k ≡ c k + c' k)
      → n'' ≡ n + n'
      → Less l l'' r'' c'' n''
  Less-trans a b er ec en = record {
    fewer = λ k. omega (arith, a.fewer k, b.fewer k, er k);
    deleted = λ k. omega (arith, a.deleted k, b.deleted k, ec k);
    granted = omega (arith, a.granted, b.granted);
    freed = omega (arith, a.freed, b.freed);
  }

pub give_back-Less : (n : ℕ) (l : Ledger) → Less l (give_back n l) none_of none_of n
give_back-Less n l = record {
  fewer = λ k. omega arith;
  deleted = λ k. omega arith;
  granted = refl;
  freed = refl;
}

pub unregister-Less :
    (a : Span) (l : Ledger) → Less l (unregister_chrdev_region a l) (λ k. one k a) none_of 0
unregister-Less a l = record {
  fewer = λ k. tally-remove k a l.regions;
  deleted = λ k. omega arith;
  granted = refl;
  freed = omega arith;
}

pub Less-refl : (l : Ledger) → Less l l none_of none_of 0
Less-refl l = record {
  fewer = λ k. omega arith;
  deleted = λ k. omega arith;
  granted = refl;
  freed = omega arith;
}

pub cdev_del-Less : (c : Option Span) (l : Ledger) → Less l (cdev_del c l) none_of (λ k. one? k c) 0
cdev_del-Less c l =
    let (regions, memory) = cdev_del-rest c l in
    record {
      fewer = λ k. ap (tally k) regions ∙ omega arith;
      deleted = λ k. tally-cdev_del k c l;
      granted = ap (λ m. m.granted) memory;
      freed = ap (λ m. m.freed) memory ∙ omega arith;
    }

-- one device: its blocks, and its number
item-Less :
    (n : ℕ) (c : Option Span) (l : Ledger)
    → Less l (cdev_del c (give_back n l)) none_of (λ k. one? k c) n
item-Less n c l =
    Less-trans (give_back-Less n l) (cdev_del-Less c (give_back n l)) (λ k. omega arith)
      (λ k. omega arith) (omega arith)

drop_devices-Less :
    (g : Params) (n : ℕ) (slots : List (Slot Dev)) (l : Ledger)
    → length slots ≡ n
    → All IsSound slots
    → (l' : Ledger) × (drop_devices g n slots l ≡ done l')
      × Less l l' none_of (λ k. used k slots) (device_blocks slots)
unfolding drop_devices
drop_devices-Less g zero [] l e h = (l, refl, Less-refl l)
drop_devices-Less g zero (s ∷ slots) l e h = absurd (omega arith)
drop_devices-Less g (suc n) [] l e h = absurd (omega arith)
drop_devices-Less g (suc n) (s ∷ slots) l e h =
    let (q, size, v) = h.0 in
    let b = blocks s.dev.qsets in
    let (l', run, less) =
      drop_devices-Less g n slots (cdev_del s.cdev (give_back b l)) (omega arith) h.1 in
    (
      l',
      rw (trim-blocks q size g s.dev l.memory v) run,
      Less-trans (item-Less b s.cdev l) less (λ k. omega arith) (λ k. omega arith) (omega arith),
    )

drop_array-Less :
    (g : Params) (n : ℕ) (slots : Option (List (Slot Dev))) (l : Ledger)
    → IsFull n slots
    → AreSound slots
    → (l' : Ledger) × (drop_array g n slots l ≡ done l')
      × Less l l' none_of (λ k. in_array (used k) slots) (in_array (λ a. device_blocks a + 1) slots)
drop_array-Less g n none l e h = (l, refl, Less-refl l)
drop_array-Less g n (some slots) l e h =
    let (l', run, less) = drop_devices-Less g n slots l e h in
    (
      give_back 1 l',
      ap (λ r. and_then r (λ l''. done (give_back 1 l''))) run,
      Less-trans less (give_back-Less 1 l') (λ k. omega arith) (λ k. omega arith) (omega arith),
    )

free_pipes-Less :
    (n : ℕ) (slots : List (Slot Pipe)) (l : Ledger)
    → length slots ≡ n
    → (l' : Ledger) × (free_pipes n slots l ≡ done l')
      × Less l l' none_of (λ k. used k slots) (pipe_blocks slots)
unfolding free_pipes
free_pipes-Less zero [] l e = (l, refl, Less-refl l)
free_pipes-Less zero (s ∷ slots) l e = absurd (omega arith)
free_pipes-Less (suc n) [] l e = absurd (omega arith)
free_pipes-Less (suc n) (s ∷ slots) l e =
    let b = block_count s.dev.buffer in
    let (l', run, less) = free_pipes-Less n slots (give_back b (cdev_del s.cdev l)) (omega arith) in
    (
      l',
      run,
      Less-trans
          (Less-trans {c'' = λ k. one? k s.cdev} (cdev_del-Less s.cdev l)
            (give_back-Less b (cdev_del s.cdev l)) (λ k. refl) (λ k. omega arith) refl)
          less (λ k. omega arith) (λ k. omega arith) (omega arith),
    )

p_cleanup_with-Less :
    (n first : ℕ) (slots : Option (List (Slot Pipe))) (l : Ledger)
    → IsFull n slots
    → (p' : Pipes) × (l' : Ledger) × (p_cleanup_with n first slots l ≡ done (p', l'))
      × Less l l'
          (λ k. in_array (λ a. one k (record { first = first; count = n })) slots)
          (λ k. in_array (used k) slots)
          (in_array (λ a. pipe_blocks a + 1) slots)
p_cleanup_with-Less n first none l e =
    (record { first = first; slots = none }, l, refl, Less-refl l)
p_cleanup_with-Less n first (some slots) l e =
    let (l', run, less) = free_pipes-Less n slots l e in
    let a : Span = record { first = first; count = n } in
    let l'' = give_back 1 l' in
    (
      record { first = first; slots = none },
      unregister_chrdev_region a l'',
      ap (leave_pipes n first) run,
      Less-trans
          (Less-trans {c'' = λ k. used k slots} less (give_back-Less 1 l') (λ k. refl)
            (λ k. omega arith) refl)
          (unregister-Less a l'') (λ k. omega arith) (λ k. omega arith) (omega arith),
    )

p_cleanup-Less :
    (n : ℕ) (p : Pipes) (l : Ledger)
    → IsFull n p.slots
    → (p' : Pipes) × (l' : Ledger) × (p_cleanup n p l ≡ done (p', l'))
      × Less l l'
          (λ k. in_array (λ a. one k (record { first = p.first; count = n })) p.slots)
          (λ k. in_array (used k) p.slots)
          (in_array (λ a. pipe_blocks a + 1) p.slots)
unfolding p_cleanup
p_cleanup-Less n p l e = p_cleanup_with-Less n p.first p.slots l e

-- what the module has registered and owns
abbrev pub own_regions : Host → Config → Module → Span → ℕ
own_regions h c s k =
    one k (numbers h c s.major)
    + in_array (λ a. one k (record { first = s.pipes.first; count = c.pipes })) s.pipes.slots

abbrev pub own_cdevs : Module → Span → ℕ
own_cdevs s k = in_array (used k) s.devices + in_array (used k) s.pipes.slots

abbrev pub own_blocks : Module → ℕ
own_blocks s =
    in_array (λ a. device_blocks a + 1) s.devices + in_array (λ a. pipe_blocks a + 1) s.pipes.slots

pub cleanup-Less :
    (h : Host) (c : Config) (g : Params) (s : Module)
    → IsFull c.devs s.devices
    → AreSound s.devices
    → IsFull c.pipes s.pipes.slots
    → (t : Module) × (cleanup h c g s ≡ done t)
      × Less s.ledger t.ledger (own_regions h c s) (own_cdevs s) (own_blocks s)
unfolding cleanup
cleanup-Less h c g s full sound full_pipes =
    let (l1, run1, less1) = drop_array-Less g c.devs s.devices s.ledger full sound in
    let a = numbers h c s.major in
    let l2 = unregister_chrdev_region a l1 in
    let (p, l3, run3, less3) = p_cleanup-Less c.pipes s.pipes l2 full_pipes in
    (
      record s { pipes = p; ledger = l3 },
      ap (drop_rest h c s) run1 ∙ ap (cleaned s) run3,
      Less-trans (Less-trans less1 (unregister-Less a l1) (λ k. refl) (λ k. refl) refl) less3
          (λ k. omega arith) (λ k. omega arith) (omega arith),
    )
