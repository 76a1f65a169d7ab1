-- ===== src/Chrdev.antt =====
-- What the drivers use of the kernel to come and go: device numbers and character devices. None of
-- it is code of this repository, so it enters as the record `Host`, a parameter of the operations.
use linux_kernel_experiment.Prelude.{
  ℕ, zero, suc, ◌+◌, ◌≡◌, Bool, ◌&&◌, Option, none, some, List, [], ◌∷◌, ◌⊎◌, inr, ◌==◌,
  if◌then◌else◌,
}
use linux_kernel_experiment.Kernel.{Kernel, Memory, kmalloc, kfree, Errno}
pub mod Tally

-- the device numbers from `first` on, `count` of them
pub record Span : Type 0 where
  pub first : ℕ
  pub count : ℕ

abbrev pub same : Span → Span → Bool
same a b = (a.first == b.first) && (a.count == b.count)

-- what is registered in the kernel, and the account with the allocator
pub record Ledger : Type 0 where
  pub regions : List Span
  pub cdevs : List Span
  pub memory : Memory

pub record Host : Type 0 where
  pub kernel : Kernel
  -- `MKDEV` and `MAJOR`
  pub mkdev : ℕ → ℕ → ℕ
  pub major_of : ℕ → ℕ
  -- `sizeof(struct scull_dev)` and `sizeof(struct scull_pipe)`, which hold types of the kernel
  pub dev_bytes : ℕ
  pub pipe_bytes : ℕ
  -- `none` is success
  pub register_chrdev_region : Ledger → Span → Option Errno
  pub cdev_add : Ledger → Span → Option Errno
  -- by the first minor number and the count, the number that `*dev` gets
  pub alloc_chrdev_region : Ledger → ℕ → ℕ → Errno ⊎ ℕ
  pub mkdev-major_of :
      (l : Ledger) (minor n dev : ℕ)
      → alloc_chrdev_region l minor n ≡ inr dev
      → mkdev (major_of dev) minor ≡ dev

abbrev pub remove : Span → List Span → List Span
remove a [] = []
remove a (b ∷ l) = if same a b then l else b ∷ remove a l

abbrev pub enter : Span → Ledger → Ledger
enter a l = record l { regions = a ∷ l.regions }

abbrev pub unregister_chrdev_region : Span → Ledger → Ledger
unregister_chrdev_region a l = record l { regions = remove a l.regions }

-- A `struct cdev` is in use where `cdev_add` has succeeded.
abbrev pub added : Span → Ledger → Option Errno → Option Span × Ledger
added a l (some e) = (none, l)
added a l none = (some a, record l { cdevs = a ∷ l.cdevs })

-- `cdev_add(cdev, dev, 1)`; an error is printed
unfoldable pub add_cdev : Host → ℕ → Ledger → Option Span × Ledger
add_cdev h dev l = let a : Span = record { first = dev; count = 1 } in added a l (h.cdev_add l a)

unfoldable pub cdev_del : Option Span → Ledger → Ledger
cdev_del none l = l
cdev_del (some a) l = record l { cdevs = remove a l.cdevs }

abbrev pub request : Host → ℕ → Ledger → Option (ℕ → ℕ) × Ledger
request h size l =
    let (block, m) = kmalloc h.kernel size l.memory in (block, record l { memory = m })

abbrev pub give_back : ℕ → Ledger → Ledger
give_back n l = record l { memory = kfree n l.memory }

-- a device of an array, and its `struct cdev`
pub record Slot (D : Type 0) : Type 0 where
  pub dev : D
  pub cdev : Option Span

-- `for (i = 0; i < n; i++)`: the device `d` is made ready, under the number `dev i`
unfoldable pub add_each :
    {D : Type 0} → Host → D → (ℕ → ℕ) → ℕ → ℕ → Ledger → List (Slot D) × Ledger
add_each h d dev i zero l = ([], l)
add_each h d dev i (suc n) l =
    let (c, l') = add_cdev h (dev i) l in
    let (slots, l'') = add_each h d dev (suc i) n l' in (record { dev = d; cdev = c } ∷ slots, l'')
