-- ===== src/Scull/Shape.antt =====
-- 实验7/scull/main.c: the representation invariant of the bare device, and the bytes that it holds.
use linux_kernel_experiment.Prelude.{
  ℕ, ◌*◌, ◌/◌, ◌^◌, ◌≤◌, ◌≡◌, Option, none, some, List, [], ◌∷◌, ◌+◌, pos, All, length, get_elem?,
}
use linux_kernel_experiment.Scull.Device.{Quantum, Qset, Dev, block_count}
use linux_kernel_experiment.Scull.Geometry.{s_of, q_of}

module _ (q s : ℕ) where
  -- an allocated quantum has `q` bytes
  abbrev pub IsQuantum : Quantum → Type 0
  IsQuantum none = Unit
  IsQuantum (some b) = length b ≡ q

  -- an allocated array has `s` quanta
  abbrev pub IsArray : Option (List Quantum) → Type 0
  IsArray none = Unit
  IsArray (some qs) = (length qs ≡ s) × All IsQuantum qs

  abbrev pub IsItem : Qset → Type 0
  IsItem it = IsArray it.quanta

  -- The device has the geometry `q` by `s`, all its blocks do, and its size stays within its list.
  pub record IsValid (d : Dev) : Type 0 where
    pub quantum : d.quantum ≡ pos q
    pub qset : d.qset ≡ pos s
    pub items : All IsItem d.qsets
    pub covered : d.size ≤ length d.qsets * (q * s)
    pub limit : d.size ≤ 2 ^ 31

-- the byte at offset `o` of a quantum
abbrev pub quantum_byte : Option Quantum → ℕ → Option ℕ
quantum_byte none o = none
quantum_byte (some none) o = none
quantum_byte (some (some b)) o = get_elem? b o

abbrev pub array_byte : Option (List Quantum) → ℕ → ℕ → Option ℕ
array_byte none j o = none
array_byte (some qs) j o = quantum_byte (get_elem? qs j) o

abbrev pub item_byte : Option Qset → ℕ → ℕ → Option ℕ
item_byte none j o = none
item_byte (some it) j o = array_byte it.quanta j o

-- the byte at offset `o` of quantum `j` of item `i`, `none` where nothing is allocated
abbrev pub cell : List Qset → ℕ → ℕ → ℕ → Option ℕ
cell l i j o = item_byte (get_elem? l i) j o

-- the byte that a device of geometry `q` by `s` holds at position `p`
unfoldable pub byte_at : ℕ → ℕ → List Qset → ℕ → Option ℕ
byte_at q s l p = cell l (p / (q * s)) (s_of q s p) (q_of q s p)

-- blocks that the device owns: quanta, arrays and list items
unfoldable pub blocks_quanta : List Quantum → ℕ
blocks_quanta [] = 0
blocks_quanta (b ∷ qs) = block_count b + blocks_quanta qs

abbrev pub blocks_array : Option (List Quantum) → ℕ
blocks_array none = 0
blocks_array (some qs) = blocks_quanta qs + 1

unfoldable pub blocks : List Qset → ℕ
blocks [] = 0
blocks (it ∷ l) = blocks_array it.quanta + 1 + blocks l
