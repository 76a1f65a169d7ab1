-- ===== src/Tests/Scull.antt =====
-- The bare device at quanta of 4 bytes and sets of 3 quanta.
use linux_kernel_experiment.Prelude.{
  ℕ, ◌+◌, ◌≤◌, ◌≡◌, ◌⊎◌, inl, refl, false, none, some, [], ◌∷◌, pos, arith, get_elem?, bits32,
}
use linux_kernel_experiment.Kernel.{kfree, done, count, error, efault, enomem}
use linux_kernel_experiment.Scull.Device.{Dev, Params, empty_dev, trim, walk, follow}
use linux_kernel_experiment.Scull.Transfer.{
  Call, Outcome, locate, clip, read_block, read_item, read_locked, read, write_block, write_quantum,
  write_quanta, write_item, write_locked, write,
}
use linux_kernel_experiment.Scull.Geometry.{Geometry}
use linux_kernel_experiment.Scull.Shape.{IsValid, byte_at, blocks, blocks_quanta}
use linux_kernel_experiment.Scull.Effect.{span}
use linux_kernel_experiment.Scull.Fetch.{extent}
use linux_kernel_experiment.Scull.Trim.{trim-blocks}
use linux_kernel_experiment.Scull.Writing.{write_total, write-stores, write-keeps, write-granted}
use linux_kernel_experiment.Scull.Reading.{read_total, read-returns, read-write}
use linux_kernel_experiment.Tests.Sample.{sample, no_memory_used}

four_by_three : Geometry 4 3
four_by_three = omega arith

abbrev params : Params
params = record { scull_quantum = pos 4; scull_qset = pos 3; scull_p_buffer = pos 8 }

-- 7 bytes: a full quantum, and 3 bytes of the next
abbrev device : Dev
device = record {
  qsets =
      record { quanta = some (some (1 ∷ 2 ∷ 3 ∷ 4 ∷ []) ∷ some (5 ∷ 6 ∷ 7 ∷ 0 ∷ []) ∷ none ∷ []) }
      ∷ [];
  quantum = pos 4;
  qset = pos 3;
  size = 7;
}

device-IsValid : IsValid 4 3 device
device-IsValid = record {
  quantum = refl;
  qset = refl;
  items = omega arith;
  covered = omega arith;
  limit = omega arith;
}

-- `write(fd, "\x0a\x0b\x0c", 3)` at position 13: the second item, with 3 of its 4 bytes left
abbrev at_13 : Call
at_13 = record {
  kernel = sample;
  memory = no_memory_used;
  f_pos = 13;
  user = 10 ∷ 11 ∷ 12 ∷ [];
  n = 3;
}

abbrev wrote_13 : Outcome
wrote_13 = record {
  dev = record device {
    qsets =
        record { quanta = some (some (1 ∷ 2 ∷ 3 ∷ 4 ∷ []) ∷ some (5 ∷ 6 ∷ 7 ∷ 0 ∷ []) ∷ none ∷ []) }
        ∷ record { quanta = some (some (0xaa ∷ 10 ∷ 11 ∷ 12 ∷ []) ∷ none ∷ none ∷ []) }
        ∷ [];
    size = 16;
  };
  memory = record { requests = 3; granted = 3; freed = 0 };
  f_pos = 16;
  user = 10 ∷ 11 ∷ 12 ∷ [];
  reply = count 3;
}

write_13 : write at_13 false device ≡ done wrote_13
unfolding write write_locked locate follow walk write_item write_quanta write_quantum write_block
    clip bits32
write_13 = refl

-- reading them back
abbrev back_13 : Call
back_13 = record at_13 { user = 0 ∷ 0 ∷ 0 ∷ 0 ∷ [] }

abbrev read_back : Outcome
read_back = record wrote_13 { memory = no_memory_used; user = 10 ∷ 11 ∷ 12 ∷ 0 ∷ [] }

read_13 : read back_13 false wrote_13.dev ≡ done read_back
unfolding read read_locked locate follow walk read_item read_block clip
read_13 = refl

write_total_example :
    (out : Outcome) × (write at_13 false device ≡ done out)
    × IsValid 4 3 out.dev
    × (7 ≤ out.dev.size)
    × ((out.reply ≡ count (span 4 3 13 3))
        ⊎ (out.reply ≡ error efault)
        ⊎ (out.reply ≡ error enomem))
write_total_example =
    write_total four_by_three at_13 device device-IsValid (omega arith) (omega arith)

write-stores_example :
    (b : ℕ) × (get_elem? (10 ∷ 11 ∷ 12 ∷ []) 1 ≡ some b)
    × (byte_at 4 3 wrote_13.dev.qsets 14 ≡ some b)
    × (◌≡◌ {A = ℕ} 16 16)
write-stores_example =
    write-stores four_by_three at_13 device device-IsValid (omega arith) (omega arith) wrote_13
      write_13 3 1 refl (omega arith)

write-keeps_example :
    (byte_at 4 3 wrote_13.dev.qsets 6 ≡ byte_at 4 3 device.qsets 6)
    ⊎ (byte_at 4 3 device.qsets 6 ≡ none)
write-keeps_example =
    write-keeps four_by_three at_13 device device-IsValid (omega arith) (omega arith) wrote_13
      write_13 6 (inl (omega arith))

write-granted_example :
    (3 + blocks device.qsets ≡ 0 + blocks wrote_13.dev.qsets) × (◌≡◌ {A = ℕ} 0 0)
write-granted_example =
    write-granted four_by_three at_13 device device-IsValid (omega arith) (omega arith) wrote_13
      write_13

trim-blocks_example :
    trim params device no_memory_used
    ≡ done (empty_dev params, kfree (blocks device.qsets) no_memory_used)
trim-blocks_example = trim-blocks 4 3 params device no_memory_used device-IsValid

-- two quanta, their array and the item
trim_frees_four : blocks device.qsets ≡ 4
unfolding blocks blocks_quanta
trim_frees_four = refl

wrote_13-IsValid : IsValid 4 3 wrote_13.dev
wrote_13-IsValid = record {
  quantum = refl;
  qset = refl;
  items = omega arith;
  covered = omega arith;
  limit = omega arith;
}

read_total_example :
    (out : Outcome) × (read back_13 false wrote_13.dev ≡ done out)
    × (out.dev ≡ wrote_13.dev)
    × (out.memory ≡ no_memory_used)
    × (((out.reply ≡ count 0) × ((16 ≤ 13) ⊎ (byte_at 4 3 wrote_13.dev.qsets 13 ≡ none)))
        ⊎ (out.reply ≡ count (extent 4 3 wrote_13.dev 13 3))
        ⊎ (out.reply ≡ error efault))
read_total_example = read_total four_by_three back_13 wrote_13.dev wrote_13-IsValid

read-returns_example :
    (b : ℕ) × (get_elem? (10 ∷ 11 ∷ 12 ∷ 0 ∷ []) 2 ≡ some b)
    × (byte_at 4 3 wrote_13.dev.qsets 15 ≡ some b)
    × (◌≡◌ {A = ℕ} 16 16)
read-returns_example =
    read-returns four_by_three back_13 wrote_13.dev wrote_13-IsValid read_back read_13 3 2 refl
      (omega arith)

read-write_example :
    ((read_back.reply ≡ count 3) × (get_elem? read_back.user 1 ≡ get_elem? at_13.user 1))
    ⊎ (read_back.reply ≡ error efault)
read-write_example =
    read-write four_by_three at_13 device device-IsValid (omega arith) (omega arith) wrote_13
      write_13 3 1 refl (omega arith) back_13 refl refl read_back read_13
