-- ===== src/Tests/Fixed.antt =====
-- The driver with one array of 16 bytes.
use linux_kernel_experiment.Prelude.{◌≡◌, ◌⊎◌, refl, false, [], ◌∷◌, replicate, take, arith}
use linux_kernel_experiment.Kernel.{done, count, error, efault}
use linux_kernel_experiment.Fixed.Block.{
  Block, Arguments, Returned, copy_in, read_bytes, write_bytes,
}
use linux_kernel_experiment.Fixed.Bytes.{Confined, IsValid, write_bytes-Confined}
use linux_kernel_experiment.Fixed.Stored.{read_bytes-write_bytes}
use linux_kernel_experiment.Tests.Sample.{sample}

abbrev pub nothing_stored : Block
nothing_stored = record { bytes = replicate 16 0; size = 0 }

nothing_stored-IsValid : IsValid nothing_stored
nothing_stored-IsValid = record { whole = refl; within = omega arith }

-- 4 bytes, of which 2 fit
abbrev pub late : Arguments
late = record { kernel = sample; f_pos = 14; user = 1 ∷ 2 ∷ 3 ∷ 4 ∷ []; n = 4 }

abbrev pub late_read : Arguments
late_read = record { kernel = sample; f_pos = 14; user = 0 ∷ 0 ∷ 0 ∷ []; n = 2 }

abbrev pub two_stored : Block
two_stored = record {
  bytes = 0 ∷ 0 ∷ 0 ∷ 0 ∷ 0 ∷ 0 ∷ 0 ∷ 0 ∷ 0 ∷ 0 ∷ 0 ∷ 0 ∷ 0 ∷ 0 ∷ 1 ∷ 2 ∷ [];
  size = 16;
}

abbrev pub two_written : Returned
two_written = record { block = two_stored; f_pos = 16; user = 1 ∷ 2 ∷ 3 ∷ 4 ∷ []; reply = count 2 }

late_write : write_bytes late false nothing_stored ≡ done two_written
unfolding write_bytes copy_in
late_write = refl

write_bytes-Confined_example :
    (out : Returned) × (write_bytes late false nothing_stored ≡ done out)
    × Confined late nothing_stored out
write_bytes-Confined_example = write_bytes-Confined late false nothing_stored nothing_stored-IsValid

read_bytes-write_bytes_example :
    (got : Returned) × (read_bytes late_read false two_stored ≡ done got)
    × ((got.reply ≡ error efault) ⊎ ((got.reply ≡ count 2) × (take 2 got.user ≡ 1 ∷ 2 ∷ [])))
read_bytes-write_bytes_example =
    read_bytes-write_bytes late late_read nothing_stored two_written 2 nothing_stored-IsValid
      late_write refl (omega arith) refl refl

-- a byte written at the start of a full device makes it 1 byte long
abbrev pub early : Arguments
early = record { kernel = sample; f_pos = 0; user = 9 ∷ []; n = 1 }

early_write_shrinks :
    write_bytes early false two_stored
    ≡ done (record {
      block = record {
        bytes = 9 ∷ 0 ∷ 0 ∷ 0 ∷ 0 ∷ 0 ∷ 0 ∷ 0 ∷ 0 ∷ 0 ∷ 0 ∷ 0 ∷ 0 ∷ 0 ∷ 1 ∷ 2 ∷ [];
        size = 1;
      };
      f_pos = 1;
      user = 9 ∷ [];
      reply = count 1;
    })
unfolding write_bytes copy_in
early_write_shrinks = refl
