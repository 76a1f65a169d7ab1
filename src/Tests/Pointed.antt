-- ===== src/Tests/Pointed.antt =====
-- The copy of the driver whose devices have no array.
use linux_kernel_experiment.Prelude.{ℕ, ◌≡◌, ◌⊎◌, refl, true, false, [], ◌∷◌}
use linux_kernel_experiment.Kernel.{done, crash, Reply, count}
use linux_kernel_experiment.Fixed.Block.{Arguments}
use linux_kernel_experiment.Pointed.Null.{
  writes, reads, call, null_device, touches, IsNothing, call_null,
}
use linux_kernel_experiment.Tests.Sample.{sample}

-- one byte at 5
abbrev one_byte : Arguments
one_byte = record { kernel = sample; f_pos = 5; user = 9 ∷ []; n = 1 }

abbrev no_bytes : Arguments
no_bytes = record { kernel = sample; f_pos = 5; user = []; n = 0 }

call_null_example :
    ((touches (writes one_byte false) 0 ≡ true)
      × (call (writes one_byte false) (null_device 0) ≡ crash))
    ⊎ ((touches (writes one_byte false) 0 ≡ false)
        × ((size' : ℕ) × (r : Reply) × (call (writes one_byte false) (null_device 0)
              ≡ done (null_device size', r))
            × IsNothing r))
call_null_example = call_null (writes one_byte false) 0

-- a write of nothing still moves the size, and a read of a byte before it then crashes
empty_write : call (writes no_bytes false) (null_device 0) ≡ done (null_device 5, count 0)
empty_write = refl

read_at_0 : call (reads (record one_byte { f_pos = 0 }) false) (null_device 5) ≡ crash
read_at_0 = refl
