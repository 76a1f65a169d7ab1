-- ===== src/Tests/Debug.antt =====
-- The files that the driver shows in /proc for debugging.
use linux_kernel_experiment.Prelude.{
  ℕ, ◌+◌, ◌*◌, ◌≤◌, ◌≡◌, refl, Bool, true, false, Option, some, List, [], ◌∷◌, pos, replicate,
  length, arith,
}
use linux_kernel_experiment.Kernel.{done, crash, Reply, count}
use linux_kernel_experiment.Scull.Device.{Dev}
use linux_kernel_experiment.Scull.Shape.{IsValid}
use linux_kernel_experiment.Scull.Debug
use linux_kernel_experiment.Scull.Procmem
use linux_kernel_experiment.Scull.Procmem.{
  read_procmem, mem_entry, seq_entry, create_proc, remove_proc,
}
use linux_kernel_experiment.Scull.Room.{Widths, Returns, read_procmem-Widths}
use linux_kernel_experiment.Pipe.Listing
use linux_kernel_experiment.Pipe.Listing.{Window, read_p_mem}
use linux_kernel_experiment.Pipe.Window.{Shows, Placed, whole_text, read_p_mem-Shows}
use linux_kernel_experiment.Tests.Pipe.{wrapped}

-- short lines in place of the texts
abbrev short : Listing.Line → List ℕ
short (Listing.default_line n) = 1 ∷ 1 ∷ 1 ∷ []
short (Listing.device_line i) = i ∷ i ∷ []
short (Listing.buffer_line i a b) = 2 ∷ []
short (Listing.pointers_line i a b) = 3 ∷ []
short (Listing.counts_line a b) = 4 ∷ []

abbrev quiet_pipes : Listing.Proc
quiet_pipes = record { sprintf = short; page_size = 300; interrupted = λ i. false }

read_p_mem-Shows_example :
    (w : Window) × (read_p_mem quiet_pipes (pos 4) 2 (wrapped ∷ wrapped ∷ []) 9
      ≡ done (w, some true, count (length w.bytes)))
    × Shows 9 (whole_text quiet_pipes (pos 4) (wrapped ∷ wrapped ∷ [])) w
    × Placed w
read_p_mem-Shows_example =
    read_p_mem-Shows quiet_pipes (pos 4) (wrapped ∷ wrapped ∷ []) 2 9 (λ i. refl) refl (omega arith)
      (omega arith)

-- a read at 9, one byte into the second device: the count takes in that byte
second_device :
    read_p_mem quiet_pipes (pos 4) 2 (wrapped ∷ wrapped ∷ []) 9
    ≡ done (record { bytes = 1 ∷ 1 ∷ 2 ∷ 3 ∷ 4 ∷ []; start = 1; offset = 0 }, some true, count 5)
unfolding read_p_mem Listing.show_pipes
second_device = refl

-- lines of a device, of an item and of a quantum
abbrev wide : Debug.Line → List ℕ
wide (Debug.device_line i qset quantum size) = replicate 10 0
wide (Debug.item_line b) = 1 ∷ []
wide (Debug.quantum_line i) = replicate 30 2

abbrev with_page : ℕ → Procmem.Proc
with_page n = record { sprintf = wide; page_size = n; interrupted = λ i. false }

abbrev full_array : Dev
full_array = record {
  qsets = record { quanta = some (replicate 4 (some (replicate 2 7))) } ∷ [];
  quantum = pos 2;
  qset = pos 4;
  size = 8;
}

full_array-IsValid : IsValid 2 4 full_array
full_array-IsValid = record {
  quantum = refl;
  qset = refl;
  items = ((refl, (refl, (refl, (refl, (refl, tt))))), tt);
  covered = omega arith;
  limit = omega arith;
}

wide-Widths : Widths (with_page 300) 30
wide-Widths = record {
  device = λ i qset quantum size. omega arith;
  item = λ b. omega arith;
  quantum = λ i. omega arith;
}

read_procmem-Widths_example :
    (t : List ℕ) × (eof : Option Bool) × (reply : Reply) × (read_procmem
        (with_page 300)
        100
        1
        (full_array ∷ [])
      ≡ done (t, eof, reply))
    × (length t ≤ 100 + 4 * 30)
    × Returns t eof reply
read_procmem-Widths_example =
    read_procmem-Widths (with_page 300) 100 2 4 30 1 (full_array ∷ []) wide-Widths (omega arith)
      refl (full_array-IsValid, tt)

-- a page of 100 bytes, all of them asked for: the quanta run over its end
over_the_page : read_procmem (with_page 100) 100 1 (full_array ∷ []) ≡ crash
unfolding read_procmem Procmem.dump_devices Debug.show_quanta
over_the_page = refl
