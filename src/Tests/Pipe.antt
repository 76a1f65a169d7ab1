-- ===== src/Tests/Pipe.antt =====
-- A pipe with a buffer of 4 bytes.
use linux_kernel_experiment.Prelude.{
  ℕ, ◌-◌, ◌<◌, ◌≡◌, ◌⊎◌, refl, true, false, none, some, List, [], ◌∷◌, ◌++◌, pos, arith, length,
  bits32, ◌-ℤ◌,
}
use linux_kernel_experiment.Kernel.{Memory, error, efault, eagain}
use linux_kernel_experiment.Scull.Device.{Params}
use linux_kernel_experiment.Pipe.Ring.{
  Pipe, File, Wake, Effect, returns, p_read, p_write, await_data, take_from, sleeps, quiet,
}
use linux_kernel_experiment.Pipe.Contents.{contents}
use linux_kernel_experiment.Pipe.Shape.{IsValid}
use linux_kernel_experiment.Pipe.Reading.{Took, p_read-takes}
use linux_kernel_experiment.Pipe.Writing.{Gave, Spoilt, p_write-gives}
use linux_kernel_experiment.Pipe.Fifo.{Op, reads, writes, Log, run, run-fifo}
use linux_kernel_experiment.Pipe.Waits.{nonblocking, read_from, p_read-waits}
use linux_kernel_experiment.Pipe.Opens.{IsHeld}
use linux_kernel_experiment.Pipe.Uses.{
  Use, opens, releases, Opened, use_all, IsRight, use_all-IsRight,
}
use linux_kernel_experiment.Module.Pipes.{empty_pipe}
use linux_kernel_experiment.Tests.Sample.{sample, no_memory_used}

abbrev pub blocking : File
blocking = record { for_read = true; for_write = true; nonblock = false }

-- 30 is at the end, 40 at the start
abbrev pub wrapped : Pipe
wrapped = record {
  buffer = some (40 ∷ 10 ∷ 20 ∷ 30 ∷ []);
  end_at = pos 4;
  buffersize = pos 4;
  rp = 3;
  wp = 1;
  nreaders = pos 1;
  nwriters = pos 1;
  async_queue = 7 ∷ [];
}

abbrev pub wrapped_bytes : List ℕ
wrapped_bytes = 40 ∷ 10 ∷ 20 ∷ 30 ∷ []

wrapped-IsValid : IsValid 4 wrapped_bytes wrapped
wrapped-IsValid = record {
  buffer = refl;
  size = refl;
  fits = omega arith;
  buffersize = refl;
  end_at = refl;
  rp = omega arith;
  wp = omega arith;
}

wrapped_contents : contents wrapped_bytes 3 1 ≡ 30 ∷ 40 ∷ []
unfolding contents
wrapped_contents = refl

-- a read of 5 bytes takes one, up to the end
read_one :
    p_read sample blocking false wrapped [] (0 ∷ 0 ∷ []) 5
    ≡ p_read sample blocking false wrapped [] (0 ∷ 0 ∷ []) 1
unfolding p_read await_data take_from bits32 ◌-ℤ◌
read_one = refl

p_read-takes_example :
    (out : Effect) × (p_read sample blocking false wrapped [] (0 ∷ 0 ∷ []) 5 ≡ returns out)
    × (((out.reply ≡ error efault) × (out.pipe ≡ wrapped))
        ⊎ Took 4 wrapped_bytes wrapped (0 ∷ 0 ∷ []) 5 out)
p_read-takes_example =
    p_read-takes sample blocking wrapped [] (0 ∷ 0 ∷ []) 5 wrapped-IsValid (omega arith)

room_left : length (contents wrapped_bytes 3 1) < 4 - 1
unfolding contents
room_left = omega arith

p_write-gives_example :
    (out : Effect) × (p_write sample blocking false wrapped [] (50 ∷ 60 ∷ []) 2 ≡ returns out)
    × (Spoilt 4 wrapped_bytes wrapped out ⊎ Gave 4 wrapped_bytes wrapped (50 ∷ 60 ∷ []) 2 out)
p_write-gives_example =
    p_write-gives sample blocking wrapped [] (50 ∷ 60 ∷ []) 2 wrapped-IsValid room_left

abbrev calls : List Op
calls =
    writes blocking false (50 ∷ 60 ∷ []) 2
    ∷ reads blocking false (0 ∷ 0 ∷ []) 2
    ∷ reads blocking false (0 ∷ 0 ∷ []) 2
    ∷ []

run-fifo_example :
    (l : Log) × (run sample wrapped calls ≡ some l)
    × ((b' : List ℕ) × IsValid 4 b' l.pipe
        × (contents wrapped_bytes 3 1 ++ l.accepted
            ≡ l.delivered ++ contents b' l.pipe.rp l.pipe.wp))
run-fifo_example = run-fifo sample wrapped calls 4 wrapped_bytes wrapped-IsValid

abbrev drained : Pipe
drained = record wrapped { rp = 1 }

abbrev wake_up : Pipe → Wake
wake_up p = record { signal = false; interrupted = false; pipe = p }

-- woken once for nothing, and once to two bytes
p_read-waits_example :
    (p_read sample
        (nonblocking blocking)
        false
        drained
        (wake_up drained ∷ wake_up wrapped ∷ [])
        (0 ∷ [])
        1
      ≡ quiet drained (0 ∷ []) (error eagain))
    × (p_read sample blocking false drained (wake_up drained ∷ []) (0 ∷ []) 1 ≡ sleeps)
    × (p_read sample blocking false drained (wake_up drained ∷ wake_up wrapped ∷ []) (0 ∷ []) 1
        ≡ read_from sample blocking (0 ∷ []) 1 (wake_up wrapped) [])
p_read-waits_example =
    p_read-waits sample blocking (0 ∷ []) 1 drained (wake_up drained ∷ []) (wake_up wrapped) [] refl
      ((refl, refl, refl), tt)

abbrev closed : Pipe
closed = record wrapped { buffer = none; nreaders = pos 0; nwriters = pos 0 }

closed-IsHeld : IsHeld 0 0 closed no_memory_used
closed-IsHeld = record {
  readers = refl;
  writers = refl;
  balanced = refl;
  released = λ _. refl;
  held = λ h. absurd (omega arith);
}

abbrev params : Params
params = record { scull_quantum = pos 4; scull_qset = pos 3; scull_p_buffer = pos 4 }

abbrev one_block : Memory
one_block = record { requests = 1; granted = 1; freed = 0 }

wrapped-IsHeld : IsHeld 1 1 wrapped one_block
wrapped-IsHeld = record {
  readers = refl;
  writers = refl;
  balanced = refl;
  released = λ e. absurd (omega arith);
  held = λ _. refl;
}

-- two files come, and one goes
abbrev pub two_files : List Use
two_files =
    opens sample (record { scull_quantum = pos 4; scull_qset = pos 3; scull_p_buffer = pos 8 })
      blocking false
    ∷ opens sample (record { scull_quantum = pos 4; scull_qset = pos 3; scull_p_buffer = pos 8 })
        blocking false
    ∷ releases (λ l. l) 1
    ∷ []

abbrev pub unused : Opened
unused = record { pipe = empty_pipe; memory = no_memory_used; files = [] }

unused-IsRight : IsRight unused
unused-IsRight = record {
  held = record {
    readers = refl;
    writers = refl;
    balanced = refl;
    released = λ e. refl;
    held = λ e. absurd (omega (arith, e));
  };
  used = tt;
}

use_all-IsRight_example : IsRight (use_all two_files unused)
use_all-IsRight_example =
    use_all-IsRight two_files unused unused-IsRight (omega arith, (omega arith, (tt, tt)))
      (omega arith)
