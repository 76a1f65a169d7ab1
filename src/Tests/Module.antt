-- ===== src/Tests/Module.antt =====
-- The start and the end of the scull module.
use linux_kernel_experiment.Prelude.{
  ℕ, ◌+◌, ◌*◌, ◌^◌, ◌≡◌, ◌⊎◌, inr, refl, none, some, [], ◌∷◌, pos, arith,
}
use linux_kernel_experiment.Kernel.{done, Errno, error, enomem}
use linux_kernel_experiment.Scull.Device.{Params, empty_dev}
use linux_kernel_experiment.Scull.Shape.{IsValid, blocks}
use linux_kernel_experiment.Chrdev.{Host, Ledger, Span}
use linux_kernel_experiment.Module.Pipes.{empty_pipe, p_cleanup}
use linux_kernel_experiment.Module.Start.{Config, Module, init, cleanup, claim, fill}
use linux_kernel_experiment.Module.Balance.{Balanced, Holds, Ends, init-Ends, cleanup-Balanced}
use linux_kernel_experiment.Tests.Sample.{sample, exhausted, no_memory_used}

pub inr_inj : (a b : ℕ) (e : Errno ⊎ ℕ) → e ≡ inr a → e ≡ inr b → a ≡ b
inr_inj a b e h k = cc

-- a kernel that grants the major number 250
abbrev pub host : Host
host = record {
  kernel = sample;
  mkdev = λ major minor. 250 * 2 ^ 20 + minor;
  major_of = λ dev. 250;
  dev_bytes = 100;
  pipe_bytes = 150;
  register_chrdev_region = λ l a. none;
  cdev_add = λ l a. none;
  alloc_chrdev_region = λ l minor n. inr (250 * 2 ^ 20 + minor);
  mkdev-major_of =
      λ l minor n dev e. inr_inj (250 * 2 ^ 20 + minor) dev (inr (250 * 2 ^ 20 + minor)) refl e;
}

abbrev pub config : Config
config = record { minor = 0; devs = 2; pipes = 1 }

abbrev pub params : Params
params = record { scull_quantum = pos 4000; scull_qset = pos 1000; scull_p_buffer = pos 4000 }

abbrev pub empty_ledger : Ledger
empty_ledger = record { regions = []; cdevs = []; memory = no_memory_used }

abbrev pub unloaded : Module
unloaded = record {
  major = 0;
  devices = none;
  pipes = record { first = 0; slots = none };
  ledger = empty_ledger;
}

init-Ends_example : Ends empty_ledger host config (init host config params unloaded)
init-Ends_example = init-Ends host config params refl refl (omega arith) (omega arith) unloaded refl

abbrev pub a_span : ℕ → ℕ → Span
a_span minor n = record { first = 250 * 2 ^ 20 + minor; count = n }

-- two devices and a pipe that has a buffer
abbrev pub loaded : Module
loaded = record {
  major = 250;
  devices = some (
      record { dev = empty_dev params; cdev = some (a_span 0 1) }
      ∷ record { dev = empty_dev params; cdev = some (a_span 1 1) }
      ∷ []);
  pipes = record {
    first = 250 * 2 ^ 20 + 2;
    slots = some (
        record { dev = record empty_pipe { buffer = some (1 ∷ 2 ∷ []) }; cdev = some (a_span 2 1) }
        ∷ []);
  };
  ledger = record {
    regions = a_span 2 1 ∷ a_span 0 2 ∷ [];
    cdevs = a_span 2 1 ∷ a_span 1 1 ∷ a_span 0 1 ∷ [];
    memory = record { requests = 3; granted = 3; freed = 0 };
  };
}

fresh-IsValid : IsValid 4000 1000 (empty_dev params)
fresh-IsValid = record {
  quantum = refl;
  qset = refl;
  items = tt;
  covered = omega arith;
  limit = omega arith;
}

loaded-Holds : Holds empty_ledger host config loaded
unfolding blocks
loaded-Holds = record {
  regions = λ k. omega arith;
  cdevs = λ k. omega arith;
  memory = refl;
  full = refl;
  sound = ((4000, 1000, fresh-IsValid), ((4000, 1000, fresh-IsValid), tt));
  full_pipes = refl;
}

cleanup-Balanced_example :
    (t : Module) × (cleanup host config params loaded ≡ done t) × Balanced empty_ledger t.ledger
cleanup-Balanced_example = cleanup-Balanced empty_ledger host config params loaded loaded-Holds

-- without memory for the devices, the numbers are given back
start_without_memory :
    init (record host { kernel = exhausted }) config params unloaded
    ≡ done (
      error enomem,
      record unloaded {
        major = 250;
        ledger = record empty_ledger { memory = record { requests = 1; granted = 0; freed = 0 } };
      },
    )
unfolding init claim fill cleanup p_cleanup
start_without_memory = refl
