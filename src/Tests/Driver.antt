-- ===== src/Tests/Driver.antt =====
-- Seeking, whole sessions, the ioctl commands and a quantum of 0.
use linux_kernel_experiment.Prelude.{◌≤◌, ◌≡◌, ◌⊎◌, refl, true, false, List, [], ◌∷◌, pos, arith}
use linux_kernel_experiment.Kernel.{Memory, done, crash}
use linux_kernel_experiment.Scull.Device.{Dev, Params, empty_dev, trim}
use linux_kernel_experiment.Scull.Transfer.{Call, read, write}
use linux_kernel_experiment.Scull.Geometry.{Geometry}
use linux_kernel_experiment.Scull.Session
use linux_kernel_experiment.Scull.Session.{IsSound, session_trim}
use linux_kernel_experiment.Scull.Faults.{zero_quantum-crash}
use linux_kernel_experiment.Scull.Ioctl.{Caller, Command, ioctl}
use linux_kernel_experiment.Scull.Commands.{Unprivileged, ioctl-Unprivileged}
use linux_kernel_experiment.Tests.Sample.{sample, no_memory_used}

abbrev params : Params
params = record { scull_quantum = pos 4; scull_qset = pos 3; scull_p_buffer = pos 8 }

abbrev of_seven : Dev
of_seven = record { qsets = []; quantum = pos 4; qset = pos 3; size = 7 }

four_by_three : Geometry 4 3
four_by_three = omega arith

-- open for writing, write 3 bytes at 13, read them back
abbrev calls : List Session.Command
calls =
    Session.opens 1 false
    ∷ Session.writes 13 (10 ∷ 11 ∷ 12 ∷ []) 3 false
    ∷ Session.reads 13 (0 ∷ 0 ∷ 0 ∷ []) 3 false
    ∷ []

session_trim_example :
    (d' : Dev) × (m' m'' : Memory) × (Session.run sample params
        (empty_dev params, no_memory_used)
        calls
      ≡ done (d', m'))
    × IsSound 4 3 (d', m')
    × (trim params d' m' ≡ done (empty_dev params, m''))
    × (m''.granted ≡ m''.freed)
session_trim_example =
    session_trim four_by_three sample params refl refl no_memory_used calls refl
      (tt, ((omega arith, omega arith), (tt, tt)))

abbrev no_quantum : Dev
no_quantum = record of_seven { quantum = pos 0 }

abbrev at_start : Call
at_start = record { kernel = sample; memory = no_memory_used; f_pos = 0; user = 1 ∷ []; n = 1 }

zero_quantum-crash_example :
    (write at_start false no_quantum ≡ crash) × ((7 ≤ 0) ⊎ (read at_start false no_quantum ≡ crash))
zero_quantum-crash_example = zero_quantum-crash at_start no_quantum refl

abbrev root : Caller
root = record {
  access_ok = λ _ _ _. true;
  capable = true;
  get_user = λ _. (pos 100, true);
  put_user = λ _. true;
}

abbrev somebody : Caller
somebody = record root { capable = false }

ioctl-Unprivileged_example : Unprivileged 0 params (ioctl somebody 27395 0 params).params
ioctl-Unprivileged_example = ioctl-Unprivileged somebody 27395 0 params refl
