-- ===== src/Scull/Faults.antt =====
-- 实验7/scull/main.c: `scull_read` and `scull_write` with a quantum of 0, which the ioctl commands and
-- the load-time parameters accept.
use linux_kernel_experiment.Prelude.{
  ℕ, ◌<◌, ◌≡◌, refl, ap, ◌∙◌, false, ℤ, pos, ◌*ℤ◌, to_int, none, arith, leb, ◌≤◌, ◌⊎◌, inl, inr,
  Bool-cases, ltb,
}
use linux_kernel_experiment.Kernel.{crash}
use linux_kernel_experiment.Scull.Device.{Dev}
use linux_kernel_experiment.Scull.Transfer.{Call, locate, write_locked, write, read_locked, read}

zero_item : (qset : ℤ) → to_int (pos 0 *ℤ qset) ≡ pos 0
unfolding ◌*ℤ◌ to_int
zero_item qset = ground arith

locate-zero : (qset : ℤ) (p : ℕ) → locate (pos 0) qset p ≡ none
unfolding locate
locate-zero qset p = rw (zero_item qset) refl

write_locked-zero : (c : Call) (d : Dev) (qset : ℤ) → write_locked c (pos 0) qset d ≡ crash
unfolding write_locked
write_locked-zero c d qset = rw (write_locked, locate-zero qset c.f_pos)

read_locked-zero :
    (c : Call) (d : Dev) (qset : ℤ) → c.f_pos < d.size → read_locked c (pos 0) qset d ≡ crash
unfolding read_locked
read_locked-zero c d qset h =
    let inside : leb d.size c.f_pos ≡ false = ground arith in
    rw (read_locked, inside, locate-zero qset c.f_pos)

-- With a quantum of 0, a `scull_write` that gets the semaphore divides by zero, and so does a
-- `scull_read`, unless it starts past the end of the data.
pub zero_quantum-crash :
    (c : Call) (d : Dev)
    → d.quantum ≡ pos 0
    → (write c false d ≡ crash) × ((d.size ≤ c.f_pos) ⊎ (read c false d ≡ crash))
unfolding write read
zero_quantum-crash c d e = (
  ap (λ a. write_locked c a d.qset d) e ∙ write_locked-zero c d d.qset,
  elim (Bool-cases (ltb c.f_pos d.size)) [
    | inl h ↦
        inr (ap (λ a. read_locked c a d.qset d) e ∙ read_locked-zero c d d.qset (ground arith))
    | inr h ↦ inl (ground arith)
  ],
)
