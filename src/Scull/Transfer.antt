-- ===== src/Scull/Transfer.antt =====
-- 实验7/scull/main.c: `scull_read` and `scull_write`. The driver is built for a 32-bit kernel: `int`,
-- `long`, `size_t` and pointers have 32 bits, `loff_t` has 64, and signed sums and products wrap.
use linux_kernel_experiment.Prelude.{
  ℕ, ◌+◌, ◌-◌, ◌*◌, ◌/◌, ◌%◌, ◌^◌, Bool, true, false, Option, none, some, List, ◌||◌, ◌&&◌, ℤ, pos,
  negsuc, ◌*ℤ◌, ◌-ℤ◌, eqb_ℤ, to_int, bits32, quot_ℤ, rem_ℤ, ltb, leb, ◌==◌, if◌then◌else◌, length,
  get_elem?, set, replicate, tabulate, splice, slice,
}
use linux_kernel_experiment.Kernel.{
  Kernel, Memory, kmalloc, Run, done, crash, Reply, count, error, erestartsys, efault, enomem,
}
use linux_kernel_experiment.Scull.Device.{Quantum, Qset, Dev, follow}

-- list item, index of the quantum in it, and offset in the quantum
pub record Place : Type 0 where
  pub item : ℕ
  pub s_pos : ℤ
  pub q_pos : ℤ

-- a division that raises a divide error
abbrev traps : ℤ → ℤ → Bool
traps a b = eqb_ℤ b (pos 0) || (eqb_ℤ a (negsuc (2 ^ 31 - 1)) && eqb_ℤ b (negsuc 0))

-- "find listitem, qset index, and offset in the quantum"; `item` is given by its 32 bits
unfoldable pub locate : ℤ → ℤ → ℕ → Option Place
unfolding ◌*ℤ◌ to_int bits32 quot_ℤ rem_ℤ
locate quantum qset f_pos =
    let itemsize = to_int (quantum *ℤ qset) in
    let at = to_int (pos f_pos) in
    let rest = rem_ℤ at itemsize in
    if traps at itemsize
    then none
    else some (record {
      item = bits32 (quot_ℤ at itemsize);
      s_pos = quot_ℤ rest quantum;
      q_pos = rem_ℤ rest quantum;
    })

-- "only up to the end of this quantum": `quantum - q_pos` is compared as an unsigned number
unfoldable pub clip : ℤ → ℤ → ℕ → ℕ
unfolding ◌-ℤ◌ bits32
clip quantum q_pos n = let left = bits32 (quantum -ℤ q_pos) in if ltb left n then left else n

-- `data[s_pos]`, or `none` outside the array
abbrev pub index {ℓ} : {A : Type ℓ} → List A → ℤ → Option A
index l (pos i) = get_elem? l i
index l (negsuc i) = none

-- the item that `scull_follow` returned, `none` for NULL
abbrev pub reached : Bool → List Qset → ℕ → Option Qset
reached true l n = get_elem? l n
reached false l n = none

-- What a call leaves: the device, the allocator, the file position, user memory and the result.
pub record Outcome : Type 0 where
  pub dev : Dev
  pub memory : Memory
  pub f_pos : ℕ
  pub user : List ℕ
  pub reply : Reply

-- The arguments of one call, and what it finds when it starts.
pub record Call : Type 0 where
  pub kernel : Kernel
  pub memory : Memory
  pub f_pos : ℕ
  pub user : List ℕ
  pub n : ℕ

abbrev pub leave : Call → Dev → Memory → Reply → Run Outcome
leave c dev m r = done (record { dev = dev; memory = m; f_pos = c.f_pos; user = c.user; reply = r })

-- the copy out of a quantum, and the new position
unfoldable pub read_block : Call → Dev → Memory → List ℕ → ℤ → ℕ → Run Outcome
read_block c dev m block (negsuc o) n = crash
read_block c dev m block (pos o) n =
    let (user, left) = c.kernel.copy_to_user c.user (slice block o n) in
    if ltb (length block) (o + n)
    then crash
    else if left == 0
    then done (record { dev = dev; memory = m; f_pos = c.f_pos + n; user = user; reply = count n })
    else done (record { dev = dev; memory = m; f_pos = c.f_pos; user = user; reply = error efault })

-- `if (dptr == NULL || !dptr->data || !dptr->data[s_pos]) goto out`
unfoldable pub read_item : Call → ℤ → Dev → Memory → Option Qset → Place → ℕ → Run Outcome
read_item c quantum dev m none p n = leave c dev m (count 0)
read_item c quantum dev m (some q) p n = elim q.quanta [
  | none ↦ leave c dev m (count 0)
  | some qs ↦ elim (index qs p.s_pos) [
    | none ↦ crash
    | some none ↦ leave c dev m (count 0)
    | some (some block) ↦ read_block c dev m block p.q_pos (clip quantum p.q_pos n)
  ]
]

-- `count`, cut at the end of the data
abbrev pub available : ℕ → ℕ → ℕ → ℕ
available size f_pos n = if ltb size (f_pos + n) then size - f_pos else n

-- `scull_read` with the semaphore held. `quantum` and `qset` were read before it was taken.
unfoldable pub read_locked : Call → ℤ → ℤ → Dev → Run Outcome
read_locked c quantum qset dev =
    if leb dev.size c.f_pos
    then leave c dev c.memory (count 0)
    else elim (locate quantum qset c.f_pos) [
      | none ↦ crash
      | some p ↦
          let (l, found, m) = follow c.kernel dev.qsets p.item c.memory in
          read_item c quantum (record dev { qsets = l }) m (reached found l p.item) p
            (available dev.size c.f_pos c.n)
    ]

-- `scull_read`; `interrupted` is the result of `down_interruptible`
unfoldable pub read : Call → Bool → Dev → Run Outcome
read c true dev = leave c dev c.memory (error erestartsys)
read c false dev = read_locked c dev.quantum dev.qset dev

-- `dev->data[item]->data[s_pos] = block`
abbrev pub put_block : List Qset → ℕ → List Quantum → ℕ → List ℕ → List Qset
put_block l item qs s block = set l item (record { quanta = some (set qs s (some block)) })

-- the copy into a quantum, the new position and the new size
unfoldable pub write_block :
    Call → Dev → Memory → ℕ → List Quantum → ℕ → List ℕ → ℤ → ℕ → Run Outcome
write_block c dev m item qs s block (negsuc o) n = crash
write_block c dev m item qs s block (pos o) n =
    let (bytes, left) = c.kernel.copy_from_user c.user n in
    let l = put_block dev.qsets item qs s (splice block o bytes) in
    let f_pos = c.f_pos + n in
    if ltb (length block) (o + n)
    then crash
    else if left == 0
    then done (record {
      dev = record dev {
        qsets = l;
        size = if ltb dev.size f_pos then f_pos % 2 ^ 32 else dev.size;
      };
      memory = m;
      f_pos = f_pos;
      user = c.user;
      reply = count n;
    })
    else leave c (record dev { qsets = l }) m (error efault)

-- `if (!dptr->data[s_pos])`: a new quantum is not cleared
unfoldable pub write_quantum :
    Call → ℤ → Dev → Memory → ℕ → List Quantum → Place → ℕ → Quantum → Run Outcome
write_quantum c quantum dev m s qs p n (some block) =
    write_block c dev m p.item qs s block p.q_pos (clip quantum p.q_pos n)
write_quantum c quantum dev m s qs p n none =
    let (block, m') = kmalloc c.kernel (bits32 quantum) m in
    elim block [
      | none ↦ leave c dev m' (error enomem)
      | some f ↦
          write_block c dev m' p.item qs s (tabulate f 0 (bits32 quantum)) p.q_pos
            (clip quantum p.q_pos n)
    ]

unfoldable pub write_quanta : Call → ℤ → Dev → Memory → List Quantum → Place → ℕ → Run Outcome
write_quanta c quantum dev m qs p n = elim p.s_pos [
  | negsuc _ ↦ crash
  | pos s ↦ elim (get_elem? qs s) [
    | none ↦ crash
    | some b ↦ write_quantum c quantum dev m s qs p n b
  ]
]

-- the bytes of an array of `qset` pointers
abbrev pub array_size : ℤ → ℕ
unfolding bits32
array_size qset = bits32 qset * 4 % 2 ^ 32

-- `if (!dptr->data)`: a new array is cleared
unfoldable pub write_item : Call → ℤ → ℤ → Dev → Memory → Option Qset → Place → Run Outcome
write_item c quantum qset dev m none p = leave c dev m (error enomem)
write_item c quantum qset dev m (some q) p = elim q.quanta [
  | some qs ↦ write_quanta c quantum dev m qs p c.n
  | none ↦
      let (block, m') = kmalloc c.kernel (array_size qset) m in
      let qs : List Quantum = replicate (array_size qset / 4) none in
      let l = set dev.qsets p.item (record { quanta = some qs }) in
      elim block [
        | none ↦ leave c dev m' (error enomem)
        | some _ ↦ write_quanta c quantum (record dev { qsets = l }) m' qs p c.n
      ]
]

-- `scull_write` with the semaphore held. `quantum` and `qset` were read before it was taken.
unfoldable pub write_locked : Call → ℤ → ℤ → Dev → Run Outcome
write_locked c quantum qset dev = elim (locate quantum qset c.f_pos) [
  | none ↦ crash
  | some p ↦
      let (l, found, m) = follow c.kernel dev.qsets p.item c.memory in
      write_item c quantum qset (record dev { qsets = l }) m (reached found l p.item) p
]

-- `scull_write`; `interrupted` is the result of `down_interruptible`
unfoldable pub write : Call → Bool → Dev → Run Outcome
write c true dev = leave c dev c.memory (error erestartsys)
write c false dev = write_locked c dev.quantum dev.qset dev
