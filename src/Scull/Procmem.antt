-- ===== src/Scull/Procmem.antt =====
-- 实验7/scull/main.c, under SCULL_DEBUG: the file scullmem, by `scull_read_procmem`, and the entries in
-- /proc. The printed lines are those of the file scullseq. What `sprintf` makes of a line is a
-- parameter, and a text that leaves the page is a crash.
use linux_kernel_experiment.Prelude.{
  ℕ, zero, suc, ◌+◌, Bool, true, false, Option, none, some, List, [], ◌∷◌, ◌++◌, pos_part, leb,
  if◌then◌else◌, length,
}
use linux_kernel_experiment.Kernel.{Run, done, crash, Reply, count, error, erestartsys}
use linux_kernel_experiment.Scull.Device.{Qset, Dev}
use linux_kernel_experiment.Scull.Debug.{Line, device_line, item_line, has, show_last}
use linux_kernel_experiment.Proc.Walk.{codes}
use linux_kernel_experiment.Proc.Entries.{Entry, remove_entry}

-- what the kernel gives: `sprintf`, the size of a page, and which `down_interruptible` is interrupted
pub record Proc : Type 0 where
  pub sprintf : Line → List ℕ
  pub page_size : ℕ
  pub interrupted : ℕ → Bool

-- `len += sprintf(buf + len, ...)`, on the text of `buf` up to `len`
abbrev pub put : Proc → Line → Run (List ℕ) → Run (List ℕ)
put c x crash = crash
put c x (done t) =
    if leb c.page_size (length t + length (c.sprintf x)) then crash else done (t ++ c.sprintf x)

abbrev pub put_lines : Proc → List Line → Run (List ℕ) → Run (List ℕ)
put_lines c [] acc = acc
put_lines c (x ∷ l) acc = put_lines c l (put c x acc)

abbrev pub put_shown : Proc → Run (List Line) → Run (List ℕ) → Run (List ℕ)
put_shown c crash acc = crash
put_shown c (done l) acc = put_lines c l acc

-- `len <= limit`, where `limit` is `count - 80`
abbrev pub below_limit : ℕ → List ℕ → Bool
below_limit n t = leb (length t + 80) n

-- `if (qs->data && !qs->next)` and its loop
abbrev pub dump_last : Proc → ℕ → Qset → List Qset → Run (List ℕ) → Run (List ℕ)
dump_last c qset q [] acc = put_shown c (show_last qset q.quanta) acc
dump_last c qset q (r ∷ l) acc = acc

-- `for (; qs && len <= limit; qs = qs->next)`
abbrev pub dump_items : Proc → ℕ → ℕ → List Qset → Run (List ℕ) → Run (List ℕ)
dump_items c n qset items crash = crash
dump_items c n qset [] (done t) = done t
dump_items c n qset (q ∷ l) (done t) =
    let rest =
      dump_items c n qset l (dump_last c qset q l (put c (item_line (has q.quanta)) (done t))) in
    if below_limit n t then rest else done t

-- the body of the loop over the devices
abbrev pub dump_device : Proc → ℕ → ℕ → Dev → List ℕ → Run (List ℕ)
dump_device c n i d t =
    dump_items c n (pos_part d.qset) d.qsets
      (put c (device_line i d.qset d.quantum d.size) (done t))

-- the loop from device number `i`; the second result is a wait that was interrupted
unfoldable pub dump_devices : Proc → ℕ → ℕ → ℕ → List Dev → Run (List ℕ) → Run (List ℕ × Bool)
dump_devices c n k i ds crash = crash
dump_devices c n zero i ds (done t) = done (t, false)
dump_devices c n (suc k) i [] (done t) = if below_limit n t then crash else done (t, false)
dump_devices c n (suc k) i (d ∷ ds) (done t) =
    let rest = dump_devices c n k (suc i) ds (dump_device c n i d t) in
    if below_limit n t then (if c.interrupted i then done (t, true) else rest) else done (t, false)

-- `*eof`, where it is set, and the result
abbrev pub dumped : Run (List ℕ × Bool) → Run (List ℕ × Option Bool × Reply)
dumped crash = crash
dumped (done (t, true)) = done (t, none, error erestartsys)
dumped (done (t, false)) = done (t, some true, count (length t))

-- `scull_read_procmem` with the count `n`, on the first `k` devices
unfoldable pub read_procmem : Proc → ℕ → ℕ → List Dev → Run (List ℕ × Option Bool × Reply)
read_procmem c n k devices = dumped (dump_devices c n k 0 devices (done []))

-- the two entries
abbrev pub mem_entry : Entry
mem_entry = record { dir = none; name = codes "scullmem" }

abbrev pub seq_entry : Entry
seq_entry = record { dir = none; name = codes "scullseq" }

-- an entry that the kernel may refuse
abbrev pub make_entry : Bool → Entry → List Entry → List Entry
make_entry false e l = l
make_entry true e l = e ∷ l

-- `scull_create_proc`: what the kernel grants
abbrev pub create_proc : (made_mem made_seq : Bool) → List Entry → List Entry
create_proc made_mem made_seq l = make_entry made_seq seq_entry (make_entry made_mem mem_entry l)

-- `scull_remove_proc`
abbrev pub remove_proc : List Entry → List Entry
remove_proc l = remove_entry seq_entry (remove_entry mem_entry l)
