-- ===== src/Pipe/Listing.antt =====
-- 实验7/scull/pipe.c, under SCULL_DEBUG: the file scullpipe in /proc, by `scull_read_p_mem`. What
-- `sprintf` makes of a line is a parameter; a text that leaves the page is a crash.
use linux_kernel_experiment.Prelude.{
  ℕ, zero, suc, ◌+◌, ◌-◌, Bool, true, false, Option, none, some, List, [], ◌∷◌, ◌++◌, ℤ, leb, ◌==◌,
  if◌then◌else◌, length,
}
use linux_kernel_experiment.Kernel.{Run, done, crash, Reply, count, error, erestartsys}
use linux_kernel_experiment.Pipe.Ring.{Pipe}

-- the printed lines; an address is that of a device, by its number, or an offset into its buffer
pub data Line : Type 0 where
  default_line : ℤ → Line
  device_line : ℕ → Line
  -- device, end and size
  buffer_line : ℕ → ℤ → ℤ → Line
  -- device, `rp` and `wp`
  pointers_line : ℕ → ℕ → ℕ → Line
  -- readers and writers
  counts_line : ℤ → ℤ → Line

-- what the kernel gives: `sprintf`, the size of a page, and which `down_interruptible` is interrupted
pub record Proc : Type 0 where
  pub sprintf : Line → List ℕ
  pub page_size : ℕ
  pub interrupted : ℕ → Bool

-- `buf` up to `len`, the distance of `*start` from `buf`, and `*offset`
pub record Window : Type 0 where
  pub bytes : List ℕ
  pub start : ℕ
  pub offset : ℕ

-- `scullp_proc_offset`
abbrev pub proc_offset : Window → Window
proc_offset w =
    if w.offset == 0
    then w
    else if leb (length w.bytes) w.offset
    then record w { bytes = []; offset = w.offset - length w.bytes }
    else record w { start = w.offset; offset = 0 }

-- `len += sprintf(buf + len, ...)`
abbrev pub put : Proc → List ℕ → Window → Run Window
put c t w =
    if leb c.page_size (length w.bytes + length t)
    then crash
    else done (record w { bytes = w.bytes ++ t })

-- the four lines of a device
abbrev pub pipe_text : Proc → ℕ → Pipe → List ℕ
pipe_text c i p =
    c.sprintf (device_line i)
    ++ c.sprintf (buffer_line i p.end_at p.buffersize)
    ++ c.sprintf (pointers_line i p.rp p.wp)
    ++ c.sprintf (counts_line p.nreaders p.nwriters)

abbrev pub moved : Run Window → Run Window
moved crash = crash
moved (done w) = done (proc_offset w)

-- `len <= LIMIT`
abbrev pub below_limit : Proc → Window → Bool
below_limit c w = leb (length w.bytes + 200) c.page_size

-- the loop over the devices from number `i`; the second result is a wait that was interrupted
unfoldable pub show_pipes : Proc → ℕ → ℕ → List Pipe → Run Window → Run (Window × Bool)
show_pipes c n i ps crash = crash
show_pipes c zero i ps (done w) = done (w, false)
show_pipes c (suc n) i [] (done w) = if below_limit c w then crash else done (w, false)
show_pipes c (suc n) i (p ∷ ps) (done w) =
    let rest = show_pipes c n (suc i) ps (moved (put c (pipe_text c i p) w)) in
    if below_limit c w then (if c.interrupted i then done (w, true) else rest) else done (w, false)

-- `*eof`, where it is set, and the result
abbrev pub shown_pipes : Proc → Run (Window × Bool) → Run (Window × Option Bool × Reply)
shown_pipes c crash = crash
shown_pipes c (done (w, true)) = done (w, none, error erestartsys)
shown_pipes c (done (w, false)) = done (w, some (below_limit c w), count (length w.bytes))

-- `scull_read_p_mem` on the first `n` devices
unfoldable pub read_p_mem : Proc → ℤ → ℕ → List Pipe → ℕ → Run (Window × Option Bool × Reply)
read_p_mem c size n pipes offset = shown_pipes c (
    show_pipes c n 0 pipes
      (put c (c.sprintf (default_line size)) (record { bytes = []; start = 0; offset = offset })))
