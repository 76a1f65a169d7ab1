-- ===== src/Lib.antt =====
-- The drivers and modules of these kernel experiments. This library models scull, the character devices
-- of 实验7, the events of 实验6, the /proc modules of 实验4 and 实验5, the timers of 实验3, the shell of 实验2
-- and the observer of 实验1, and proves what makes them correct.
--
-- The program. 实验7/scull is one kernel module with three groups of devices, on a 32-bit kernel:
-- - the bare devices of main.c keep what is written to them in memory, as a list of quantum sets, each
--   an array of pointers to blocks of `quantum` bytes (struct scull_dev and scull_qset of scull.h);
-- - the pipe devices of pipe.c keep it in a circular buffer, and their reads and writes may sleep;
-- - the devices of access.c are bare devices whose open decides who may use them.
-- All share scull_ioctl, which changes the module's parameters: a bare device takes its quantum and set
-- size from them when it is next trimmed, a pipe its buffer size when it is next opened.
--
-- The files.
-- - Prelude and its children: lists over the native numbers, splices and slices, C's 32-bit integers.
-- - Kernel: error numbers, and what the drivers call: kmalloc, copy_from_user and copy_to_user are fields
--   of the record Kernel, with the documented laws of the two copies; every operation takes a Kernel, so
--   each may fail at any call. Memory counts the blocks granted and freed.
-- - Scull.Device: scull_trim (trim) and scull_follow (follow). Scull.Transfer: scull_read (read) and
--   scull_write (write). Scull.Seek: scull_open (open_dev) and scull_llseek (llseek). Scull.Ioctl:
--   scull_ioctl (ioctl), its commands and their encoding. Scull.Session: calls in any order, by scull_fops.
-- - Scull.Shape: a well-formed device, its bytes and its blocks. Scull.Geometry, Walk, Place, Put, Effect,
--   Store, Assign, Item, Write, Fetch: the steps of a read or a write, up to Scull.Writing and Scull.Reading;
--   Scull.Trim, Scull.Commands, Scull.Exchange and Scull.Faults are about the rest.
-- - Pipe.Files: scull_p_open, p_release and p_fasync. Pipe.Ring: scull_p_read, p_write, p_poll, spacefree and
--   scull_getwritespace.
--   Pipe.Contents is the queue of bytes in the buffer, Pipe.Shape a well-formed pipe; Pipe.Reading,
--   Fitting, Writing, Fifo, Waits, Opens and Uses are about the operations.
-- - Access.Single: scull_s_open and scull_s_release, by their atomic operations, interleaved. Access.Owner:
--   scull_u_open, scull_u_release, scull_w_open, scull_w_release; Access.Ownership and Turns are about
--   them. Access.Private: scull_c_lookfor_device and scull_c_open. Access.Start: scull_access_init and
--   scull_access_cleanup, and Access.Release about the latter.
-- - Chrdev: what the module uses of the kernel to come and go. Registration, device numbers and cdev_add
--   are fields of the record Host; a Ledger says what is registered, and Chrdev.Tally counts it.
--   Module.Start: scull_init_module (init) and scull_cleanup_module (cleanup) of 实验7/scull/main.c.
--   Module.Pipes: scull_p_init and scull_p_cleanup of pipe.c, which they call. Module.Stop, Growth and
--   Balance are about both.
-- - Fixed.Block: 实验7/main.c, a driver of the same shape with one array of 16 bytes per device: scull_open
--   (open_block), scull_read (read_bytes), scull_write (write_bytes), scull_llseek (seek_block).
--   Fixed.Bytes and Fixed.Stored are about them. Fixed.Start: its scull_init_module (start) and
--   scull_cleanup_module (stop), and Fixed.Balance about the latter.
-- - Pointed.Block and Pointed.Start: the same driver in 实验7/parta, where the data of a device is a pointer
--   that nothing sets. Pointed.Null and Pointed.Stop are about what that pointer does.
-- - Event.Queue and Event.Calls: the events that 实验6/others/exp6.c adds to the kernel: scheventNum (find),
--   myevent_open, wait, signal and close; Event.Faults: getpfcount. Event.Search, Counts, Places and
--   Requests are about them; Event.Close, Unlink, Closing and Dangling about myevent_close.
-- - Proc.Value, Proc.Entries and Proc.Walk: the value, the entries and the listing of tasks that the /proc
--   modules share; Proc.Ticks is 实验4/main.c, Proc.Tasks is 实验4/partB, 实验4/partC and 实验5/test.c.
--   Proc.Texts and Proc.Listing are about them. Proc.Snapshot is 实验4/exp4b.c, which lists the tasks once,
--   at its start, and Proc.Shown is about it. Proc.Reader is 实验4/exp4a.c, which reads the ticks.
-- - Timer.Fibonacci, Timer.Clock and Timer.Program: 实验3/mytimer.c; Timer.Elapsed is about its times.
--   Timer.Wall: 实验3/exp3a.c and exp3b.c. Timer.Interrupts: 实验3/exp3d.c, and Timer.Reports about it.
-- - Shell.Tokens: strtok and the loops around it. Shell.Line: splitCmd, getfullPath, and what main of
--   实验2/exp2.c makes of one part of a line. Shell.Loop: its loop, and PATH. Shell.Words is about strtok, and
--   Shell.Ends, Parts and Jobs about the children of a line and their pipes.
-- - Under SCULL_DEBUG: Scull.Debug, the seq_file operations of main.c; Scull.Procmem, scull_read_procmem
--   and the entries in /proc, and Scull.Room and ProcFiles about them; Pipe.Listing, scull_read_p_mem and
--   scullp_proc_offset of pipe.c, and Pipe.Window about them.
-- - Observer: sampleTime and sampleLoadAvg of 实验1/exp1_proc.c; Observer.Program: its main (observe), with
--   Observer.Output for what it prints; Observer.Clocked: main of 实验1/exp1_proc_1.c. Observer.Ends and
--   Observer.Codes are about them.
-- - Stdio: fgets and strcmp, for the user programs.
-- - Tests: evaluations, and the theorems at concrete inputs.
--
-- How the code corresponds. A struct is a record, a null pointer is `none`, a list linked by `next` is
-- a list, a pointer into a pipe's buffer is an offset. An operation takes the state and returns the
-- state after it, with the reply: a count or an error number. An access outside a block, through a
-- null pointer or a division that traps ends in `crash` or `faults`, and is never passed over. int,
-- long and size_t have 32 bits and wrap, loff_t has 64. A semaphore that is taken for a whole
-- operation makes it one step; the result of down_interruptible is an argument. A call that sleeps
-- takes the list of what it finds each time it is woken, which is whatever other calls have done; if
-- the list ends it sleeps on. The queue of events is a heap of nodes with their addresses, so that a
-- pointer may outlive its node; a call on an event is one step, and the value of `asleep` is how many
-- processes its wait queue holds. The tasks of a listing are a table, and a parent an index in it.
-- What `printf` makes of a number or a line, `sscanf`, `atoi`, the files of /proc, whether `pipe` and `fork`
-- succeed and how the timers of a process go are parameters.
--
-- Bounds. Some definitions have fuel: the search for an event needs as much as the queue has nodes,
-- the listing of ancestors as much as there are ancestors, and with less they end in `endless` or
-- `none`; the loops of strtok and of fgets get the length of their text, the loop over samples as much as the samples
-- last. The theorems on reads and writes hold for a quantum and a set size whose product, in bytes and
-- with the array's pointers, fits an int, and for writes that end below 2 GiB; those on pipes for a
-- buffer of at most 2^30 bytes. Scull.Faults says what happens with a quantum of 0.
--
-- Not modelled. The version of the events in 实验6/others/6.c, where damaged characters have joined
-- statements to comments; in the shell, the prompt and the buffers that are too small;
-- what sprintf and sscanf make of numbers and words, and words that are longer than their arrays; the
-- programs that make one system call: exp5.c of 实验5, the programs of 实验6 and the tests of 实验7. The
-- semaphores and wait queues themselves, registration and module parameters are the kernel's, as is the
-- rest of the two files of 实验6/others. The *.mod.c files are generated.
mod Prelude
pub mod Chrdev
pub mod Event
pub mod Fixed
pub mod Pointed
pub mod Kernel
pub mod Proc
pub mod Scull
pub mod Shell
pub mod Timer
pub mod Module
pub mod Stdio
pub mod Observer
pub mod Pipe
pub mod Access
mod Tests
