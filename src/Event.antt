-- ===== src/Event.antt =====
-- 实验6/others/exp6.c, lines 1213 to 1374: the events that were added to fault.c as system calls.
pub mod Queue
pub mod Calls
pub mod Search
pub mod Counts
pub mod Places
pub mod Requests
pub mod Faults
pub mod Close
pub mod Unlink
pub mod Closing
pub mod Dangling
