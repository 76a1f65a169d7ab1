-- ===== src/Scull/Ioctl.antt =====
-- 实验7/scull/scull.h and main.c: the `ioctl` commands and `scull_ioctl`.
use linux_kernel_experiment.Prelude.{
  ℕ, ◌+◌, ◌*◌, ◌/◌, ◌%◌, ◌^◌, Bool, true, false, not, Option, none, some, ℤ, pos, signed32, ltb,
  ◌==◌, if◌then◌else◌, List, [], ◌∷◌,
}
use linux_kernel_experiment.Kernel.{Errno, efault, enotty, eperm}
use linux_kernel_experiment.Scull.Device.{Params}

-- `_IO` and its kin: direction, size, type and number of a command
abbrev pub encode : ℕ → ℕ → ℕ → ℕ
encode dir size nr = dir * 2 ^ 30 + size * 2 ^ 16 + b'k' * 2 ^ 8 + nr

abbrev pub ioc_type : ℕ → ℕ
ioc_type cmd = cmd / 2 ^ 8 % 2 ^ 8

abbrev pub ioc_nr : ℕ → ℕ
ioc_nr cmd = cmd % 2 ^ 8

abbrev pub ioc_size : ℕ → ℕ
ioc_size cmd = cmd / 2 ^ 16 % 2 ^ 14

abbrev pub ioc_dir : ℕ → ℕ
ioc_dir cmd = cmd / 2 ^ 30 % 2 ^ 2

-- the bits `_IOC_WRITE` and `_IOC_READ` of the direction
abbrev pub ioc_write : ℕ
ioc_write = 1

abbrev pub ioc_read : ℕ
ioc_read = 2

pub data Command : Type 0 where
  reset : Command
  set_quantum tell_quantum get_quantum query_quantum exchange_quantum shift_quantum : Command
  set_qset tell_qset get_qset query_qset exchange_qset shift_qset : Command
  tell_size query_size : Command

-- the number of each command
unfoldable pub code_of : Command → ℕ
code_of reset = encode 0 0 0
code_of set_quantum = encode ioc_write 4 1
code_of set_qset = encode ioc_write 4 2
code_of tell_quantum = encode 0 0 3
code_of tell_qset = encode 0 0 4
code_of get_quantum = encode ioc_read 4 5
code_of get_qset = encode ioc_read 4 6
code_of query_quantum = encode 0 0 7
code_of query_qset = encode 0 0 8
code_of exchange_quantum = encode (ioc_read + ioc_write) 4 9
code_of exchange_qset = encode (ioc_read + ioc_write) 4 10
code_of shift_quantum = encode 0 0 11
code_of shift_qset = encode 0 0 12
code_of tell_size = encode 0 0 13
code_of query_size = encode 0 0 14

-- `SCULL_IOC_MAXNR`
abbrev pub max_nr : ℕ
max_nr = 14

-- the labels of `switch (cmd)`, in the source's order
abbrev pub labels : List Command
labels =
    reset ∷ set_quantum ∷ tell_quantum ∷ get_quantum ∷ query_quantum ∷ exchange_quantum
    ∷ shift_quantum ∷ set_qset ∷ tell_qset ∷ get_qset ∷ query_qset ∷ exchange_qset ∷ shift_qset
    ∷ tell_size ∷ query_size ∷ []

-- the first of some labels that is `cmd`; `none` is the default
unfoldable pub select : ℕ → List Command → Option Command
unfolding code_of
select cmd [] = none
select cmd (c ∷ cs) = if cmd == code_of c then some c else select cmd cs

-- What the call finds: the verdict of `access_ok`, to write or not, on the user's range, the process's capability, what
-- `get_user` assigns and whether it succeeds, and whether `put_user` succeeds.
pub record Caller : Type 0 where
  pub access_ok : Bool → ℕ → ℕ → Bool
  pub capable : Bool
  pub get_user : ℕ → ℤ × Bool
  pub put_user : ℕ → Bool

-- an `int` result that is no error, or a negated error number
pub data Answer : Type 0 where
  value : ℤ → Answer
  failed : Errno → Answer

-- the parameters afterwards, what was stored through the user's pointer, and the result
pub record Done : Type 0 where
  pub params : Params
  pub stored : Option ℤ
  pub answer : Answer

abbrev pub reply_with : Params → Answer → Done
reply_with g a = record { params = g; stored = none; answer = a }

abbrev pub privileged : Caller → Params → Done → Done
privileged u g r = if u.capable then r else reply_with g (failed eperm)

-- which of the two variables `scull_quantum` and `scull_qset` a command is about
pub data Variable : Type 0 where
  quantum qset : Variable

abbrev pub get : Variable → Params → ℤ
get quantum g = g.scull_quantum
get qset g = g.scull_qset

abbrev pub put : Variable → ℤ → Params → Params
put quantum v g = record g { scull_quantum = v }
put qset v g = record g { scull_qset = v }

abbrev pub fetched : Bool → Answer
fetched ok = if ok then value (pos 0) else failed efault

-- `__put_user(v, arg)` as the last step
abbrev pub store_user : Caller → ℕ → Params → ℤ → Done
store_user u arg g v =
    if u.put_user arg
    then record { params = g; stored = some v; answer = value (pos 0) }
    else reply_with g (failed efault)

-- Set: `arg` points to the value
abbrev pub do_set : Caller → ℕ → Variable → Params → Done
do_set u arg x g =
    let (v, ok) = u.get_user arg in privileged u g (reply_with (put x v g) (fetched ok))

-- Tell: `arg` is the value
abbrev pub do_tell : Caller → ℕ → Variable → Params → Done
do_tell u arg x g = privileged u g (reply_with (put x (signed32 (arg % 2 ^ 32)) g) (value (pos 0)))

-- Get: `arg` is pointer to result
abbrev pub do_get : Caller → ℕ → Variable → Params → Done
do_get u arg x g = store_user u arg g (get x g)

-- Query: return it
abbrev pub do_query : Variable → Params → Done
do_query x g = reply_with g (value (get x g))

-- eXchange: use `arg` as pointer
abbrev pub do_exchange : Caller → ℕ → Variable → Params → Done
do_exchange u arg x g =
    let (v, ok) = u.get_user arg in
    privileged u g (
      if ok then store_user u arg (put x v g) (get x g) else reply_with (put x v g) (failed efault))

-- sHift: like Tell + Query
abbrev pub do_shift : Caller → ℕ → Variable → Params → Done
do_shift u arg x g =
    privileged u g (reply_with (put x (signed32 (arg % 2 ^ 32)) g) (value (get x g)))

-- `SCULL_QUANTUM` and `SCULL_QSET`
abbrev pub defaults : Params → Params
defaults g = record g { scull_quantum = pos 4000; scull_qset = pos 1000 }

-- the body of the `switch`
unfoldable pub perform : Caller → ℕ → Command → Params → Done
perform u arg reset g = reply_with (defaults g) (value (pos 0))
perform u arg set_quantum g = do_set u arg quantum g
perform u arg tell_quantum g = do_tell u arg quantum g
perform u arg get_quantum g = do_get u arg quantum g
perform u arg query_quantum g = do_query quantum g
perform u arg exchange_quantum g = do_exchange u arg quantum g
perform u arg shift_quantum g = do_shift u arg quantum g
perform u arg set_qset g = do_set u arg qset g
perform u arg tell_qset g = do_tell u arg qset g
perform u arg get_qset g = do_get u arg qset g
perform u arg query_qset g = do_query qset g
perform u arg exchange_qset g = do_exchange u arg qset g
perform u arg shift_qset g = do_shift u arg qset g
perform u arg tell_size g =
    reply_with (record g { scull_p_buffer = signed32 (arg % 2 ^ 32) }) (value (pos 0))
perform u arg query_size g = reply_with g (value g.scull_p_buffer)

-- `err`: a range is checked if the command transfers data either way
abbrev pub refused_range : Caller → ℕ → ℕ → Bool
refused_range u cmd arg =
    if ioc_dir cmd / 2 == 1
    then not (u.access_ok true arg (ioc_size cmd))
    else if ioc_dir cmd % 2 == 1
    then not (u.access_ok false arg (ioc_size cmd))
    else false

-- `scull_ioctl`
unfoldable pub ioctl : Caller → ℕ → ℕ → Params → Done
ioctl u cmd arg g =
    if not (ioc_type cmd == b'k')
    then reply_with g (failed enotty)
    else if ltb max_nr (ioc_nr cmd)
    then reply_with g (failed enotty)
    else if refused_range u cmd arg
    then reply_with g (failed efault)
    else elim (select cmd labels) [
      | none ↦ reply_with g (failed enotty)
      | some c ↦ perform u arg c g
    ]
