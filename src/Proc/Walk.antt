-- ===== src/Proc/Walk.antt =====
-- 实验4/partB, 实验4/partC and 实验5: the processes that the modules list.
use Prim.Native.Char.{code}
use Prim.Native.String.{String}
use linux_kernel_experiment.Prelude.{
  ℕ, zero, suc, ◌+◌, Option, none, some, List, [], ◌∷◌, ◌++◌, ℤ, pos, eqb_ℤ, get_elem?, length, leb,
  if◌then◌else◌,
}
use linux_kernel_experiment.Kernel.{Run, done, crash}
use linux_kernel_experiment.Proc.Value.{Format, print_page, newline}

-- the bytes of an ASCII text
abbrev pub codes : String → List ℕ
codes String.[] = []
codes (String.◌∷◌ c s) = code c ∷ codes s

-- of `struct task_struct`: the parent is the index of another task
pub record Task : Type 0 where
  pub pid : ℤ
  pub comm : List ℕ
  pub parent : ℕ

-- `MYDATA_LEN`
abbrev pub value_size : ℕ
value_size = 8200

-- `sprintf(value, "%s...", value, ...)`: the text grows in the array, and has a 0 after it
abbrev pub extend : List ℕ → Run (List ℕ) → Run (List ℕ)
extend more crash = crash
extend more (done t) = if leb value_size (length t + length more) then crash else done (t ++ more)

abbrev pub blank : List ℕ
blank = b' ' ∷ []

-- `" %d %s\n"`, and `" %d %s \n"`
abbrev pub first_line : Format → Task → List ℕ
first_line f t = blank ++ f.decimal t.pid ++ blank ++ t.comm ++ newline

abbrev pub task_line : Format → Task → List ℕ
task_line f t = blank ++ f.decimal t.pid ++ blank ++ t.comm ++ blank ++ newline

abbrev pub extend_with : Format → Option Task → Run (List ℕ) → Run (List ℕ)
extend_with f none acc = crash
extend_with f (some t) acc = extend (task_line f t) acc

-- `while (task->pid != 1)`, from the task itself; `none` is a loop longer than the fuel
unfoldable pub climb : Format → ℕ → List Task → Option Task → Run (List ℕ) → Option (Run (List ℕ))
climb f fuel tasks none acc = some crash
climb f zero tasks (some t) acc = if eqb_ℤ t.pid (pos 1) then some acc else none
climb f (suc n) tasks (some t) acc =
    let up = get_elem? tasks t.parent in
    let rest = climb f n tasks up (extend_with f up acc) in
    if eqb_ℤ t.pid (pos 1) then some acc else rest

-- `for_each_process`
abbrev pub each_process : Format → List Task → Run (List ℕ) → Run (List ℕ)
each_process f [] acc = acc
each_process f (t ∷ l) acc = each_process f l (extend (task_line f t) acc)

-- the tasks by index, the current one, and the list of `for_each_process`
pub record System : Type 0 where
  pub tasks : List Task
  pub current : Task
  pub queue : List Task

-- the texts that head the two lists
abbrev pub parents_head : List ℕ
parents_head = codes "The parents process" ++ (0xef ∷ 0xbc ∷ 0x9a ∷ []) ++ newline

abbrev pub queue_head : List ℕ
queue_head = blank ++ codes "Current task_struct:" ++ blank ++ newline

-- the second half, and `sprintf(page, "%s\n", mydata.value)`
abbrev pub print_run : Format → Run (List ℕ) → Run (List ℕ × ℕ)
print_run f crash = crash
print_run f (done t) = print_page f (t ++ newline)

abbrev pub list_queue : Format → System → Option (Run (List ℕ)) → Option (Run (List ℕ × ℕ))
list_queue f s none = none
list_queue f s (some acc) = some (print_run f (each_process f s.queue (extend queue_head acc)))

-- the listing that the modules make of the tasks
unfoldable pub list_tasks : Format → ℕ → System → Option (Run (List ℕ × ℕ))
list_tasks f fuel s =
    list_queue f s
      (climb f fuel s.tasks (some s.current) (extend (first_line f s.current) (done parents_head)))
