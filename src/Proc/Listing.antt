-- ===== src/Proc/Listing.antt =====
-- 实验4 and 实验5: the listing ends, and shows the ancestors and the queue in order.
use linux_kernel_experiment.Prelude.{
  ℕ, zero, suc, ◌+◌, ◌≡◌, ◌≤◌, ◌<◌, refl, ap, sym, ◌∙◌, true, false, some, List, [], ◌∷◌, ◌++◌, pos,
  eqb_ℤ, get_elem?, length, arith, length-append, append_assoc, append_nil, lt→leb,
}
use linux_kernel_experiment.Kernel.{Run, done}
use linux_kernel_experiment.Proc.Value.{Format, newline}
use linux_kernel_experiment.Proc.Walk.{
  Task, System, value_size, extend, first_line, task_line, climb, each_process, parents_head,
  queue_head, print_run, list_queue, list_tasks,
}

-- the ancestors of `t`, from its parent to the task number 1
abbrev pub IsLine : List Task → Task → List Task → Type 0
IsLine tasks t [] = eqb_ℤ t.pid (pos 1) ≡ true
IsLine tasks t (u ∷ l) =
    (eqb_ℤ t.pid (pos 1) ≡ false) × (get_elem? tasks t.parent ≡ some u) × IsLine tasks u l

pub climb-each_process :
    (f : Format) (fuel : ℕ) (tasks : List Task) (t : Task) (l : List Task) (acc : Run (List ℕ))
    → IsLine tasks t l
    → length l ≤ fuel
    → climb f fuel tasks (some t) acc ≡ some (each_process f l acc)
unfolding climb
climb-each_process f zero tasks t [] acc h e = rw h refl
climb-each_process f (suc n) tasks t [] acc h e = rw h refl
climb-each_process f zero tasks t (u ∷ l) acc h e = absurd (omega arith)
climb-each_process f (suc n) tasks t (u ∷ l) acc h e =
    let (young, up, rest) = h in
    rw (young, up)
      (climb-each_process f n tasks u l (extend (task_line f u) acc) rest (omega arith))

-- the lines of the tasks
abbrev pub lines : Format → List Task → List ℕ
lines f [] = []
lines f (t ∷ l) = task_line f t ++ lines f l

extend_fits :
    (more t : List ℕ)
    → length t + length more < value_size
    → extend more (done t) ≡ done (t ++ more)
extend_fits more t h = rw (lt→leb value_size (length t + length more) h) refl

each_process-lines :
    (f : Format) (l : List Task) (t : List ℕ)
    → length t + length (lines f l) < value_size
    → each_process f l (done t) ≡ done (t ++ lines f l)
each_process-lines f [] t h = ap done (sym (append_nil t))
each_process-lines f (u ∷ l) t h =
    let len = length-append (task_line f u) (lines f l) in
    let len' = length-append t (task_line f u) in
    ap (each_process f l) (extend_fits (task_line f u) t (omega (arith, len)))
    ∙ each_process-lines f l (t ++ task_line f u) (omega (arith, len, len'))
    ∙ ap done (append_assoc t (task_line f u) (lines f l))

-- the two lists, each after its head
pub both_lists :
    (f : Format) (head first second t : List ℕ) (l queue : List Task)
    → (((head ++ first) ++ lines f l) ++ second) ++ lines f queue ≡ t
    → length t < value_size
    → each_process f queue (extend second (each_process f l (extend first (done head)))) ≡ done t
both_lists f head first second t l queue e h =
    let n1 = length-append head first in
    let n2 = length-append (head ++ first) (lines f l) in
    let n3 = length-append ((head ++ first) ++ lines f l) second in
    let n4 = length-append (((head ++ first) ++ lines f l) ++ second) (lines f queue) in
    let n = ap length e in
    ap (λ r. each_process f queue (extend second (each_process f l r)))
      (extend_fits first head (omega arith))
    ∙ ap (λ r. each_process f queue (extend second r))
        (each_process-lines f l (head ++ first) (omega arith))
    ∙ ap (each_process f queue) (extend_fits second ((head ++ first) ++ lines f l) (omega arith))
    ∙ each_process-lines f queue (((head ++ first) ++ lines f l) ++ second) (omega arith)
    ∙ ap done e

print_fits :
    (f : Format) (t : List ℕ)
    → length t + 1 < f.page_size
    → print_run f (done t) ≡ done (t ++ newline, length t + 1)
print_fits f t h =
    let n = length-append t newline in
    rw (lt→leb f.page_size (length (t ++ newline)) (omega arith))
      (ap (λ m. done (t ++ newline, m)) n)

-- all that is shown
abbrev pub listing : Format → System → List Task → List ℕ
listing f s l =
    (((parents_head ++ first_line f s.current) ++ lines f l) ++ queue_head) ++ lines f s.queue

-- Where the current task has ancestors up to the task number 1, no more than the fuel, and all that
-- is shown fits the array and the page, the read ends and gives the head, the current task, its
-- ancestors in order, the second head and the tasks of the queue in order.
pub list_tasks-listing :
    (f : Format) (fuel : ℕ) (s : System) (l : List Task)
    → IsLine s.tasks s.current l
    → length l ≤ fuel
    → length (listing f s l) < value_size
    → length (listing f s l) + 1 < f.page_size
    → list_tasks f fuel s ≡ some (done (listing f s l ++ newline, length (listing f s l) + 1))
unfolding list_tasks
list_tasks-listing f fuel s l line enough fits page =
    ap (list_queue f s) (
      climb-each_process f fuel s.tasks s.current l
        (extend (first_line f s.current) (done parents_head)) line enough)
    ∙ ap (λ r. some (print_run f r))
        (both_lists f parents_head (first_line f s.current) queue_head (listing f s l) l s.queue
          refl fits)
    ∙ ap some (print_fits f (listing f s l) page)
