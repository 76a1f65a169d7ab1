-- ===== src/Proc/Shown.antt =====
-- 实验4/exp4b.c: a read after the start shows the processes that there were at the start.
use linux_kernel_experiment.Prelude.{
  ℕ, ◌≡◌, ◌≤◌, ◌<◌, refl, ap, ◌∙◌, true, some, List, [], ◌∷◌, ◌++◌, ℤ, All, length, splice, arith,
  lt→leb, ne→==,
}
use linux_kernel_experiment.Kernel.{done, count}
use linux_kernel_experiment.Proc.Value.{Format, text, print_with, read_value, newline}
use linux_kernel_experiment.Proc.Entries.{init_entries}
use linux_kernel_experiment.Proc.Walk.{Task, System, value_size, extend, first_line}
use linux_kernel_experiment.Proc.Listing.{IsLine, lines, climb-each_process, both_lists}
use linux_kernel_experiment.Proc.Texts.{IsByte}
use linux_kernel_experiment.Proc.Snapshot.{
  ancestors_head, tasks_head, add_queue, take_snapshot, Module, start_with, init_snapshot,
  read_snapshot, snapshot_names,
}

-- all that is listed
abbrev pub snapshot : Format → System → List Task → List ℕ
snapshot f s l =
    (((ancestors_head ++ first_line f s.current) ++ lines f l) ++ tasks_head) ++ lines f s.queue

take_snapshot_lem :
    (f : Format) (fuel : ℕ) (s : System) (l : List Task)
    → IsLine s.tasks s.current l
    → length l ≤ fuel
    → length (snapshot f s l) < value_size
    → take_snapshot f fuel s ≡ some (done (snapshot f s l))
unfolding take_snapshot
take_snapshot_lem f fuel s l line enough fits =
    ap (add_queue f s) (
      climb-each_process f fuel s.tasks s.current l
        (extend (first_line f s.current) (done ancestors_head)) line enough)
    ∙ ap some (
        both_lists f ancestors_head (first_line f s.current) tasks_head (snapshot f s l) l s.queue
          refl fits)

-- a text with a 0 after it, stored at the front of an array
pub text-splice :
    (t value : List ℕ)
    → All IsByte t
    → length t < length value
    → text (splice value 0 (t ++ 0 ∷ [])) ≡ some t
text-splice [] [] h e = absurd (omega arith)
text-splice [] (v ∷ value) h e = refl
text-splice (b ∷ t) [] h e = absurd (omega arith)
text-splice (b ∷ t) (v ∷ value) h e = rw (ne→== b 0 h.0, text-splice t value h.1 (omega arith)) refl

pub print_fits :
    (f : Format) (j : ℤ) (t : List ℕ)
    → length (t ++ f.decimal j ++ newline) < f.page_size
    → print_with f j (some t)
      ≡ done (t ++ f.decimal j ++ newline, length (t ++ f.decimal j ++ newline))
print_fits f j t h = rw (lt→leb f.page_size (length (t ++ f.decimal j ++ newline)) h) refl

-- Where both entries are granted, the current task has ancestors up to the task number 1, no more than
-- the fuel, the listing has no 0 and fits the array, and it fits a page together with the number of
-- ticks: the start returns 0, and a read then gives the head, the current task, its ancestors in
-- order, the second head, the tasks of the queue in order, and the ticks.
pub read_snapshot-init_snapshot :
    (f : Format) (fuel : ℕ) (s : System) (l : List Task) (m : Module) (j : ℤ)
    → IsLine s.tasks s.current l
    → length l ≤ fuel
    → length m.value ≡ value_size
    → length (snapshot f s l) < value_size
    → All IsByte (snapshot f s l)
    → length (snapshot f s l ++ f.decimal j ++ newline) < f.page_size
    → (m' : Module) × (init_snapshot f fuel s true true m ≡ some (done (count 0, m')))
      × (read_snapshot f j m'
          ≡ done (
            snapshot f s l ++ f.decimal j ++ newline,
            length (snapshot f s l ++ f.decimal j ++ newline),
          ))
unfolding read_value
read_snapshot-init_snapshot f fuel s l m j line enough whole fits bytes page =
    let (reply, entries) = init_entries snapshot_names true true m.entries in
    (
      record { entries = entries; value = splice m.value 0 (snapshot f s l ++ 0 ∷ []) },
      ap (start_with m entries reply) (take_snapshot_lem f fuel s l line enough fits),
      ap (print_with f j) (text-splice (snapshot f s l) m.value bytes (omega (arith, whole)))
          ∙ print_fits f j (snapshot f s l) page,
    )
