-- ===== src/Module/Growth.antt =====
-- 实验7/scull: what `scull_init_module` and `scull_p_init` take, step by step.
use linux_kernel_experiment.Prelude.{
  ℕ, zero, suc, ◌+◌, ◌*◌, ◌^◌, ◌<◌, ◌≡◌, refl, ap, ◌∙◌, pos, ◌%◌, ◌⊎◌, inl, inr, Option, none, some,
  arith, lt→leb, Option-cases,
}
use linux_kernel_experiment.Kernel.{done, Errno}
use linux_kernel_experiment.Scull.Device.{Params, empty_dev}
use linux_kernel_experiment.Scull.Shape.{IsValid, blocks}
use linux_kernel_experiment.Chrdev.{
  Host, Ledger, Span, add_each, add_cdev, request, enter, unregister_chrdev_region,
}
use linux_kernel_experiment.Chrdev.Tally.{one, tally, used, tally-remove, add_each-Added}
use linux_kernel_experiment.Module.Pipes.{Pipes, empty_pipe, fill_pipes, p_init_with, p_init}
use linux_kernel_experiment.Module.Start.{Config, numbers, claim, claim_any, claim_given}
use linux_kernel_experiment.Module.Stop.{
  IsFull, AreSound, in_array, none_of, device_blocks, pipe_blocks,
}

-- what is registered and in use more
pub record More (l l' : Ledger) (regions cdevs : Span → ℕ) (n : ℕ) : Type 0 where
  pub more : (k : Span) → tally k l'.regions ≡ tally k l.regions + regions k
  pub added : (k : Span) → tally k l'.cdevs ≡ tally k l.cdevs + cdevs k
  pub memory : l'.memory.granted + l.memory.freed ≡ l.memory.granted + l'.memory.freed + n

module _ {l l' l'' : Ledger} {r c r' c' r'' c'' : Span → ℕ} {n n' n'' : ℕ} where
  pub More-trans :
      More l l' r c n
      → More l' l'' r' c' n'
      → ((k : Span) → r'' k ≡ r k + r' k)
      → ((k : Span) → c'' k ≡ c k + c' k)
      → n'' ≡ n + n'
      → More l l'' r'' c'' n''
  More-trans a b er ec en = record {
    more = λ k. omega (arith, a.more k, b.more k, er k);
    added = λ k. omega (arith, a.added k, b.added k, ec k);
    memory = omega (arith, a.memory, b.memory);
  }

-- a block more, where there is one
abbrev pub a_block : Option (ℕ → ℕ) → ℕ
a_block b = in_array (λ f. 1) b

pub request-More :
    (h : Host) (size : ℕ) (l : Ledger)
    → More l (request h size l).1 none_of none_of (a_block (request h size l).0)
request-More h size l = elim (Option-cases (h.kernel.kmalloc l.memory.requests size)) [
  | inl null ↦
      rw null record { more = λ k. omega arith; added = λ k. omega arith; memory = omega arith }
  | inr (b, given) ↦
      rw given record { more = λ k. omega arith; added = λ k. omega arith; memory = omega arith }
]

pub add_each-More :
    {D : Type 0} (h : Host) (d : D) (dev : ℕ → ℕ) (n : ℕ) (l : Ledger)
    → More l (add_each h d dev 0 n l).1 none_of (λ k. used k (add_each h d dev 0 n l).0) 0
add_each-More h d dev n l =
    let a = add_each-Added h d dev 0 n l in
    record {
      more = λ k. ap (tally k) a.regions ∙ omega arith;
      added = a.cdevs;
      memory =
          ap (λ m. m.granted + l.memory.freed) a.memory ∙ omega (arith, ap (λ m. m.freed) a.memory);
    }

enter-More : (a : Span) (l : Ledger) → More l (enter a l) (λ k. one k a) none_of 0
enter-More a l = record { more = λ k. omega arith; added = λ k. omega arith; memory = omega arith }

new_pipes :
    (h : Host) (dev : ℕ → ℕ) (i n : ℕ) (l : Ledger)
    → pipe_blocks (add_each h empty_pipe dev i n l).0 ≡ 0
unfolding add_each
new_pipes h dev i zero l = refl
new_pipes h dev i (suc n) l = omega (arith, new_pipes h dev (suc i) n (add_cdev h (dev i) l).1)

module _ {q s : ℕ} (g : Params) (quantum : g.scull_quantum ≡ pos q)
    (qset : g.scull_qset ≡ pos s) where
  fresh-IsValid : IsValid q s (empty_dev g)
  fresh-IsValid = record {
    quantum = quantum;
    qset = qset;
    items = tt;
    covered = omega arith;
    limit = omega arith;
  }

  pub new_devices :
      (h : Host) (dev : ℕ → ℕ) (i n : ℕ) (l : Ledger)
      → (device_blocks (add_each h (empty_dev g) dev i n l).0 ≡ 0)
        × AreSound (some (add_each h (empty_dev g) dev i n l).0)
  unfolding add_each blocks
  new_devices h dev i zero l = (refl, tt)
  new_devices h dev i (suc n) l =
      let (none_yet, sound) = new_devices h dev (suc i) n (add_cdev h (dev i) l).1 in
      (omega (arith, none_yet), ((q, s, fresh-IsValid), sound))

-- the pipes' part, from no pipes to what there is
pub record Grown (l l' : Ledger) (n : ℕ) (p : Pipes) : Type 0 where
  pub full : IsFull n p.slots
  pub gain :
      More l l'
        (λ k. in_array (λ a. one k (record { first = p.first; count = n })) p.slots)
        (λ k. in_array (used k) p.slots)
        (in_array (λ a. pipe_blocks a + 1) p.slots)

unchanged_pipes : (l : Ledger) (n : ℕ) (p : Pipes) → p.slots ≡ none → Grown l l n p
unchanged_pipes l n p e = rw e record {
  full = tt;
  gain = record { more = λ k. omega arith; added = λ k. omega arith; memory = omega arith };
}

abbrev Fills : Host → ℕ → ℕ → Pipes → Ledger → Option (ℕ → ℕ) × Ledger → Type 0
Fills h n first p l (block, l') =
    (m : ℕ) × (p' : Pipes) × (l'' : Ledger) × (fill_pipes h n first p block l' ≡ done (m, p', l''))
    × Grown l l'' n p'

fill_pipes-Grown :
    (h : Host) (n first : ℕ) (p : Pipes) (l l' : Ledger) (block : Option (ℕ → ℕ)) (m : ℕ)
    → p.first ≡ first
    → n * h.pipe_bytes < 2 ^ 32
    → More l l' (λ k. one k (record { first = first; count = n })) none_of m
    → m ≡ a_block block
    → Fills h n first p l (block, l')
fill_pipes-Grown h n first p l l' none m e fits gain em =
    let a : Span = record { first = first; count = n } in
    (
      0,
      record p { slots = none },
      unregister_chrdev_region a l',
      refl,
      record {
        full = tt;
        gain = record {
          more = λ k. omega (arith, gain.more k, tally-remove k a l'.regions);
          added = λ k. omega (arith, gain.added k);
          memory = omega (arith, gain.memory, em);
        };
      },
    )
fill_pipes-Grown h n first p l l' (some b) m e fits gain em =
    let slots = add_each h empty_pipe (λ i. first + i) 0 n l' in
    let a = add_each-Added h empty_pipe (λ i. first + i) 0 n l' in
    let fresh = new_pipes h (λ i. first + i) 0 n l' in
    (
      n,
      record p { slots = some slots.0 },
      slots.1,
      rw (lt→leb (2 ^ 32) (n * h.pipe_bytes) fits) refl,
      record {
        full = a.length_slots;
        gain =
            More-trans gain (add_each-More h empty_pipe (λ i. first + i) n l')
              (λ k. ap (λ f. one k (record { first = f; count = n })) e ∙ omega arith)
              (λ k. omega arith) (omega (arith, fresh, em));
      },
    )

pub p_init-Grown :
    (h : Host) (n first : ℕ) (p : Pipes) (l : Ledger)
    → p.slots ≡ none
    → n * h.pipe_bytes < 2 ^ 32
    → (m : ℕ) × (p' : Pipes) × (l' : Ledger) × (p_init h n first p l ≡ done (m, p', l'))
      × Grown l l' n p'
unfolding p_init
p_init-Grown h n first p l e fits =
    let a : Span = record { first = first; count = n } in
    elim (Option-cases (h.register_chrdev_region l a)) [
      | inr (r, refused) ↦
          (0, p, l, ap (λ o. p_init_with h n first p o l) refused, unchanged_pipes l n p e)
      | inl registered ↦
          let r = request h (n * h.pipe_bytes % 2 ^ 32) (enter a l) in
          let gain =
            More-trans {r'' = λ k. one k a} {c'' = none_of} (enter-More a l)
              (request-More h (n * h.pipe_bytes % 2 ^ 32) (enter a l)) (λ k. omega arith)
              (λ k. omega arith) (omega arith) in
          let (m, p', l', run, grown) =
            fill_pipes-Grown h n first (record p { first = first }) l r.1 r.0 (a_block r.0) refl
              fits gain refl in
          (m, p', l', ap (λ o. p_init_with h n first p o l) registered ∙ run, grown)
    ]

abbrev pub Claims : Host → Config → Ledger → ℕ × Option Errno × Ledger → Type 0
Claims h c l r =
    ((major : ℕ) × (e : Errno) × (r ≡ (major, some e, l)))
    ⊎ ((major : ℕ) × (l' : Ledger) × (r ≡ (major, none, l'))
        × More l l' (λ k. one k (numbers h c major)) none_of 0)

claim_any-Claims :
    (h : Host) (c : Config) (l : Ledger) (r : Errno ⊎ ℕ)
    → h.alloc_chrdev_region l c.minor c.devs ≡ r
    → Claims h c l (claim_any h c l r)
claim_any-Claims h c l (inl e) eq = inl (h.major_of 0, e, refl)
claim_any-Claims h c l (inr dev) eq =
    let a : Span = record { first = dev; count = c.devs } in
    inr (
      h.major_of dev,
      enter a l,
      refl,
      record {
        more = λ k. omega (
          arith,
          ap (λ d. one k (record { first = d; count = c.devs }))
              (h.mkdev-major_of l c.minor c.devs dev eq),
        );
        added = λ k. omega arith;
        memory = omega arith;
      },
    )

claim_given-Claims :
    (h : Host) (c : Config) (major : ℕ) (l : Ledger) (r : Option Errno)
    → Claims h c l (claim_given h c major l r)
claim_given-Claims h c major l (some e) = inl (major, e, refl)
claim_given-Claims h c major l none =
    inr (major, enter (numbers h c major) l, refl, enter-More (numbers h c major) l)

pub claim-Claims :
    (h : Host) (c : Config) (major : ℕ) (l : Ledger) → Claims h c l (claim h c major l)
unfolding claim
claim-Claims h c zero l = claim_any-Claims h c l (h.alloc_chrdev_region l c.minor c.devs) refl
claim-Claims h c (suc m) l =
    claim_given-Claims h c (suc m) l (h.register_chrdev_region l (numbers h c (suc m)))
