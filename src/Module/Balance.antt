-- ===== src/Module/Balance.antt =====
-- 实验7/scull: the module owns what it has registered and allocated, from its start to its end.
use linux_kernel_experiment.Prelude.{
  ℕ, ◌+◌, ◌*◌, ◌^◌, ◌<◌, ◌≡◌, refl, ap, sym, subst, pos, ◌%◌, inl, inr, Option, none, some, arith,
  lt→leb,
}
use linux_kernel_experiment.Kernel.{Run, done, Errno, Reply, count, error, enomem}
use linux_kernel_experiment.Scull.Device.{Params, empty_dev}
use linux_kernel_experiment.Chrdev.{Host, Ledger, Span, add_each, request}
use linux_kernel_experiment.Chrdev.Tally.{one, tally, used, add_each-Added}
use linux_kernel_experiment.Module.Start.{
  Config, Module, numbers, cleanup, fill, failed, started, init_with, init,
}
use linux_kernel_experiment.Module.Stop.{
  IsFull, AreSound, in_array, none_of, pipe_blocks, own_regions, own_cdevs, own_blocks,
  cleanup-Less,
}
use linux_kernel_experiment.Module.Growth.{
  More, a_block, request-More, add_each-More, new_devices, p_init-Grown, claim-Claims, More-trans,
}

-- The same regions and devices are registered, each as often, and as many blocks are in use.
pub record Balanced (l l' : Ledger) : Type 0 where
  pub regions : (k : Span) → tally k l'.regions ≡ tally k l.regions
  pub cdevs : (k : Span) → tally k l'.cdevs ≡ tally k l.cdevs
  pub memory : l'.memory.granted + l.memory.freed ≡ l.memory.granted + l'.memory.freed

-- What is registered and in use is what was in `l`, and what the module's variables own.
pub record Holds (l : Ledger) (h : Host) (c : Config) (s : Module) : Type 0 where
  pub regions : (k : Span) → tally k s.ledger.regions ≡ tally k l.regions + own_regions h c s k
  pub cdevs : (k : Span) → tally k s.ledger.cdevs ≡ tally k l.cdevs + own_cdevs s k
  pub memory :
      s.ledger.memory.granted + l.memory.freed
      ≡ l.memory.granted + s.ledger.memory.freed + own_blocks s
  pub full : IsFull c.devs s.devices
  pub sound : AreSound s.devices
  pub full_pipes : IsFull c.pipes s.pipes.slots

-- If the module holds what its variables own, with valid devices, the cleanup runs to its end, and then
-- nothing that the module took is registered or in use any more, and everything else still is.
pub cleanup-Balanced :
    (l : Ledger) (h : Host) (c : Config) (g : Params) (s : Module)
    → Holds l h c s
    → (t : Module) × (cleanup h c g s ≡ done t) × Balanced l t.ledger
cleanup-Balanced l h c g s o =
    let (t, run, less) = cleanup-Less h c g s o.full o.sound o.full_pipes in
    (
      t,
      run,
      record {
        regions = λ k. omega (arith, o.regions k, less.fewer k);
        cdevs = λ k. omega (arith, o.cdevs k, less.deleted k);
        memory = omega (arith, o.memory, less.granted, less.freed);
      },
    )

-- How a start ends: the module holds what it took, or an error leaves nothing behind.
pub data Ends (l : Ledger) (h : Host) (c : Config) (r : Run (Reply × Module)) : Type 0 where
  up : (s : Module) → r ≡ done (count 0, s) → Holds l h c s → Ends l h c r
  refused : (e : Errno) (s : Module) → r ≡ done (error e, s) → Balanced l s.ledger → Ends l h c r

module _ (h : Host) (c : Config) (g : Params) {q n : ℕ} (quantum : g.scull_quantum ≡ pos q)
    (qset : g.scull_qset ≡ pos n) (dev_fits : c.devs * h.dev_bytes < 2 ^ 32)
    (pipe_fits : c.pipes * h.pipe_bytes < 2 ^ 32) where
  fill-Ends :
      (l : Ledger) (s : Module) (block : Option (ℕ → ℕ)) (m : ℕ)
      → s.pipes.slots ≡ none
      → More l s.ledger (λ k. one k (numbers h c s.major)) none_of m
      → m ≡ a_block block
      → Ends l h c (fill h c g s block)
  unfolding fill
  fill-Ends l s none m e gain em =
      let s1 = record s { devices = none } in
      let (t, run, b) = cleanup-Balanced l h c g s1 (record {
        regions = λ k. omega (
          arith,
          gain.more k,
          ap (in_array (λ a. one k (record { first = s.pipes.first; count = c.pipes }))) e,
        );
        cdevs = λ k. omega (arith, gain.added k, ap (in_array (used k)) e);
        memory = omega (arith, gain.memory, em, ap (in_array (λ a. pipe_blocks a + 1)) e);
        full = tt;
        sound = tt;
        full_pipes = rw e tt;
      }) in
      refused enomem t (ap failed run) b
  fill-Ends l s (some b) m e gain em =
      let dev : ℕ → ℕ = λ i. h.mkdev s.major (c.minor + i) in
      let a = add_each-Added h (empty_dev g) dev 0 c.devs s.ledger in
      let (fresh, sound) = new_devices g quantum qset h dev 0 c.devs s.ledger in
      let (slots, l1) = add_each h (empty_dev g) dev 0 c.devs s.ledger in
      let (made, p, l2, run, grown) =
        p_init-Grown h c.pipes (h.mkdev s.major (c.minor + c.devs)) s.pipes l1 e pipe_fits in
      let all =
        More-trans {r'' = own_regions h c (record s { pipes = p })}
          {c'' = own_cdevs (record s { devices = some slots; pipes = p })}
          {n'' = own_blocks (record s { devices = some slots; pipes = p })}
          (More-trans {r'' = λ k. one k (numbers h c s.major)} {c'' = λ k. used k slots} {n'' = 1}
            gain (add_each-More h (empty_dev g) dev c.devs s.ledger) (λ k. omega arith)
            (λ k. omega arith) (omega (arith, em)))
          grown.gain (λ k. refl) (λ k. refl) (omega (arith, fresh)) in
      up (record s { devices = some slots; pipes = p; ledger = l2 })
        (rw (lt→leb (2 ^ 32) (c.devs * h.dev_bytes) dev_fits)
          (ap (started (record s { devices = some slots })) run))
        (record {
          regions = all.more;
          cdevs = all.added;
          memory = omega (arith, all.memory);
          full = a.length_slots;
          sound = sound;
          full_pipes = grown.full;
        })

  -- Where the quantum and the set size are not negative, the arrays' sizes fit 32 bits and no pipe is there
  -- yet, the start of the module runs to its end, whatever the kernel grants or refuses on the way: either
  -- it returns 0 and the module holds exactly what it took, or it returns an error and nothing that it
  -- took is left.
  pub init-Ends : (s : Module) → s.pipes.slots ≡ none → Ends s.ledger h c (init h c g s)
  unfolding init
  init-Ends s e = elim (claim-Claims h c s.major s.ledger) [
    | inl (major, err, refusal) ↦
        refused err (record s { major = major }) (ap (init_with h c g s) refusal)
          (record { regions = λ k. refl; cdevs = λ k. refl; memory = refl })
    | inr (major, l', taken, gain) ↦
        let r = request h (c.devs * h.dev_bytes % 2 ^ 32) l' in
        let s1 = record s { major = major; ledger = r.1 } in
        subst (Ends s.ledger h c) (sym (ap (init_with h c g s) taken)) (
          fill-Ends s.ledger s1 r.0 (a_block r.0) e
            (More-trans gain (request-More h (c.devs * h.dev_bytes % 2 ^ 32) l') (λ k. omega arith)
              (λ k. omega arith) (omega arith))
            refl)
  ]
