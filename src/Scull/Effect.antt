-- ===== src/Scull/Effect.antt =====
-- 实验7/scull/main.c: what a call of `scull_write` does to the device, in terms of its bytes.
use linux_kernel_experiment.Prelude.{
  ℕ, ◌+◌, ◌-◌, ◌*◌, ◌<◌, ◌≤◌, ◌≡◌, ◌⊎◌, none, subst, ◌∙◌, arith, ltb, if◌then◌else◌, All, length,
  get_elem?,
}
use linux_kernel_experiment.Kernel.{Memory, count, error, efault, enomem}
use linux_kernel_experiment.Scull.Device.{Qset, Dev}
use linux_kernel_experiment.Scull.Transfer.{Call, Outcome}
use linux_kernel_experiment.Scull.Geometry.{q_of}
use linux_kernel_experiment.Scull.Shape.{IsItem, byte_at, blocks}
use mathlib.Core.List.{List}

-- how many of the `n` bytes from position `p` on lie in one quantum
abbrev pub span : ℕ → ℕ → ℕ → ℕ → ℕ
span q s p n = if ltb (q - q_of q s p) n then q - q_of q s p else n

module _ (q s : ℕ) where
  -- Outside `[p, p + n)` every byte that `l` holds is in `l'` too.
  abbrev pub Keeps : ℕ → ℕ → List Qset → List Qset → Type 0
  Keeps p n l l' =
      (p' : ℕ)
      → (p' < p) ⊎ (p + n ≤ p')
      → (byte_at q s l' p' ≡ byte_at q s l p') ⊎ (byte_at q s l p' ≡ none)

  abbrev pub Same : List Qset → List Qset → Type 0
  Same l l' = (p' : ℕ) → byte_at q s l' p' ≡ byte_at q s l p'

  -- The bytes were stored, user memory could not be read, or there was no memory.
  pub data Result (c : Call) (d : Dev) (out : Outcome) : Type 0 where
    stored :
        (n : ℕ)
        → n ≡ span q s c.f_pos c.n
        → out.reply ≡ count n
        → out.f_pos ≡ c.f_pos + n
        → out.dev.size ≡ (if ltb d.size (c.f_pos + n) then c.f_pos + n else d.size)
        → out.dev.size ≤ length out.dev.qsets * (q * s)
        → ((i : ℕ) → i < n → byte_at q s out.dev.qsets (c.f_pos + i) ≡ get_elem? c.user i)
        → Keeps c.f_pos n d.qsets out.dev.qsets
        → n ≤ length c.user
        → Result c d out
    faulted :
        out.reply ≡ error efault
        → out.f_pos ≡ c.f_pos
        → out.dev.size ≡ d.size
        → Keeps c.f_pos (span q s c.f_pos c.n) d.qsets out.dev.qsets
        → Result c d out
    refused :
        out.reply ≡ error enomem
        → out.f_pos ≡ c.f_pos
        → out.dev.size ≡ d.size
        → Same d.qsets out.dev.qsets
        → Result c d out

  pub record Effect (c : Call) (d : Dev) (m : Memory) (out : Outcome) : Type 0 where
    pub quantum : out.dev.quantum ≡ d.quantum
    pub qset : out.dev.qset ≡ d.qset
    pub items : All (IsItem q s) out.dev.qsets
    pub longer : length d.qsets ≤ length out.dev.qsets
    pub granted : out.memory.granted + blocks d.qsets ≡ m.granted + blocks out.dev.qsets
    pub freed : out.memory.freed ≡ m.freed
    pub user : out.user ≡ c.user
    pub result : Result c d out

  Keeps-before : (p n : ℕ) (l₀ l l' : List Qset) → Same l₀ l → Keeps p n l l' → Keeps p n l₀ l'
  Keeps-before p n l₀ l l' same k p' h =
      subst (λ v. (byte_at q s l' p' ≡ v) ⊎ (v ≡ none)) (same p') (k p' h)

  Result-before :
      {c : Call} {d₀ d : Dev} {out : Outcome}
      → d.size ≡ d₀.size
      → Same d₀.qsets d.qsets
      → Result c d out
      → Result c d₀ out
  Result-before e same (stored n w r f z z' b k u) =
      stored n w r f (rw (← e) z) z' b (Keeps-before _ _ _ _ _ same k) u
  Result-before e same (faulted r f z k) = faulted r f (z ∙ e) (Keeps-before _ _ _ _ _ same k)
  Result-before e same (refused r f z k) = refused r f (z ∙ e) (λ p'. k p' ∙ same p')

  -- A step before it that changes no byte, and whose blocks are in the device.
  pub Effect-before :
      {c : Call} {d₀ d : Dev} {m₀ m : Memory} {out : Outcome}
      → d.quantum ≡ d₀.quantum
      → d.qset ≡ d₀.qset
      → d.size ≡ d₀.size
      → length d₀.qsets ≤ length d.qsets
      → m.granted + blocks d₀.qsets ≡ m₀.granted + blocks d.qsets
      → m.freed ≡ m₀.freed
      → Same d₀.qsets d.qsets
      → Effect c d m out
      → Effect c d₀ m₀ out
  Effect-before eq es ez longer granted freed same f = record {
    quantum = f.quantum ∙ eq;
    qset = f.qset ∙ es;
    items = f.items;
    longer = omega arith;
    granted = omega (arith, f.granted);
    freed = f.freed ∙ freed;
    user = f.user;
    result = Result-before ez same f.result;
  }
