-- ===== src/Scull/Commands.antt =====
-- 实验7/scull/main.c: what the commands of `scull_ioctl` do to the module's parameters.
use linux_kernel_experiment.Prelude.{
  ℕ, ◌/◌, ◌≤◌, sym, ◌%◌, ◌^◌, ◌≡◌, refl, ap, ◌∙◌, true, false, not, none, some, ℤ, signed32, ltb,
  ◌==◌, arith, ◌⊎◌, inl, inr, Bool-cases, Option-cases, List, [], ◌∷◌, ==→eq,
}
use linux_kernel_experiment.Kernel.{efault, enotty}
use linux_kernel_experiment.Scull.Device.{Params}
use linux_kernel_experiment.Scull.Ioctl.{
  ioc_type, ioc_nr, Command, reset, set_quantum, tell_quantum, get_quantum, query_quantum,
  exchange_quantum, shift_quantum, set_qset, tell_qset, get_qset, query_qset, exchange_qset,
  shift_qset, tell_size, query_size, code_of, max_nr, labels, select, Caller, failed, reply_with,
  store_user, defaults, perform, refused_range, ioctl,
}

-- The `switch` tells all the commands apart.
pub select-code_of : (c : Command) → select (code_of c) labels ≡ some c
unfolding select code_of
select-code_of reset = refl
select-code_of set_quantum = refl
select-code_of tell_quantum = refl
select-code_of get_quantum = refl
select-code_of query_quantum = refl
select-code_of exchange_quantum = refl
select-code_of shift_quantum = refl
select-code_of set_qset = refl
select-code_of tell_qset = refl
select-code_of get_qset = refl
select-code_of query_qset = refl
select-code_of exchange_qset = refl
select-code_of shift_qset = refl
select-code_of tell_size = refl
select-code_of query_size = refl

-- the commands whose number passes the guards on type and number
guards_pass :
    (c : Command)
    → (not (ioc_type (code_of c) == b'k') ≡ false) × (ltb max_nr (ioc_nr (code_of c)) ≡ false)
unfolding code_of
guards_pass reset = (refl, refl)
guards_pass set_quantum = (refl, refl)
guards_pass tell_quantum = (refl, refl)
guards_pass get_quantum = (refl, refl)
guards_pass query_quantum = (refl, refl)
guards_pass exchange_quantum = (refl, refl)
guards_pass shift_quantum = (refl, refl)
guards_pass set_qset = (refl, refl)
guards_pass tell_qset = (refl, refl)
guards_pass get_qset = (refl, refl)
guards_pass query_qset = (refl, refl)
guards_pass exchange_qset = (refl, refl)
guards_pass shift_qset = (refl, refl)
guards_pass tell_size = (refl, refl)
guards_pass query_size = (refl, refl)

-- a command that passes the range check runs its case of the `switch`
pub ioctl-perform :
    (u : Caller) (arg : ℕ) (g : Params) (c : Command)
    → refused_range u (code_of c) arg ≡ false
    → ioctl u (code_of c) arg g ≡ perform u arg c g
unfolding ioctl
ioctl-perform u arg g c h =
    let (kind, number) = guards_pass c in rw (ioctl, kind, number, h, select-code_of c)

select-code_of-eq :
    (cmd : ℕ) (cs : List Command) (c : Command) → select cmd cs ≡ some c → cmd ≡ code_of c
unfolding select
select-code_of-eq cmd [] c e = ground arith
select-code_of-eq cmd (l ∷ cs) c e = elim (Bool-cases (cmd == code_of l)) [
  | inl here ↦
      let same : some l ≡ some c = rw⁻¹ e (rw (select, here)) in
      ==→eq _ _ here ∙ ap code_of (ap (λ o. elim o [ none ↦ l | some d ↦ d ]) same)
  | inr other ↦ select-code_of-eq cmd cs c (rw⁻¹ e (rw (select, other)))
]

-- a number of this driver: the type is the letter k, and the number at most 14
abbrev pub IsOwn : ℕ → Type 0
IsOwn cmd = (cmd / 256 % 256 ≡ b'k') × (cmd % 256 ≤ 14)

-- the commands are told by their numbers, and all are the driver's own
code_of-IsOwn : (c : Command) → IsOwn (code_of c)
unfolding code_of
code_of-IsOwn c =
    let (kind, number) = guards_pass c in (ground (arith, kind), ground (arith, number))

select-none : (cmd : ℕ) → select cmd labels ≡ none → ¬ ((c : Command) × (cmd ≡ code_of c))
select-none cmd e (c, same) =
    no_some c (sym (select-code_of c) ∙ ap (λ a. select a labels) (sym same) ∙ e)
  where
    no_some : (c : Command) → ¬ (some c ≡ none)
    no_some c h = ground arith

guards_own :
    (cmd : ℕ) → IsOwn cmd → (not (ioc_type cmd == b'k') ≡ false) × (ltb max_nr (ioc_nr cmd) ≡ false)
guards_own cmd (kind, number) = (ground (arith, kind), ground (arith, number))

ioctl-foreign :
    (u : Caller) (cmd arg : ℕ) (g : Params)
    → ¬ IsOwn cmd
    → ioctl u cmd arg g ≡ reply_with g (failed enotty)
unfolding ioctl
ioctl-foreign u cmd arg g h = elim (Bool-cases (not (ioc_type cmd == b'k'))) [
  | inl other ↦ rw (ioctl, other) refl
  | inr kind ↦ elim (Bool-cases (ltb max_nr (ioc_nr cmd))) [
    | inl large ↦ rw (ioctl, kind, large) refl
    | inr number ↦ absurd (h (ground (arith, kind), ground (arith, number)))
  ]
]

ioctl-accepted :
    (u : Caller) (cmd arg : ℕ) (g : Params)
    → IsOwn cmd
    → refused_range u cmd arg ≡ false
    → ((¬ ((c : Command) × (cmd ≡ code_of c))) × (ioctl u cmd arg g ≡ reply_with g (failed enotty)))
      ⊎ ((c : Command) × (cmd ≡ code_of c) × (ioctl u cmd arg g ≡ perform u arg c g))
unfolding ioctl
ioctl-accepted u cmd arg g own h =
    let (kind, number) = guards_own cmd own in
    elim (Option-cases (select cmd labels)) [
      | inl unknown ↦ inl (select-none cmd unknown, rw (ioctl, kind, number, h, unknown) refl)
      | inr (c, e) ↦ inr (c, select-code_of-eq cmd labels c e, rw (ioctl, kind, number, h, e) refl)
    ]

ioctl-refused :
    (u : Caller) (cmd arg : ℕ) (g : Params)
    → IsOwn cmd
    → refused_range u cmd arg ≡ true
    → ioctl u cmd arg g ≡ reply_with g (failed efault)
unfolding ioctl
ioctl-refused u cmd arg g own h =
    let (kind, number) = guards_own cmd own in rw (ioctl, kind, number, h) refl

IsOwn-cases : (cmd : ℕ) → IsOwn cmd ⊎ (¬ IsOwn cmd)
IsOwn-cases cmd = elim (Bool-cases (cmd / 256 % 256 == b'k')) [
  | inl kind ↦ elim (Bool-cases (ltb 14 (cmd % 256))) [
    | inl large ↦ inr (λ h. ground (arith, h.1))
    | inr number ↦ inl (ground (arith, kind), ground (arith, number))
  ]
  | inr other ↦ inr (λ h. ground (arith, h.0))
]

pub ioctl-cases :
    (u : Caller) (cmd arg : ℕ) (g : Params)
    → ((¬ IsOwn cmd) × (ioctl u cmd arg g ≡ reply_with g (failed enotty)))
      ⊎ (IsOwn cmd
          × (refused_range u cmd arg ≡ true)
          × (ioctl u cmd arg g ≡ reply_with g (failed efault)))
      ⊎ (IsOwn cmd
          × (refused_range u cmd arg ≡ false)
          × (((¬ ((c : Command) × (cmd ≡ code_of c)))
                × (ioctl u cmd arg g ≡ reply_with g (failed enotty)))
              ⊎ ((c : Command) × (cmd ≡ code_of c) × (ioctl u cmd arg g ≡ perform u arg c g))))
ioctl-cases u cmd arg g = elim (IsOwn-cases cmd) [
  | inr foreign ↦ inl (foreign, ioctl-foreign u cmd arg g foreign)
  | inl own ↦ elim (Bool-cases (refused_range u cmd arg)) [
    | inl refused ↦ inr (inl (own, refused, ioctl-refused u cmd arg g own refused))
    | inr accepted ↦ inr (inr (own, accepted, ioctl-accepted u cmd arg g own accepted))
  ]
]

stored-params : (u : Caller) (arg : ℕ) (g : Params) (v : ℤ) → (store_user u arg g v).params ≡ g
stored-params u arg g v = elim (Bool-cases (u.put_user arg)) [
  | inl stored ↦ rw stored refl
  | inr fails ↦ rw fails refl
]

-- the parameters that a caller without CAP_SYS_ADMIN can bring about
abbrev pub Unprivileged : ℕ → Params → Params → Type 0
Unprivileged arg g g' =
    (g' ≡ g) ⊎ (g' ≡ defaults g) ⊎ (g' ≡ record g { scull_p_buffer = signed32 (arg % 2 ^ 32) })

perform-Unprivileged :
    (u : Caller) (arg : ℕ) (g : Params) (c : Command)
    → u.capable ≡ false
    → Unprivileged arg g (perform u arg c g).params
unfolding perform
perform-Unprivileged u arg g reset h = inr (inl refl)
perform-Unprivileged u arg g set_quantum h = inl (rw h refl)
perform-Unprivileged u arg g tell_quantum h = inl (rw h refl)
perform-Unprivileged u arg g get_quantum h = inl (stored-params u arg g g.scull_quantum)
perform-Unprivileged u arg g query_quantum h = inl refl
perform-Unprivileged u arg g exchange_quantum h = inl (rw h refl)
perform-Unprivileged u arg g shift_quantum h = inl (rw h refl)
perform-Unprivileged u arg g set_qset h = inl (rw h refl)
perform-Unprivileged u arg g tell_qset h = inl (rw h refl)
perform-Unprivileged u arg g get_qset h = inl (stored-params u arg g g.scull_qset)
perform-Unprivileged u arg g query_qset h = inl refl
perform-Unprivileged u arg g exchange_qset h = inl (rw h refl)
perform-Unprivileged u arg g shift_qset h = inl (rw h refl)
perform-Unprivileged u arg g tell_size h = inr (inr refl)
perform-Unprivileged u arg g query_size h = inl refl

-- Without CAP_SYS_ADMIN no `scull_ioctl`, whatever its number and argument, does more to the
-- parameters than reset the quantum and the set size to their defaults or set the buffer size of the
-- pipes.
pub ioctl-Unprivileged :
    (u : Caller) (cmd arg : ℕ) (g : Params)
    → u.capable ≡ false
    → Unprivileged arg g (ioctl u cmd arg g).params
ioctl-Unprivileged u cmd arg g h = elim (ioctl-cases u cmd arg g) [
  | inl (_, e) ↦ inl (ap (λ r. r.params) e)
  | inr (inl (_, _, e)) ↦ inl (ap (λ r. r.params) e)
  | inr (inr (_, _, inl (_, e))) ↦ inl (ap (λ r. r.params) e)
  | inr (inr (_, _, inr (c, _, e))) ↦ rw e (perform-Unprivileged u arg g c h)
]
