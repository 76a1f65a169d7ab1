-- ===== src/Scull/Exchange.antt =====
-- 实验7/scull/main.c: the exchange and the get commands of `scull_ioctl`.
use linux_kernel_experiment.Prelude.{ℕ, ◌≡◌, refl, ap, ◌∙◌, true, false, some, ℤ, pos}
use linux_kernel_experiment.Scull.Device.{Params}
use linux_kernel_experiment.Scull.Ioctl.{
  Command, get_quantum, exchange_quantum, get_qset, exchange_qset, code_of, Caller, value, Variable,
  quantum, qset, get, put, perform, refused_range, ioctl,
}
use linux_kernel_experiment.Scull.Commands.{ioctl-perform}

-- the exchange and the get command of a variable, and the variable that it leaves alone
abbrev pub exchange_of : Variable → Command
exchange_of quantum = exchange_quantum
exchange_of qset = exchange_qset

abbrev pub get_of : Variable → Command
get_of quantum = get_quantum
get_of qset = get_qset

abbrev pub other : Variable → Variable
other quantum = qset
other qset = quantum

exchanged :
    (u : Caller) (x : Variable) (arg : ℕ) (g : Params) (v : ℤ)
    → u.capable ≡ true
    → u.get_user arg ≡ (v, true)
    → u.put_user arg ≡ true
    → perform u arg (exchange_of x) g
      ≡ record { params = put x v g; stored = some (get x g); answer = value (pos 0) }
unfolding perform
exchanged u quantum arg g v hc hg hp = rw (hc, hg, hp) refl
exchanged u qset arg g v hc hg hp = rw (hc, hg, hp) refl

got :
    (u : Caller) (x : Variable) (arg : ℕ) (g : Params)
    → u.put_user arg ≡ true
    → perform u arg (get_of x) g
      ≡ record { params = g; stored = some (get x g); answer = value (pos 0) }
unfolding perform
got u quantum arg g hp = rw hp refl
got u qset arg g hp = rw hp refl

get-put : (x : Variable) (v : ℤ) (g : Params) → get x (put x v g) ≡ v
get-put quantum v g = refl
get-put qset v g = refl

get-other-put : (x : Variable) (v : ℤ) (g : Params) → get (other x) (put x v g) ≡ get (other x) g
get-other-put quantum v g = refl
get-other-put qset v g = refl

-- If the ranges are accepted and user memory can be read and written, a privileged exchange stores
-- the variable's old value through the user's pointer, and the value that the pointer held is what
-- a later get command stores; the other variable keeps its value.
exchange-get :
    (u : Caller) (x : Variable) (arg arg' : ℕ) (g : Params) (v : ℤ)
    → u.capable ≡ true
    → refused_range u (code_of (exchange_of x)) arg ≡ false
    → refused_range u (code_of (get_of x)) arg' ≡ false
    → u.get_user arg ≡ (v, true)
    → u.put_user arg ≡ true
    → u.put_user arg' ≡ true
    → (g' : Params) × ((ioctl u (code_of (exchange_of x)) arg g).params ≡ g')
      × ((ioctl u (code_of (exchange_of x)) arg g).stored ≡ some (get x g))
      × ((ioctl u (code_of (get_of x)) arg' g').stored ≡ some v)
      × (get (other x) g' ≡ get (other x) g)
exchange-get u x arg arg' g v hc ha ha' hg hp hp' =
    let e = ioctl-perform u arg g (exchange_of x) ha ∙ exchanged u x arg g v hc hg hp in
    let e' = ioctl-perform u arg' (put x v g) (get_of x) ha' ∙ got u x arg' (put x v g) hp' in
    (
      put x v g,
      ap (λ r. r.params) e,
      ap (λ r. r.stored) e,
      ap (λ r. r.stored) e' ∙ ap some (get-put x v g),
      get-other-put x v g,
    )
