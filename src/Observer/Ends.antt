-- ===== src/Observer/Ends.antt =====
-- 实验1: the observer ends, and with which code.
use linux_kernel_experiment.Prelude.{
  ℕ, zero, suc, ◌+◌, ◌^◌, ◌≡◌, ◌≤◌, ◌<◌, refl, ap, sym, ◌∙◌, true, some, List, [], ◌∷◌, ◌++◌, ℤ,
  pos, ◌==◌, length, drop, splice, get_elem?, arith, Bool-cases, inl, inr, length-append,
  length-splice, get_elem?-splice_in, get_elem?-splice_out, get_elem?-drop, ◌-◌, ==→eq,
}
use linux_kernel_experiment.Kernel.{done}
use linux_kernel_experiment.Stdio.{line}
use linux_kernel_experiment.Proc.Value.{text}
use linux_kernel_experiment.Observer.Output.{Output, Ran, Result, say, World}
use linux_kernel_experiment.Observer.Program.{fill, fill_each, say_text}

-- the program ends with this code
abbrev pub EndsWith : Result → ℕ → Type 0
EndsWith r c = (x : Ran) × (r ≡ some (done x)) × (x.code ≡ c)

pub say-EndsWith : (l : List Output) (r : Result) (c : ℕ) → EndsWith r c → EndsWith (say l r) c
say-EndsWith l r c (x, e, code) = (record x { out = l ++ x.out }, ap (say l) e, code)

-- the buffer of a line, with a 0 in its last place
abbrev pub IsEnded : List ℕ → Type 0
IsEnded b = (length b ≡ 81) × (get_elem? b 80 ≡ some 0)

text_found : (l : List ℕ) (k : ℕ) → get_elem? l k ≡ some 0 → (t : List ℕ) × (text l ≡ some t)
text_found [] k h = absurd (cc)
text_found (x ∷ l) zero h = elim (Bool-cases (x == 0)) [
  | inl at ↦ ([], rw at refl)
  | inr other ↦ absurd (ground (arith, h, other))
]
text_found (x ∷ l) (suc k) h =
    let (t, e) = text_found l k h in
    elim (Bool-cases (x == 0)) [
      | inl at ↦ ([], rw at refl)
      | inr other ↦ (x ∷ t, rw (other, e) refl)
    ]

line_short : (n : ℕ) (file : List ℕ) → length (line n file).0 ≤ n
line_short zero file = omega arith
line_short (suc n) [] = omega arith
line_short (suc n) (x ∷ file) = elim (Bool-cases (x == 10)) [
  | inl last ↦ rw last (omega arith)
  | inr more ↦ rw more (omega (arith, line_short n file))
]

last_of : (l : List ℕ) (a : ℕ) → get_elem? (l ++ a ∷ []) (length l) ≡ some a
last_of [] a = refl
last_of (x ∷ l) a = last_of l a

splice-IsEnded : (b l : List ℕ) → IsEnded b → length l ≤ 80 → IsEnded (splice b 0 (l ++ 0 ∷ []))
splice-IsEnded b l (len, last) h =
    let size = length-append l (0 ∷ []) in
    (
      length-splice b 0 (l ++ 0 ∷ []) ∙ len,
      elim (Bool-cases (length l == 80)) [
        | inl full ↦
            let at = ==→eq (length l) 80 full in
            get_elem?-splice_in b 0 (l ++ 0 ∷ []) 80 80 (omega arith) (omega (arith, size))
              (omega (arith, len))
            ∙ ap (get_elem? (l ++ 0 ∷ [])) (sym at)
            ∙ last_of l 0
        | inr less ↦
            get_elem?-splice_out b 0 (l ++ 0 ∷ []) 80 (inr (ground (arith, size, less, h))) ∙ last
      ],
    )

pub fill-IsEnded : (b file : List ℕ) → IsEnded b → IsEnded (fill b file).0
fill-IsEnded b [] h = h
fill-IsEnded b (x ∷ file) h = splice-IsEnded b (line 80 (x ∷ file)).0 h (line_short 80 (x ∷ file))

pub fill_each-IsEnded : (n : ℕ) (b file : List ℕ) → IsEnded b → IsEnded (fill_each n b file)
fill_each-IsEnded zero b file h = h
fill_each-IsEnded (suc n) b file h =
    fill_each-IsEnded n (fill b file).0 (fill b file).1 (fill-IsEnded b file h)

-- a part of the buffer is printed
pub say_text-EndsWith :
    (f : List ℕ → Output) (n : ℕ) (b : List ℕ) (r : Result) (c : ℕ)
    → n ≤ 80
    → IsEnded b
    → EndsWith r c
    → EndsWith (say_text f (text (drop n b)) r) c
say_text-EndsWith f n b r c h ended_b e =
    let (t, found) =
      text_found (drop n b) (80 - n)
        (get_elem?-drop n b (80 - n) ∙ ap (get_elem? b) (omega arith) ∙ ended_b.1) in
    rw found (say-EndsWith (f t ∷ []) r c e)

-- all the files can be opened, and the buffer has a 0 in its last place
pub record IsReady (w : World) : Type 0 where
  pub uptime : (n : ℤ) × (w.uptime ≡ some n)
  pub stat : (l : List ℕ) × (w.stat ≡ some l)
  pub diskstats : (l : List ℕ) × (w.diskstats ≡ some l)
  pub meminfo : (l : List ℕ) × (w.meminfo ≡ some l)
  pub loadavg : w.loadavg ≡ true
  pub hostname : (l : List ℕ) × (w.hostname ≡ some l)
  pub cpuinfo : (l : List ℕ) × (w.cpuinfo ≡ some l)
  pub version : (l : List ℕ) × (w.version ≡ some l)
  pub buffer : IsEnded w.buffer

-- the interval and the duration of the option d, which the fuel is enough for
abbrev pub IsTimed : World → List (List ℕ) → Type 0
IsTimed w [] = Unit
IsTimed w (a ∷ []) = Unit
IsTimed w (a ∷ (b ∷ more)) =
    (i d : ℕ) × (w.scans.atoi a ≡ pos i)
    × (w.scans.atoi b ≡ pos d)
    × (0 < i)
    × (d + i < 2 ^ 31)
    × (d ≤ w.fuel)
