-- ===== src/Fixed/Stored.antt =====
-- 实验7/main.c: what is written is read back.
use linux_kernel_experiment.Prelude.{
  ℕ, ◌+◌, ◌≡◌, ◌≤◌, ◌<◌, ◌⊎◌, inl, inr, refl, sym, ap, ◌∙◌, false, List, leb, ◌==◌, if◌then◌else◌,
  length, take, drop, ◌++◌, splice, slice, arith, Bool-cases, ==→eq, subst, lt→leb, eq→==,
  length-splice, length-slice, take-splice, drop-splice, length-drop, take-append,
}
use linux_kernel_experiment.Kernel.{done, count, error, efault, enospc}
use linux_kernel_experiment.Fixed.Block.{
  data_size, Block, Arguments, Returned, leaving, cut, copy_in, read_bytes, write_bytes,
  finish_write, finish_read,
}
use linux_kernel_experiment.Fixed.Bytes.{
  IsValid, cut_le, cut_exact, copy_in_fits, copy_out_fits, done_inj, not_count,
}

-- what a write left that returned the count `n`
record Stored (c : Arguments) (d : Block) (out : Returned) (n : ℕ) : Type 0 where
  size : out.block.size ≡ c.f_pos + n
  whole : length out.block.bytes ≡ data_size
  inside : c.f_pos + n ≤ data_size
  bytes : slice out.block.bytes c.f_pos n ≡ take n c.user

slice-splice :
    (xs : List ℕ) (i n : ℕ) (ys : List ℕ)
    → length ys ≡ n
    → i + n ≤ length xs
    → slice (splice xs i ys) i n ≡ ys
slice-splice xs i n ys e h =
    ap (take n) (drop-splice i xs 0 i ys (omega arith))
    ∙ take-splice (drop i xs) 0 ys n (omega arith) (omega (arith, length-drop i xs))

finish_write-reply :
    (c : Arguments) (d : Block) (m n left : ℕ) (bytes : List ℕ)
    → (finish_write c d m (bytes, left)).reply ≡ count n
    → (left ≡ 0) × (m ≡ n)
finish_write-reply c d m n left bytes e = ground arith

finish_write-Stored :
    (c : Arguments) (d : Block) (n left : ℕ) (bytes : List ℕ)
    → IsValid d
    → c.f_pos + n ≤ data_size
    → length bytes ≡ n
    → left ≡ 0
    → bytes ≡ take n c.user
    → Stored c d (finish_write c d n (bytes, left)) n
finish_write-Stored c d n left bytes v fits len all good = rw (eq→== left 0 all) record {
  size = ground arith;
  whole = length-splice d.bytes c.f_pos bytes ∙ v.whole;
  inside = fits;
  bytes = slice-splice d.bytes c.f_pos n bytes len (omega (arith, v.whole)) ∙ good;
}

copy_in-Stored :
    (c : Arguments) (d : Block) (out : Returned) (m n : ℕ)
    → IsValid d
    → c.f_pos + m ≤ data_size
    → copy_in c d m ≡ done out
    → out.reply ≡ count n
    → Stored c d out n
copy_in-Stored c d out m n v fits w e =
    let same = done_inj (sym (copy_in_fits c d m (omega (arith, v.whole))) ∙ w) in
    let (bytes, left) = c.kernel.copy_from_user c.user m in
    let (all, eq) = finish_write-reply c d m n left bytes (ap (λ o. o.reply) same ∙ e) in
    subst (λ o. Stored c d o n) same
      (subst (Stored c d (finish_write c d m (bytes, left))) eq (
        finish_write-Stored c d m left bytes v fits (c.kernel.length-copy_from_user c.user m) all
          (c.kernel.copy_from_user_all c.user m all)))

write_bytes-Stored :
    (c : Arguments) (d : Block) (out : Returned) (n : ℕ)
    → IsValid d
    → write_bytes c false d ≡ done out
    → out.reply ≡ count n
    → Stored c d out n
unfolding write_bytes
write_bytes-Stored c d out n v w e = elim (Bool-cases (leb data_size c.f_pos)) [
  | inl full ↦
      let refused = done_inj (
        sym (
          ap
            (λ b.
              if b
              then done (leaving c d (error enospc))
              else copy_in c d (cut data_size c.f_pos c.n))
            full)
        ∙ w) in
      absurd (not_count enospc n (ap (λ o. o.reply) refused ∙ e))
  | inr room ↦
      let stored =
        sym (
          ap
            (λ b.
              if b
              then done (leaving c d (error enospc))
              else copy_in c d (cut data_size c.f_pos c.n))
            room)
        ∙ w in
      let fits = cut_le data_size c.f_pos c.n (ground (arith, room)) in
      copy_in-Stored c d out (cut data_size c.f_pos c.n) n v fits stored e
]

finish_read_cases :
    (r : Arguments) (d : Block) (n left : ℕ) (user : List ℕ) (bytes : List ℕ)
    → (left ≡ 0 → user ≡ bytes ++ drop (length bytes) r.user)
    → length bytes ≡ n
    → ((finish_read r d n (user, left)).reply ≡ error efault)
      ⊎ (((finish_read r d n (user, left)).reply ≡ count n)
          × (take n (finish_read r d n (user, left)).user ≡ bytes))
finish_read_cases r d n left user bytes good len = elim (Bool-cases (left == 0)) [
  | inl all ↦ rw all (
      inr (
        refl,
        rw (good (==→eq left 0 all), sym len) (take-append bytes (drop (length bytes) r.user)),
      ))
  | inr some_left ↦ rw some_left (inl refl)
]

-- A write on a valid device that returned a count above 0, and then a read of as many bytes from
-- where the write began: the read runs to its end, and unless the copy to the reader fails it
-- returns that count, and the reader's buffer begins with the bytes that were written.
pub read_bytes-write_bytes :
    (c r : Arguments) (d : Block) (out : Returned) (n : ℕ)
    → IsValid d
    → write_bytes c false d ≡ done out
    → out.reply ≡ count n
    → 0 < n
    → r.f_pos ≡ c.f_pos
    → r.n ≡ n
    → (got : Returned) × (read_bytes r false out.block ≡ done got)
      × ((got.reply ≡ error efault) ⊎ ((got.reply ≡ count n) × (take n got.user ≡ take n c.user)))
unfolding read_bytes
read_bytes-write_bytes c r d out n v w e pos_n at_pos all =
    let st = write_bytes-Stored c d out n v w e in
    let bytes = slice out.block.bytes r.f_pos n in
    let inside : r.f_pos + n ≤ length out.block.bytes = omega (arith, st.inside, st.whole) in
    let exact = cut_exact out.block.size r.f_pos r.n (omega (arith, st.size)) ∙ all in
    let before = lt→leb out.block.size r.f_pos (omega (arith, st.size)) in
    let (user, left) = r.kernel.copy_to_user r.user bytes in
    let outcome =
      finish_read_cases r out.block n left user bytes (r.kernel.copy_to_user_all r.user bytes)
        (length-slice out.block.bytes r.f_pos n inside) in
    (
      finish_read r out.block n (user, left),
      rw (before, exact) (copy_out_fits r out.block n inside),
      elim outcome [
        | inl failed ↦ inl failed
        | inr (replied, got) ↦
            inr (replied, got ∙ ap (λ p. slice out.block.bytes p n) at_pos ∙ st.bytes)
      ],
    )
