-- ===== src/Memory/Naive/Free.antt =====
-- Kernel/memory/naiveManager.c: `freeMemory`.
use tp2_sistemas_operativos.Prelude.{
  ℕ, ◌+◌, ◌-◌, ◌<◌, ◌≡◌, ◌≢◌, ◌⊎◌, inl, inr, refl, sym, ap, subst, ◌∙◌, arith, List, [], ◌∷◌, ◌++◌,
  Bool, true, false, append_assoc,
}
use tp2_sistemas_operativos.Memory.Naive.{
  Naive, put_block, set_prev, absorb, merge_with_next, merge_with_previous, coalesce, free_memory,
}
use tp2_sistemas_operativos.Memory.Naive.Chain.{Cell, total}
use tp2_sistemas_operativos.Memory.Naive.Valid.{
  IsValid, address, mark-IsValid, header, total-append,
}
use tp2_sistemas_operativos.Memory.Naive.Join.{absorb-IsValid}

-- A free cell behind the first one is joined to it.
abbrev pub join_next : List Cell → List Cell
join_next ((s, x) ∷ (t, true) ∷ cs) = (s + 24 + t, x) ∷ cs
join_next cs = cs

-- The cells `pre` before those of `cs`, the first of which is joined to a free one before it.
abbrev pub attach : List Cell → List Cell → List Cell
attach [] cs = cs
attach (p ∷ d ∷ pre) cs = p ∷ attach (d ∷ pre) cs
attach ((s, true) ∷ []) ((t, y) ∷ cs) = (s + 24 + t, true) ∷ cs
attach ((s, true) ∷ []) [] = (s, true) ∷ []
attach ((s, false) ∷ []) cs = (s, false) ∷ cs

module _ (m : Naive) (b c : ℕ) where
  merge_with_next-null : (m.blocks b).next ≡ 0 → merge_with_next b m ≡ m
  unfolding merge_with_next
  merge_with_next-null e = rw e refl

  merge_with_next-used : (m.blocks b).next ≡ c → (m.blocks c).free ≡ false → merge_with_next b m ≡ m
  unfolding merge_with_next
  merge_with_next-used e h = rw (e, h) (ground arith)

  merge_with_next-join :
      (m.blocks b).next ≡ c
      → c ≢ 0
      → (m.blocks c).free ≡ true
      → c ≡ b + 24 + (m.blocks b).size
      → merge_with_next b m ≡ absorb b c m
  unfolding merge_with_next
  merge_with_next-join e nz h at = rw (e, h) (ground arith)

  merge_with_previous-null : (m.blocks b).prev ≡ 0 → merge_with_previous b m ≡ m
  unfolding merge_with_previous
  merge_with_previous-null e = rw e refl

  merge_with_previous-used :
      (m.blocks b).prev ≡ c → (m.blocks c).free ≡ false → merge_with_previous b m ≡ m
  unfolding merge_with_previous
  merge_with_previous-used e h = rw (e, h) (ground arith)

  merge_with_previous-join :
      (m.blocks b).prev ≡ c
      → c ≢ 0
      → (m.blocks c).free ≡ true
      → b ≡ c + 24 + (m.blocks c).size
      → merge_with_previous b m ≡ absorb c b m
  unfolding merge_with_previous
  merge_with_previous-join e nz h at = rw (e, h) (ground arith)

merge_with_next-IsValid :
    (m : Naive) (pre : List Cell) (s : ℕ) (x : Bool) (post : List Cell)
    → IsValid m (pre ++ (s, x) ∷ post)
    → IsValid (merge_with_next (address m pre) m) (pre ++ join_next ((s, x) ∷ post))
merge_with_next-IsValid m pre s x [] v =
    let (last, here, rest) = header m pre s x [] v in
    rw (merge_with_next-null m (address m pre) 0 rest.0) v
merge_with_next-IsValid m pre s x ((t, false) ∷ post) v =
    let (last, here, rest) = header m pre s x ((t, false) ∷ post) v in
    rw (merge_with_next-used m (address m pre) (address m pre + 24 + s) rest.0 rest.1.free) v
merge_with_next-IsValid m pre s x ((t, true) ∷ post) v =
    let (last, here, rest) = header m pre s x ((t, true) ∷ post) v in
    rw
      (merge_with_next-join m (address m pre) (address m pre + 24 + s) rest.0
        (λ z. absurd (omega arith)) rest.1.free (omega (arith, here.size)))
      (absorb-IsValid m pre s x t true post v)

snoc-cases : (xs : List Cell) → (xs ≡ []) ⊎ ((ys : List Cell) × (y : Cell) × (xs ≡ ys ++ y ∷ []))
snoc-cases [] = inl refl
snoc-cases (c ∷ cs) = elim (snoc-cases cs) [
  | inl e ↦ inr ([], c, ap (λ xs. c ∷ xs) e)
  | inr (ys, y, e) ↦ inr (c ∷ ys, y, ap (λ xs. c ∷ xs) e)
]

attach-append :
    (pre : List Cell) (p : Cell) (cs : List Cell)
    → attach (pre ++ p ∷ []) cs ≡ pre ++ attach (p ∷ []) cs
attach-append [] p cs = refl
attach-append (c ∷ []) p cs = refl
attach-append (c ∷ d ∷ pre) p cs = ap (λ xs. c ∷ xs) (attach-append (d ∷ pre) p cs)

-- With a block before the one at `b`.
behind-IsValid :
    (m : Naive) (pre : List Cell) (t : ℕ) (y : Bool) (s : ℕ) (x : Bool) (post : List Cell)
    → IsValid m (pre ++ (t, y) ∷ (s, x) ∷ post)
    → IsValid
        (merge_with_previous (address m pre + 24 + t) m)
        (pre ++ attach ((t, y) ∷ []) ((s, x) ∷ post))
behind-IsValid m pre t false s x post v =
    let (last, here, rest) = header m pre t false ((s, x) ∷ post) v in
    rw (merge_with_previous-used m (address m pre + 24 + t) (address m pre) rest.1.prev here.free) v
behind-IsValid m pre t true s x post v =
    let (last, here, rest) = header m pre t true ((s, x) ∷ post) v in
    rw
      (merge_with_previous-join m (address m pre + 24 + t) (address m pre) rest.1.prev
        (λ z. absurd (omega (arith, v.pos))) here.free (omega (arith, here.size)))
      (absorb-IsValid m pre t true s x post v)

first-IsValid :
    (m : Naive) (s : ℕ) (x : Bool) (post : List Cell)
    → IsValid m ((s, x) ∷ post)
    → IsValid (merge_with_previous (address m []) m) ((s, x) ∷ post)
first-IsValid m s x post v =
    let start : (m.blocks (address m [])).prev ≡ 0 =
      subst (λ a. (m.blocks a).prev ≡ 0) (omega arith) v.chain.1.prev in
    rw (merge_with_previous-null m (address m []) 0 start) v

later-IsValid :
    (m : Naive) (ys : List Cell) (t : ℕ) (y : Bool) (s : ℕ) (x : Bool) (post : List Cell)
    → IsValid m ((ys ++ (t, y) ∷ []) ++ (s, x) ∷ post)
    → IsValid
        (merge_with_previous (address m (ys ++ (t, y) ∷ [])) m)
        (attach (ys ++ (t, y) ∷ []) ((s, x) ∷ post))
later-IsValid m ys t y s x post v =
    subst (λ a. IsValid (merge_with_previous a m) (attach (ys ++ (t, y) ∷ []) ((s, x) ∷ post)))
      (omega (arith, total-append ys ((t, y) ∷ [])))
      (subst (IsValid (merge_with_previous (address m ys + 24 + t) m))
        (sym (attach-append ys (t, y) ((s, x) ∷ post)))
        (behind-IsValid m ys t y s x post
          (subst (IsValid m) (append_assoc ys ((t, y) ∷ []) ((s, x) ∷ post)) v)))

merge_with_previous-IsValid :
    (m : Naive) (pre : List Cell) (s : ℕ) (x : Bool) (post : List Cell)
    → IsValid m (pre ++ (s, x) ∷ post)
    → IsValid (merge_with_previous (address m pre) m) (attach pre ((s, x) ∷ post))
merge_with_previous-IsValid m pre s x post v = elim (snoc-cases pre) [
  | inl e ↦
      subst (λ xs. IsValid (merge_with_previous (address m xs) m) (attach xs ((s, x) ∷ post)))
        (sym e) (first-IsValid m s x post (subst (λ xs. IsValid m (xs ++ (s, x) ∷ post)) e v))
  | inr (ys, (t, y), e) ↦
      subst (λ xs. IsValid (merge_with_previous (address m xs) m) (attach xs ((s, x) ∷ post)))
        (sym e)
        (later-IsValid m ys t y s x post (subst (λ xs. IsValid m (xs ++ (s, x) ∷ post)) e v))
]

merge_with_next-first : (b : ℕ) (m : Naive) → (merge_with_next b m).first_block ≡ m.first_block
unfolding merge_with_next absorb set_prev
merge_with_next-first b m = ground arith

join_next-head :
    (s : ℕ) (x : Bool) (post : List Cell)
    → (t : ℕ) × (rest : List Cell) × (join_next ((s, x) ∷ post) ≡ (t, x) ∷ rest)
join_next-head s x [] = (s, [], refl)
join_next-head s x ((t, true) ∷ post) = (s + 24 + t, post, refl)
join_next-head s x ((t, false) ∷ post) = (s, (t, false) ∷ post, refl)

coalesce-IsValid :
    (m : Naive) (pre : List Cell) (s : ℕ) (x : Bool) (post : List Cell)
    → IsValid m (pre ++ (s, x) ∷ post)
    → IsValid (coalesce (address m pre) m) (attach pre (join_next ((s, x) ∷ post)))
unfolding coalesce
coalesce-IsValid m pre s x post v =
    let b = address m pre in
    let (t, rest, e) = join_next-head s x post in
    let joined =
      subst (λ cs. IsValid (merge_with_next b m) (pre ++ cs)) e
        (merge_with_next-IsValid m pre s x post v) in
    subst (λ cs. IsValid (merge_with_previous b (merge_with_next b m)) (attach pre cs)) (sym e)
      (subst
        (λ a.
          IsValid (merge_with_previous (a + total pre) (merge_with_next b m))
            (attach pre ((t, x) ∷ rest)))
        (merge_with_next-first b m)
        (merge_with_previous-IsValid (merge_with_next b m) pre t x rest joined))

free_memory-used :
    (segment : ℕ) (m : Naive)
    → 24 < segment
    → (m.blocks (segment - 24)).free ≡ false
    → free_memory segment m
      ≡ coalesce
          (segment - 24)
          (put_block (segment - 24) (record (m.blocks (segment - 24)) { free = true }) m)
unfolding free_memory
free_memory-used segment m h e = rw e (ground arith)

-- Take a list of blocks that fill the pool, with a block in use behind those of `pre`. `freeMemory` of
-- its data marks it as free and keeps the list valid: the block is one with the block behind it
-- where that is free, and with the block before it where that is free, and every other block is as
-- it was.
pub free_memory-join_next :
    (m : Naive) (pre : List Cell) (s : ℕ) (post : List Cell)
    → IsValid m (pre ++ (s, false) ∷ post)
    → IsValid (free_memory (address m pre + 24) m) (attach pre (join_next ((s, true) ∷ post)))
free_memory-join_next m pre s post v =
    let b = address m pre in
    let (last, here, rest) = header m pre s false post v in
    let same : b + 24 - 24 ≡ b = omega arith in
    rw
      (
        free_memory-used (b + 24) m (omega (arith, v.pos))
            (ap (λ a. (m.blocks a).free) same ∙ here.free),
        same,
      )
      (coalesce-IsValid (put_block b (record (m.blocks b) { free = true }) m) pre s true post
        (mark-IsValid m pre s false post v true))
