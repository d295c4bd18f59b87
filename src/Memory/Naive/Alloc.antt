-- ===== src/Memory/Naive/Alloc.antt =====
-- Kernel/memory/naiveManager.c: `allocMemory`.
use tp2_sistemas_operativos.Prelude.{
  ℕ, ◌+◌, ◌-◌, ◌%◌, ◌^◌, ◌≤◌, ◌<◌, ◌≡◌, inl, inr, refl, sym, ap, ap₂, ==_ne, subst, ◌∙◌, arith,
  List, [], ◌∷◌, ◌++◌, some, true, false, leb, ◌==◌, if◌then◌else◌, Bool-cases,
}
use tp2_sistemas_operativos.Memory.Align.{align}
use tp2_sistemas_operativos.Memory.Naive.{
  Naive, put_block, split_block, set_prev, has_room_for_split, find_suitable_block, take_block,
  alloc_memory,
}
use tp2_sistemas_operativos.Memory.Naive.Chain.{Cell}
use tp2_sistemas_operativos.Memory.Naive.Valid.{
  IsValid, address, mark-IsValid, split-IsValid, size_bound, header,
}
use tp2_sistemas_operativos.Memory.Naive.Fit.{
  first_fit, carved, allocated, first_fit-cases, find_suitable_block-first_fit,
}

-- The address of the data of the block at `b`; NULL has none.
abbrev pub segment : ℕ → ℕ
segment b = if b == 0 then 0 else b + 24

take_block-null : (req : ℕ) (m : Naive) → take_block 0 req m ≡ (0, m)
unfolding take_block
take_block-null req m = refl

module _ (m : Naive) (pre : List Cell) (s : ℕ) (post : List Cell)
    (v : IsValid m (pre ++ (s, true) ∷ post)) (req : ℕ) (enough : req ≤ s) where
  abbrev at : ℕ
  at = address m pre

  marked : Naive → Naive
  marked m1 = put_block at (record (m1.blocks at) { free = false }) m1

  room : has_room_for_split (m.blocks at) req ≡ leb (req + 32) s
  room = let (last, here, rest) = header m pre s true post v in ap₂ leb wraps here.size
    where
      wraps : (req + 24 + 8) % 2 ^ 32 ≡ req + 32
      wraps = omega (arith, v.small, size_bound m pre s true post v)

  take_block-at :
      take_block at req m ≡ (at + 24, marked (if leb (req + 32) s then split_block at req m else m))
  unfolding take_block marked
  take_block-at =
      ap
        (λ t. if at == 0 then (0, m) else (at + 24, marked (if t then split_block at req m else m)))
        room
      ∙ ap
          (λ t.
            if t
            then (0, m)
            else (at + 24, marked (if leb (req + 32) s then split_block at req m else m)))
          (==_ne at 0 (λ z. absurd (omega (arith, v.pos))))

  take_block-IsValid :
      (m' : Naive) × (take_block at req m ≡ (at + 24, m'))
      × (m'.first_block ≡ m.first_block)
      × IsValid m' (pre ++ (carved req s ++ post))
  unfolding marked split_block set_prev
  take_block-IsValid = elim (Bool-cases (leb (req + 32) s)) [
    | inl h ↦
        let m1 = split_block at req m in
        (
          marked m1,
          take_block-at ∙ ap (λ t. (at + 24, marked (if t then m1 else m))) h,
          refl,
          subst
              (λ t. IsValid (marked m1) (
                pre
                ++ ((if t then (req, false) ∷ (s - req - 24, true) ∷ [] else (s, false) ∷ [])
                    ++ post)))
              (sym h)
              (mark-IsValid m1 pre req true ((s - req - 24, true) ∷ post)
                (split-IsValid m pre s true post v req (ground arith)) false),
        )
    | inr h ↦ (
      marked m,
      take_block-at ∙ ap (λ t. (at + 24, marked (if t then split_block at req m else m))) h,
      refl,
      subst
          (λ t. IsValid (marked m) (
            pre
            ++ ((if t then (req, false) ∷ (s - req - 24, true) ∷ [] else (s, false) ∷ []) ++ post)))
          (sym h) (mark-IsValid m pre s true post v false),
    )
  ]

alloc_memory-take :
    (size b : ℕ) (m : Naive)
    → 0 < size
    → find_suitable_block (align size) m ≡ some b
    → alloc_memory size m ≡ some (take_block b (align size) m)
unfolding alloc_memory
alloc_memory-take size b m h e = rw (==_ne size 0 (λ z. absurd (omega arith)), e) refl

-- Take a list of blocks that fill the pool, and a request that is not 0, rounded up by ALIGN in 32
-- bits. `allocMemory` answers, and keeps the list valid. If no free block has the rounded size it
-- answers NULL with the blocks as they were. Otherwise it takes the first one that has, gives the
-- address behind its header, and marks it as used; what is left of it is a free block of its own if
-- that is a header and 8 bytes at least.
pub alloc_memory-first_fit :
    (size : ℕ) (m : Naive) (cells : List Cell)
    → 0 < size
    → IsValid m cells
    → (m' : Naive) × (alloc_memory size m
        ≡ some (segment (first_fit (align size) m.first_block cells), m'))
      × (m'.first_block ≡ m.first_block)
      × IsValid m' (allocated (align size) cells)
alloc_memory-first_fit size m cells h v = elim (first_fit-cases (align size) m.first_block cells) [
  | inl (none_fits, same) ↦ (
    m,
    alloc_memory-take size 0 m h
          (find_suitable_block-first_fit (align size) m cells v ∙ ap some none_fits)
        ∙ ap some (take_block-null (align size) m ∙ ap (λ b. (segment b, m)) (sym none_fits)),
    refl,
    subst (IsValid m) (sym same) v,
  )
  | inr (pre, s, post, e, enough, found, result) ↦
      let (m', run, first, v') =
        take_block-IsValid m pre s post (subst (IsValid m) e v) (align size) enough in
      let b = address m pre in
      (
        m',
        alloc_memory-take size b m h
              (find_suitable_block-first_fit (align size) m cells v ∙ ap some found)
            ∙ ap some (
                run
                ∙ ap (λ a. (a, m'))
                    (ap (λ t. if t then 0 else b + 24)
                      (sym (==_ne b 0 (λ z. absurd (omega (arith, v.pos))))))
                ∙ ap (λ a. (segment a, m')) (sym found)),
        first,
        subst (IsValid m') (sym result) v',
      )
]
