-- ===== src/Memory/Naive/Undo.antt =====
-- Kernel/memory/naiveManager.c: `freeMemory` after `allocMemory`.
use tp2_sistemas_operativos.Prelude.{
  ℕ, ◌+◌, ◌-◌, ◌≤◌, ◌<◌, ◌≡◌, ◌≢◌, inl, inr, refl, sym, ap, ==_ne, subst, ◌∙◌, arith, List, [], ◌∷◌,
  ◌++◌, some, true, false, leb, if◌then◌else◌, Bool-cases,
}
use tp2_sistemas_operativos.Memory.Align.{align}
use tp2_sistemas_operativos.Memory.Naive.{Naive, alloc_memory, free_memory}
use tp2_sistemas_operativos.Memory.Naive.Chain.{Cell, total}
use tp2_sistemas_operativos.Memory.Naive.Valid.{IsValid, address}
use tp2_sistemas_operativos.Memory.Naive.Fit.{first_fit, carved, first_fit-cases}
use tp2_sistemas_operativos.Memory.Naive.Alloc.{segment, alloc_memory-first_fit}
use tp2_sistemas_operativos.Memory.Naive.Free.{join_next, attach, free_memory-join_next}
use tp2_sistemas_operativos.Memory.Naive.Tidy.{IsTidy, IsTidy-drop, IsCoalesced}

-- A free cell has none before it and none behind it that is free.
attach-apart :
    (pre : List Cell) (s : ℕ) (post : List Cell)
    → IsTidy (pre ++ (s, true) ∷ post)
    → attach pre ((s, true) ∷ post) ≡ pre ++ (s, true) ∷ post
attach-apart [] s post h = refl
attach-apart ((t, true) ∷ []) s post h = absurd (cc h.0)
attach-apart ((t, false) ∷ []) s post h = refl
attach-apart (c ∷ d ∷ pre) s post h = ap (λ xs. c ∷ xs) (attach-apart (d ∷ pre) s post h.1)

join_next-apart :
    (s : ℕ) (post : List Cell)
    → IsTidy ((s, true) ∷ post)
    → join_next ((s, true) ∷ post) ≡ (s, true) ∷ post
join_next-apart s [] h = refl
join_next-apart s ((t, true) ∷ post) h = absurd (cc h.0)
join_next-apart s ((t, false) ∷ post) h = refl

-- `freeMemory` of the block that was carved out of a free one gives it back.
undo :
    (m : Naive) (pre : List Cell) (req s : ℕ) (post : List Cell)
    → req ≤ s
    → IsTidy (pre ++ (s, true) ∷ post)
    → IsValid m (pre ++ (carved req s ++ post))
    → IsValid (free_memory (address m pre + 24) m) (pre ++ (s, true) ∷ post)
undo m pre req s post enough tidy v = elim (Bool-cases (leb (req + 32) s)) [
  | inl e ↦
      let parts : carved req s ≡ (req, false) ∷ (s - req - 24, true) ∷ [] =
        ap (λ t. if t then (req, false) ∷ (s - req - 24, true) ∷ [] else (s, false) ∷ []) e in
      let whole : req + 24 + (s - req - 24) ≡ s = ground arith in
      subst (IsValid (free_memory (address m pre + 24) m))
        (ap (λ n. attach pre ((n, true) ∷ post)) whole ∙ attach-apart pre s post tidy)
        (free_memory-join_next m pre req ((s - req - 24, true) ∷ post)
          (subst (λ cs. IsValid m (pre ++ (cs ++ post))) parts v))
  | inr e ↦
      let part : carved req s ≡ (s, false) ∷ [] =
        ap (λ t. if t then (req, false) ∷ (s - req - 24, true) ∷ [] else (s, false) ∷ []) e in
      subst (IsValid (free_memory (address m pre + 24) m))
        (ap (attach pre) (join_next-apart s post (IsTidy-drop pre ((s, true) ∷ post) tidy))
          ∙ attach-apart pre s post tidy)
        (free_memory-join_next m pre s post (subst (λ cs. IsValid m (pre ++ (cs ++ post))) part v))
]

-- On a list of blocks that fill the pool, no two free ones side by side, `freeMemory` undoes
-- `allocMemory`: where a block was found for the request, freeing the address that `allocMemory` gave
-- leaves just the blocks that were there before.
pub free_memory-carved :
    (size : ℕ) (m : Naive) (cells : List Cell)
    → 0 < size
    → IsCoalesced m cells
    → first_fit (align size) m.first_block cells ≢ 0
    → (a : ℕ) × (m' : Naive) × (alloc_memory size m ≡ some (a, m'))
      × IsValid (free_memory a m') cells
free_memory-carved size m cells h v found =
    elim (first_fit-cases (align size) m.first_block cells) [
      | inl (none_fits, same) ↦ absurd (found none_fits)
      | inr (pre, s, post, e, enough, at, result) ↦
          let (m', run, first, v') = alloc_memory-first_fit size m cells h v.0 in
          let b : first_fit (align size) m.first_block cells ≡ address m' pre =
            at ∙ ap (λ a. a + total pre) (sym first) in
          let there : segment (first_fit (align size) m.first_block cells) ≡ address m' pre + 24 =
            ap segment b
            ∙ ap (λ t. if t then 0 else address m' pre + 24)
                (==_ne (address m' pre) 0 (λ z. found (b ∙ z))) in
          (
            address m' pre + 24,
            m',
            run ∙ ap (λ a. some (a, m')) there,
            subst (IsValid (free_memory (address m' pre + 24) m')) (sym e) (
                undo m' pre (align size) s post enough (subst IsTidy e v.1)
                  (subst (IsValid m') result v')),
          )
    ]
