-- ===== src/Memory/Naive/Tidy.antt =====
-- Kernel/memory/naiveManager.c: no two free blocks lie side by side.
use tp2_sistemas_operativos.Prelude.{
  ℕ, ◌+◌, ◌-◌, ◌<◌, ◌≡◌, inl, inr, refl, sym, subst, List, [], ◌∷◌, ◌++◌, some, Bool, true, false,
  ◌&&◌, leb, if◌then◌else◌, Bool-cases,
}
use tp2_sistemas_operativos.Memory.Align.{align}
use tp2_sistemas_operativos.Memory.Naive.{Naive, alloc_memory, free_memory}
use tp2_sistemas_operativos.Memory.Naive.Chain.{Cell}
use tp2_sistemas_operativos.Memory.Naive.Valid.{IsValid, address}
use tp2_sistemas_operativos.Memory.Naive.Fit.{carved, allocated, first_fit-cases}
use tp2_sistemas_operativos.Memory.Naive.Alloc.{alloc_memory-first_fit}
use tp2_sistemas_operativos.Memory.Naive.Free.{join_next, attach, free_memory-join_next}

abbrev pub IsTidy : List Cell → Type 0
IsTidy [] = Unit
IsTidy (c ∷ []) = Unit
IsTidy (c ∷ d ∷ cs) = ((c.1 && d.1) ≡ false) × IsTidy (d ∷ cs)

IsTidy-tail : (c : Cell) (cs : List Cell) → IsTidy (c ∷ cs) → IsTidy cs
IsTidy-tail c [] h = tt
IsTidy-tail c (d ∷ cs) h = h.1

pub IsTidy-drop : (pre cs : List Cell) → IsTidy (pre ++ cs) → IsTidy cs
IsTidy-drop [] cs h = h
IsTidy-drop (c ∷ pre) cs h = IsTidy-drop pre cs (IsTidy-tail c (pre ++ cs) h)

-- The size of a cell does not matter, and a used one may stand anywhere.
resized-IsTidy : (s t : ℕ) (x : Bool) (cs : List Cell) → IsTidy ((s, x) ∷ cs) → IsTidy ((t, x) ∷ cs)
resized-IsTidy s t x [] h = tt
resized-IsTidy s t x (d ∷ cs) h = h

used-IsTidy : (t : ℕ) (cs : List Cell) → IsTidy cs → IsTidy ((t, false) ∷ cs)
used-IsTidy t [] h = tt
used-IsTidy t (d ∷ cs) h = (refl, h)

and-false : (x : Bool) → (x && false) ≡ false
and-false true = refl
and-false false = refl

behind-IsTidy :
    (pre : List Cell) (s : ℕ) (x : Bool) (post : List Cell) (t : ℕ) (cs : List Cell)
    → IsTidy (pre ++ (s, x) ∷ post)
    → IsTidy ((t, false) ∷ cs)
    → IsTidy (pre ++ (t, false) ∷ cs)
behind-IsTidy [] s x post t cs h k = k
behind-IsTidy (c ∷ []) s x post t cs h k = (and-false c.1, k)
behind-IsTidy (c ∷ d ∷ pre) s x post t cs h k = (h.0, behind-IsTidy (d ∷ pre) s x post t cs h.1 k)

carved-IsTidy :
    (req s : ℕ) (pre post : List Cell)
    → IsTidy (pre ++ (s, true) ∷ post)
    → IsTidy (pre ++ (carved req s ++ post))
carved-IsTidy req s pre post h = elim (Bool-cases (leb (req + 32) s)) [
  | inl e ↦
      subst
        (λ t. IsTidy (
          pre
          ++ ((if t then (req, false) ∷ (s - req - 24, true) ∷ [] else (s, false) ∷ []) ++ post)))
        (sym e)
        (behind-IsTidy pre s true post req ((s - req - 24, true) ∷ post) h
          (refl, resized-IsTidy s (s - req - 24) true post (IsTidy-drop pre ((s, true) ∷ post) h)))
  | inr e ↦
      subst
        (λ t. IsTidy (
          pre
          ++ ((if t then (req, false) ∷ (s - req - 24, true) ∷ [] else (s, false) ∷ []) ++ post)))
        (sym e)
        (behind-IsTidy pre s true post s post h
          (used-IsTidy s post (IsTidy-tail (s, true) post (IsTidy-drop pre ((s, true) ∷ post) h))))
]

allocated-IsTidy : (req a : ℕ) (cells : List Cell) → IsTidy cells → IsTidy (allocated req cells)
allocated-IsTidy req a cells h = elim (first_fit-cases req a cells) [
  | inl (none_fits, same) ↦ subst IsTidy (sym same) h
  | inr (pre, s, post, e, enough, found, result) ↦
      subst IsTidy (sym result) (carved-IsTidy req s pre post (subst IsTidy e h))
]

join_next-IsTidy :
    (s : ℕ) (post : List Cell) → IsTidy ((s, false) ∷ post) → IsTidy (join_next ((s, true) ∷ post))
join_next-IsTidy s [] h = tt
join_next-IsTidy s ((t, true) ∷ post) h = resized-IsTidy t (s + 24 + t) true post h.1
join_next-IsTidy s ((t, false) ∷ post) h = (refl, h.1)

attach-IsTidy :
    (pre : List Cell) (s t : ℕ) (post cs : List Cell)
    → IsTidy (pre ++ (s, false) ∷ post)
    → IsTidy ((t, true) ∷ cs)
    → IsTidy (attach pre ((t, true) ∷ cs))
attach-IsTidy [] s t post cs h k = k
attach-IsTidy ((u, true) ∷ []) s t post cs h k = resized-IsTidy t (u + 24 + t) true cs k
attach-IsTidy ((u, false) ∷ []) s t post cs h k = (refl, k)
attach-IsTidy (c ∷ (u, true) ∷ []) s t post cs h k = (h.0, resized-IsTidy t (u + 24 + t) true cs k)
attach-IsTidy (c ∷ (u, false) ∷ []) s t post cs h k = (h.0, (refl, k))
attach-IsTidy (c ∷ d ∷ e ∷ pre) s t post cs h k =
    (h.0, attach-IsTidy (d ∷ e ∷ pre) s t post cs h.1 k)

-- The result of `join_next` starts with a free cell.
freed-IsTidy :
    (pre : List Cell) (s : ℕ) (post : List Cell)
    → IsTidy (pre ++ (s, false) ∷ post)
    → IsTidy (attach pre (join_next ((s, true) ∷ post)))
freed-IsTidy pre s [] h = attach-IsTidy pre s s [] [] h tt
freed-IsTidy pre s ((t, true) ∷ post) h =
    attach-IsTidy pre s (s + 24 + t) ((t, true) ∷ post) post h
      (join_next-IsTidy s ((t, true) ∷ post) (IsTidy-drop pre ((s, false) ∷ (t, true) ∷ post) h))
freed-IsTidy pre s ((t, false) ∷ post) h =
    attach-IsTidy pre s s ((t, false) ∷ post) ((t, false) ∷ post) h
      (join_next-IsTidy s ((t, false) ∷ post) (IsTidy-drop pre ((s, false) ∷ (t, false) ∷ post) h))

-- The cells are those of the manager, and no two free ones lie side by side.
abbrev pub IsCoalesced : Naive → List Cell → Type 0
IsCoalesced m cells = IsValid m cells × IsTidy cells

-- `allocMemory` and `freeMemory` of a block in use keep the manager coalesced: after either call the
-- blocks fill the pool, linked both ways, and no two free ones lie side by side.
pub alloc_memory-IsCoalesced :
    (size : ℕ) (m : Naive) (cells pre : List Cell) (s : ℕ) (post : List Cell)
    → 0 < size
    → IsCoalesced m cells
    → cells ≡ pre ++ (s, false) ∷ post
    → ((a : ℕ) × (m' : Naive) × (cells' : List Cell) × (alloc_memory size m ≡ some (a, m'))
        × IsCoalesced m' cells')
      × ((cells' : List Cell) × IsCoalesced (free_memory (address m pre + 24) m) cells')
alloc_memory-IsCoalesced size m cells pre s post h v e =
    let (m', run, first, v') = alloc_memory-first_fit size m cells h v.0 in
    let w = subst (IsCoalesced m) e v in
    (
      (
        _,
        m',
        allocated (align size) cells,
        run,
        (v', allocated-IsTidy (align size) m.first_block cells v.1),
      ),
      (
        attach pre (join_next ((s, true) ∷ post)),
        (free_memory-join_next m pre s post w.0, freed-IsTidy pre s post w.1),
      ),
    )
