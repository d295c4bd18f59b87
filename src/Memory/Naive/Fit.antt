-- ===== src/Memory/Naive/Fit.antt =====
-- Kernel/memory/naiveManager.c: the search of `findSuitableBlock`, and what `allocMemory` does to the
-- cells.
use tp2_sistemas_operativos.Prelude.{
  ℕ, zero, suc, ◌+◌, ◌-◌, ◌≤◌, ◌<◌, ◌≡◌, ◌⊎◌, inl, inr, refl, ap, ◌∙◌, arith, List, [], ◌∷◌, ◌++◌,
  some, Bool, true, false, ◌&&◌, leb, ◌==◌, if◌then◌else◌, length, Bool-cases,
}
use tp2_sistemas_operativos.Memory.Naive.{Naive, find_from, find_suitable_block}
use tp2_sistemas_operativos.Memory.Naive.Chain.{Cell, total, Chain, Chain-total}
use tp2_sistemas_operativos.Memory.Naive.Valid.{IsValid}

-- A free cell with at least `req` bytes.
abbrev pub fits : ℕ → Cell → Bool
fits req c = c.1 && leb req c.0

-- The address of the first cell that fits, where the cells start at `a`; 0 if there is none.
abbrev pub first_fit : ℕ → ℕ → List Cell → ℕ
first_fit req a [] = 0
first_fit req a (c ∷ cs) = if fits req c then a else first_fit req (a + 24 + c.0) cs

-- What becomes of a cell that is taken: a remainder of 8 bytes or more is a cell of its own.
abbrev pub carved : ℕ → ℕ → List Cell
carved req s =
    if leb (req + 32) s then (req, false) ∷ (s - req - 24, true) ∷ [] else (s, false) ∷ []

abbrev pub allocated : ℕ → List Cell → List Cell
allocated req [] = []
allocated req (c ∷ cs) = if fits req c then carved req c.0 ++ cs else c ∷ allocated req cs

find_from-first_fit :
    (fuel req before p a : ℕ) (m : Naive) (cs : List Cell) (stop : ℕ)
    → length cs < fuel
    → 0 < a
    → Chain m.blocks before p a cs stop
    → find_from fuel p req m ≡ some (first_fit req a cs)
unfolding find_from
find_from-first_fit zero req before p a m cs stop lt pos h = absurd (omega arith)
find_from-first_fit (suc fuel) req before p a m [] stop lt pos h = rw h.0 refl
find_from-first_fit (suc fuel) req before p a m (c ∷ cs) stop lt pos h =
    let rest =
      find_from-first_fit fuel req a (m.blocks a).next (a + 24 + c.0) m cs stop (omega arith)
        (omega arith) h.2 in
    rw (h.0, nonzero, h.1.free, h.1.size, rest) (by_cases (fits req c))
  where
    nonzero : (a == 0) ≡ false
    nonzero = ground arith

    by_cases :
        (t : Bool)
        → (if t then some a else some (first_fit req (a + 24 + c.0) cs))
          ≡ some (if t then a else first_fit req (a + 24 + c.0) cs)
    by_cases true = refl
    by_cases false = refl

length-le-total : (cs : List Cell) → length cs ≤ total cs
length-le-total [] = omega arith
length-le-total (c ∷ cs) = omega (arith, length-le-total cs)

-- The walk has enough fuel, and finds the first cell that fits.
pub find_suitable_block-first_fit :
    (req : ℕ) (m : Naive) (cs : List Cell)
    → IsValid m cs
    → find_suitable_block req m ≡ some (first_fit req m.first_block cs)
unfolding find_suitable_block
find_suitable_block-first_fit req m cs v =
    find_from-first_fit (suc m.memory_pool_size) req 0 m.first_block m.first_block m cs _
      (omega (
        arith,
        length-le-total cs,
        Chain-total m.blocks 0 m.first_block m.first_block cs _ v.chain,
      ))
      v.pos v.chain

-- Either no cell fits, or the first one that does stands behind the cells `pre`.
abbrev pub Found : ℕ → ℕ → List Cell → Type 0
Found req a cs =
    (pre : List Cell) × (s : ℕ) × (post : List Cell) × (cs ≡ pre ++ (s, true) ∷ post)
    × (req ≤ s)
    × (first_fit req a cs ≡ a + total pre)
    × (allocated req cs ≡ pre ++ (carved req s ++ post))

abbrev pub NoFit : ℕ → ℕ → List Cell → Type 0
NoFit req a cs = (first_fit req a cs ≡ 0) × (allocated req cs ≡ cs)

first_fit-here :
    (req a s : ℕ) (free : Bool) (cs : List Cell)
    → fits req (s, free) ≡ true
    → Found req a ((s, free) ∷ cs)
first_fit-here req a s true cs h = (
  [],
  s,
  cs,
  refl,
  ground arith,
  ap (λ t. if t then a else first_fit req (a + 24 + s) cs) h ∙ omega arith,
  ap (λ t. if t then carved req s ++ cs else (s, true) ∷ allocated req cs) h,
)
first_fit-here req a s false cs h = absurd (cc h)

pub first_fit-cases : (req a : ℕ) (cs : List Cell) → NoFit req a cs ⊎ Found req a cs
first_fit-cases req a [] = inl (refl, refl)
first_fit-cases req a (c ∷ cs) = elim (Bool-cases (fits req c)) [
  | inl h ↦ inr (first_fit-here req a c.0 c.1 cs h)
  | inr h ↦ elim (first_fit-cases req (a + 24 + c.0) cs) [
    | inl (at, same) ↦ inl (not_here h ∙ at, kept h ∙ ap (λ xs. c ∷ xs) same)
    | inr (pre, s, post, e, le, at, same) ↦ inr (
      c ∷ pre,
      s,
      post,
      ap (λ xs. c ∷ xs) e,
      le,
      not_here h ∙ at ∙ omega arith,
      kept h ∙ ap (λ xs. c ∷ xs) same,
    )
  ]
]
  where
    not_here : fits req c ≡ false → first_fit req a (c ∷ cs) ≡ first_fit req (a + 24 + c.0) cs
    not_here h = ap (λ t. if t then a else first_fit req (a + 24 + c.0) cs) h

    kept : fits req c ≡ false → allocated req (c ∷ cs) ≡ c ∷ allocated req cs
    kept h = ap (λ t. if t then carved req c.0 ++ cs else c ∷ allocated req cs) h
