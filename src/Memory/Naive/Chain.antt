-- ===== src/Memory/Naive/Chain.antt =====
-- The list of blocks of Kernel/memory/naiveManager.c as a list of cells that lie one behind the other.
use tp2_sistemas_operativos.Prelude.{
  ℕ, ◌+◌, ◌≤◌, ◌<◌, ◌≡◌, ◌≢◌, refl, sym, ap, subst, ◌∙◌, arith, List, [], ◌∷◌, ◌++◌, Bool,
}
use tp2_sistemas_operativos.Memory.Naive.{Block}

-- The size of a block and whether it is free.
abbrev pub Cell : Type 0
Cell = ℕ × Bool

-- The bytes that the blocks take, with their headers.
abbrev pub total : List Cell → ℕ
total [] = 0
total (c ∷ cs) = 24 + c.0 + total cs

-- The header at `a`, behind the block `before`.
pub record IsBlock (x : Block) (before : ℕ) (c : Cell) : Type 0 where
  pub size : x.size ≡ c.0
  pub free : x.free ≡ c.1
  pub prev : x.prev ≡ before

-- From the pointer `p` to the block at `a` on, the blocks are those of the list, each behind the other
-- and linked both ways, up to the address `stop`, where the list ends.
abbrev pub Chain : (ℕ → Block) → ℕ → ℕ → ℕ → List Cell → ℕ → Type 0
Chain f before p a [] stop = (p ≡ 0) × (a ≡ stop)
Chain f before p a (c ∷ cs) stop =
    (p ≡ a) × IsBlock (f a) before c × Chain f a (f a).next (a + 24 + c.0) cs stop

-- The same for a part of the list, from the block behind `before` to the block `last`, whose pointer
-- is `q`.
abbrev pub Part : (ℕ → Block) → ℕ → ℕ → ℕ → List Cell → ℕ → ℕ → ℕ → Type 0
Part f before p a [] last q stop = (before ≡ last) × (p ≡ q) × (a ≡ stop)
Part f before p a (c ∷ cs) last q stop =
    (p ≡ a) × IsBlock (f a) before c × Part f a (f a).next (a + 24 + c.0) cs last q stop

pub Chain-total :
    (f : ℕ → Block) (before p a : ℕ) (cs : List Cell) (stop : ℕ)
    → Chain f before p a cs stop
    → a + total cs ≡ stop
Chain-total f before p a [] stop h = omega (arith, h.1)
Chain-total f before p a (c ∷ cs) stop h =
    omega (arith, Chain-total f a (f a).next (a + 24 + c.0) cs stop h.2)

pub Chain-split :
    (f : ℕ → Block) (before p a : ℕ) (xs ys : List Cell) (stop : ℕ)
    → Chain f before p a (xs ++ ys) stop
    → (last q : ℕ) × Part f before p a xs last q (a + total xs)
      × Chain f last q (a + total xs) ys stop
Chain-split f before p a [] ys stop h =
    (before, p, (refl, refl, omega arith), subst (λ b. Chain f before p b ys stop) (omega arith) h)
Chain-split f before p a (c ∷ cs) ys stop h =
    let (last, q, part, rest) = Chain-split f a (f a).next (a + 24 + c.0) cs ys stop h.2 in
    let same : a + 24 + c.0 + total cs ≡ a + (24 + c.0 + total cs) = omega arith in
    (
      last,
      q,
      (h.0, h.1, subst (λ b. Part f a (f a).next (a + 24 + c.0) cs last q b) same part),
      subst (λ b. Chain f last q b ys stop) same rest,
    )

pub Chain-join :
    (f : ℕ → Block) (before p a : ℕ) (xs ys : List Cell) (last q b stop : ℕ)
    → Part f before p a xs last q b
    → Chain f last q b ys stop
    → Chain f before p a (xs ++ ys) stop
Chain-join f before p a [] ys last q b stop h t = rw (h.0, h.1, h.2) t
Chain-join f before p a (c ∷ cs) ys last q b stop h t =
    (h.0, h.1, Chain-join f a (f a).next (a + 24 + c.0) cs ys last q b stop h.2 t)

Part-total :
    (f : ℕ → Block) (before p a : ℕ) (cs : List Cell) (last q stop : ℕ)
    → Part f before p a cs last q stop
    → a + total cs ≡ stop
Part-total f before p a [] last q stop h = omega (arith, h.2)
Part-total f before p a (c ∷ cs) last q stop h =
    omega (arith, Part-total f a (f a).next (a + 24 + c.0) cs last q stop h.2)

-- A change at or behind the end of a part leaves it as it is.
pub Part-before :
    (f f' : ℕ → Block) (before p a : ℕ) (cs : List Cell) (last q stop : ℕ)
    → ((j : ℕ) → j < stop → f' j ≡ f j)
    → Part f before p a cs last q stop
    → Part f' before p a cs last q stop
Part-before f f' before p a [] last q stop same h = h
Part-before f f' before p a (c ∷ cs) last q stop same h =
    let e = same a (omega (arith, Part-total f before p a (c ∷ cs) last q stop h)) in
    (
      h.0,
      subst (λ x. IsBlock x before c) (sym e) h.1,
      subst (λ x. Part f' a x.next (a + 24 + c.0) cs last q stop) (sym e)
          (Part-before f f' a (f a).next (a + 24 + c.0) cs last q stop same h.2),
    )

pub Chain-same :
    (f f' : ℕ → Block) (before p a : ℕ) (cs : List Cell) (stop : ℕ)
    → ((j : ℕ) → a ≤ j → f' j ≡ f j)
    → Chain f before p a cs stop
    → Chain f' before p a cs stop
Chain-same f f' before p a [] stop same h = h
Chain-same f f' before p a (c ∷ cs) stop same h =
    let e = same a (omega arith) in
    (
      h.0,
      subst (λ x. IsBlock x before c) (sym e) h.1,
      subst (λ x. Chain f' a x.next (a + 24 + c.0) cs stop) (sym e)
          (Chain-same f f' a (f a).next (a + 24 + c.0) cs stop (λ j lt. same j (omega arith)) h.2),
    )

-- A change before the second block behind `a`, but for the link back from the first, likewise.
pub Chain-behind :
    (f f' : ℕ → Block) (before before' p a : ℕ) (cs : List Cell) (stop : ℕ)
    → ((j : ℕ) → a < j → f' j ≡ f j)
    → (p ≢ 0 → f' a ≡ record (f a) { prev = before' })
    → 0 < a
    → Chain f before p a cs stop
    → Chain f' before' p a cs stop
Chain-behind f f' before before' p a [] stop same first pos h = h
Chain-behind f f' before before' p a (c ∷ cs) stop same first pos h =
    let e = first (λ z. absurd (omega (arith, h.0))) in
    (
      h.0,
      record {
        size = ap (λ x. x.size) e ∙ h.1.size;
        free = ap (λ x. x.free) e ∙ h.1.free;
        prev = ap (λ x. x.prev) e;
      },
      subst (λ n. Chain f' a n (a + 24 + c.0) cs stop) (sym (ap (λ x. x.next) e))
          (Chain-same f f' a (f a).next (a + 24 + c.0) cs stop (λ j lt. same j (omega arith)) h.2),
    )

-- A pointer of the list is NULL or that of the block behind.
pub Chain-pointer :
    (f : ℕ → Block) (before p a : ℕ) (cs : List Cell) (stop : ℕ)
    → Chain f before p a cs stop
    → p ≢ 0
    → p ≡ a
Chain-pointer f before p a [] stop h n = absurd (n h.0)
Chain-pointer f before p a (c ∷ cs) stop h n = h.0
