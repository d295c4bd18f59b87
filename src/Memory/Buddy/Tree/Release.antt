-- ===== src/Memory/Buddy/Tree/Release.antt =====
-- Release in the abstract buddy system, and the invariant that no free halves stay apart.
use tp2_sistemas_operativos.Prelude.{
  ℕ, zero, suc, ◌+◌, ◌^◌, ◌≡◌, inl, inr, refl, sym, ap, ◌∙◌, List, [], ◌∷◌, ◌++◌, append_assoc,
  arith, Option, none, some, true, false, ◌==◌, Bool-cases, ltb,
}
use tp2_sistemas_operativos.Memory.Powers.{two_pow_pos}
use tp2_sistemas_operativos.Memory.Buddy.Tree.{
  Tree, area, block, node, Block, blocks, HasBlock, join, join_left, join_right, or_else,
  alloc_tree, free_tree, IsMerged,
}
use tp2_sistemas_operativos.Memory.Buddy.Tree.Blocks.{HasBlock-bounds}
use tp2_sistemas_operativos.Memory.Buddy.Tree.Laws.{alloc_tree-Added, or_else-none}

blocks-join :
    (o start : ℕ) (l r : Tree) → blocks (suc o) start (join l r) ≡ blocks (suc o) start (node l r)
unfolding blocks join
blocks-join o start area area = refl
blocks-join o start area block = refl
blocks-join o start area (node x y) = refl
blocks-join o start block r = refl
blocks-join o start (node x y) r = refl

-- `t'` has the blocks of `t` without `(target, gone)`.
pub record Removed (gone order start target : ℕ) (t t' : Tree) : Type 0 where
  pub before : List Block
  pub after : List Block
  pub old : blocks order start t ≡ before ++ ((target, gone) ∷ after)
  pub new : blocks order start t' ≡ before ++ after

Removed-left :
    (gone o start target : ℕ) (l r l' : Tree)
    → Removed gone o start target l l'
    → Removed gone (suc o) start target (node l r) (join l' r)
unfolding blocks
Removed-left gone o start target l r l' ih = record {
  before = ih.before;
  after = ih.after ++ blocks o (start + 2 ^ o) r;
  old = ap (λ bs. bs ++ blocks o (start + 2 ^ o) r) ih.old ∙ append_assoc ih.before _ _;
  new =
      blocks-join o start l' r
      ∙ (ap (λ bs. bs ++ blocks o (start + 2 ^ o) r) ih.new ∙ append_assoc ih.before _ _);
}

Removed-right :
    (gone o start target : ℕ) (l r r' : Tree)
    → Removed gone o (start + 2 ^ o) target r r'
    → Removed gone (suc o) start target (node l r) (join l r')
unfolding blocks
Removed-right gone o start target l r r' ih = record {
  before = blocks o start l ++ ih.before;
  after = ih.after;
  old = ap (λ bs. blocks o start l ++ bs) ih.old ∙ sym (append_assoc (blocks o start l) _ _);
  new =
      blocks-join o start l r'
      ∙ (ap (λ bs. blocks o start l ++ bs) ih.new ∙ sym (append_assoc (blocks o start l) _ _));
}

-- On which side of the middle a block lies.
pub left_side :
    (gone target o start : ℕ) (t : Tree)
    → HasBlock gone target o start t
    → ltb target (start + 2 ^ o) ≡ true
left_side gone target o start t h =
    ground (arith, HasBlock-bounds gone target o start t h, two_pow_pos gone)

pub right_side :
    (gone target o start : ℕ) (t : Tree)
    → HasBlock gone target o (start + 2 ^ o) t
    → ltb target (start + 2 ^ o) ≡ false
right_side gone target o start t h =
    ground (arith, HasBlock-bounds gone target o (start + 2 ^ o) t h)

-- Release removes the block that it names, and changes no other.
pub free_tree-Removed :
    (gone target order start : ℕ) (t : Tree)
    → HasBlock gone target order start t
    → Removed gone order start target t (free_tree gone target order start t)
unfolding HasBlock free_tree blocks
free_tree-Removed gone target order start area h = absurd h
free_tree-Removed gone target order start block (e, f) = record {
  before = [];
  after = [];
  old = ground arith;
  new = refl;
}
free_tree-Removed gone target zero start (node l r) h = absurd h
free_tree-Removed gone target (suc o) start (node l r) (inl h) =
    rw (left_side gone target o start l h)
      (Removed-left gone o start target l r _ (free_tree-Removed gone target o start l h))
free_tree-Removed gone target (suc o) start (node l r) (inr h) =
    rw (right_side gone target o start r h) (
      Removed-right gone o start target l r _ (free_tree-Removed gone target o (start + 2 ^ o) r h))

join-IsMerged : (o : ℕ) (l r : Tree) → IsMerged o l → IsMerged o r → IsMerged (suc o) (join l r)
unfolding IsMerged join
join-IsMerged o area area x y = tt
join-IsMerged o area block x y = (x, y, λ p q. cc q)
join-IsMerged o area (node c d) x y = (x, y, λ p q. cc q)
join-IsMerged o block r x y = (x, y, λ p q. cc p)
join-IsMerged o (node c d) r x y = (x, y, λ p q. cc p)

-- Release merges the free halves that it leaves.
pub free_tree-IsMerged :
    (gone target order start : ℕ) (t : Tree)
    → IsMerged order t
    → IsMerged order (free_tree gone target order start t)
unfolding free_tree IsMerged
free_tree-IsMerged gone target order start area g = tt
free_tree-IsMerged gone target order start block g = tt
free_tree-IsMerged gone target zero start (node l r) g = absurd g
free_tree-IsMerged gone target (suc o) start (node l r) g =
    elim (Bool-cases (ltb target (start + 2 ^ o))) [
      | inl q ↦ rw q (join-IsMerged o _ r (free_tree-IsMerged gone target o start l g.0) g.1)
      | inr q ↦
          rw q (join-IsMerged o l _ g.0 (free_tree-IsMerged gone target o (start + 2 ^ o) r g.1))
    ]

IsMerged-halves :
    (want o start : ℕ) (l r : Tree) (p q : Option (ℕ × Tree)) (x : ℕ) (t' : Tree)
    → IsMerged o l
    → IsMerged o r
    → ((y : ℕ) (l' : Tree) → p ≡ some (y, l') → IsMerged o l' × (l' ≡ area → ⊥))
    → ((y : ℕ) (r' : Tree) → q ≡ some (y, r') → IsMerged o r' × (r' ≡ area → ⊥))
    → or_else (join_left r p) (join_right l q) ≡ some (x, t')
    → IsMerged (suc o) t'
unfolding or_else join_left join_right IsMerged
IsMerged-halves want o start l r (some (y, l')) q x t' gl gr fl fr e =
    rw (← same) ((fl y l' refl).0, gr, λ a b. (fl y l' refl).1 a)
  where
    same : node l' r ≡ t'
    same = ground arith
IsMerged-halves want o start l r none (some (y, r')) x t' gl gr fl fr e =
    rw (← same) (gl, (fr y r' refl).0, λ a b. (fr y r' refl).1 b)
  where
    same : node l r' ≡ t'
    same = ground arith
IsMerged-halves want o start l r none none x t' gl gr fl fr e = cc e

taken :
    (want order start : ℕ) (t : Tree) (x : ℕ) (t' : Tree)
    → alloc_tree want order start t ≡ some (x, t')
    → t' ≡ area
    → ⊥
unfolding HasBlock
taken want order start t x area e q = (alloc_tree-Added want order start t x area e).held
taken want order start t x block e q = cc q
taken want order start t x (node l r) e q = cc q

whole :
    (order start x : ℕ) (t' : Tree)
    → ◌≡◌ {A = Option (ℕ × Tree)} (some (start, block)) (some (x, t'))
    → IsMerged order t'
unfolding IsMerged
whole order start x t' e = rw (← same) tt
  where
    same : block ≡ t'
    same = ground arith

-- Allocation divides a free area only on the way to the block that it takes.
pub alloc_tree-IsMerged :
    (want order start : ℕ) (t : Tree) (x : ℕ) (t' : Tree)
    → alloc_tree want order start t ≡ some (x, t')
    → IsMerged order t
    → IsMerged order t'
unfolding alloc_tree IsMerged join_right
alloc_tree-IsMerged want order start block x t' e g = cc e
alloc_tree-IsMerged want zero start area x t' e g = elim (Bool-cases (0 == want)) [
  | inl q ↦ whole zero start x t' (rw q at e)
  | inr q ↦ cc (rw q at e)
]
alloc_tree-IsMerged want zero start (node l r) x t' e g = cc e
alloc_tree-IsMerged want (suc o) start area x t' e g = elim (Bool-cases (suc o == want)) [
  | inl q ↦ whole (suc o) start x t' (rw q at e)
  | inr q ↦
      IsMerged-halves want o start area area (alloc_tree want o start area) none x t' tt tt
        (λ y l' h.
          (alloc_tree-IsMerged want o start area y l' h tt, taken want o start area y l' h))
        (λ y r' h. cc h) (or_else-none _ ∙ (rw q at e))
]
alloc_tree-IsMerged want (suc o) start (node l r) x t' e g = elim (Bool-cases (suc o == want)) [
  | inl q ↦ cc (rw q at e)
  | inr q ↦
      IsMerged-halves want o start l r (alloc_tree want o start l)
        (alloc_tree want o (start + 2 ^ o) r) x t' g.0 g.1
        (λ y l' h. (alloc_tree-IsMerged want o start l y l' h g.0, taken want o start l y l' h))
        (λ y r' h. (
          alloc_tree-IsMerged want o (start + 2 ^ o) r y r' h g.1,
          taken want o (start + 2 ^ o) r y r' h,
        ))
        (rw q at e)
]
