-- ===== src/Memory/Buddy/Tree/Room.antt =====
-- When the abstract first fit succeeds, that release undoes allocation, and that no two free
-- halves are ever left apart.
use tp2_sistemas_operativos.Prelude.{
  ℕ, zero, suc, ◌+◌, ◌^◌, ◌≤◌, ◌≡◌, inl, inr, refl, ◌∙◌, arith, Option, none, some, true, false,
  ◌==◌, ==_iff, Bool-cases, ltb,
}
use tp2_sistemas_operativos.Memory.Powers.{two_pow_pos}
use tp2_sistemas_operativos.Memory.Buddy.Tree.{
  Tree, area, block, node, HasBlock, join, join_left, join_right, or_else, alloc_tree, free_tree,
  HasRoom, IsMerged,
}
use tp2_sistemas_operativos.Memory.Buddy.Tree.Blocks.{HasBlock-bounds}
use tp2_sistemas_operativos.Memory.Buddy.Tree.Laws.{alloc_tree-Added, or_else-none}

or_else-none_inv :
    (l r : Tree) (p q : Option (ℕ × Tree))
    → or_else (join_left r p) (join_right l q) ≡ none
    → (p ≡ none) × (q ≡ none)
unfolding or_else join_left join_right
or_else-none_inv l r none none e = (refl, refl)
or_else-none_inv l r none (some b) e = cc e
or_else-none_inv l r (some a) q e = cc e

pub HasRoom-le : (want order : ℕ) (t : Tree) → HasRoom want order t → want ≤ order
unfolding HasRoom
HasRoom-le want order area h = h
HasRoom-le want order block h = absurd h
HasRoom-le want zero (node l r) h = absurd h
HasRoom-le want (suc o) (node l r) (inl h) = omega (arith, HasRoom-le want o l h)
HasRoom-le want (suc o) (node l r) (inr h) = omega (arith, HasRoom-le want o r h)

-- Where the first fit fails, no free area is as large as the block asked for.
pub alloc_tree-no_room :
    (want order start : ℕ) (t : Tree)
    → alloc_tree want order start t ≡ none
    → HasRoom want order t
    → ⊥
unfolding alloc_tree HasRoom join_left
alloc_tree-no_room want order start block e room = room
alloc_tree-no_room want zero start area e room = ground arith
alloc_tree-no_room want zero start (node l r) e room = room
alloc_tree-no_room want (suc o) start area e room = elim (Bool-cases (suc o == want)) [
  | inl q ↦ cc (rw q at e)
  | inr q ↦ alloc_tree-no_room want o start area (left_none _ (rw q at e)) (ground arith)
]
  where
    left_none : (p : Option (ℕ × Tree)) → join_left area p ≡ none → p ≡ none
    left_none none h = refl
    left_none (some a) h = cc h
alloc_tree-no_room want (suc o) start (node l r) e room = elim (Bool-cases (suc o == want)) [
  | inl q ↦ elim room [
    | inl h ↦ too_large (HasRoom-le want o l h) ((==_iff _ _).0 q)
    | inr h ↦ too_large (HasRoom-le want o r h) ((==_iff _ _).0 q)
  ]
  | inr q ↦
      let both = or_else-none_inv l r _ _ (rw q at e) in
      elim room [
        | inl h ↦ alloc_tree-no_room want o start l both.0 h
        | inr h ↦ alloc_tree-no_room want o (start + 2 ^ o) r both.1 h
      ]
]
  where
    too_large : want ≤ o → suc o ≡ want → ⊥
    too_large h e = omega arith

-- Release of the block that an allocation gave restores the tree, where no free halves stood
-- apart before.
join_apart : (l r : Tree) → (l ≡ area → r ≡ area → ⊥) → join l r ≡ node l r
unfolding join
join_apart area area h = absurd (h refl refl)
join_apart area block h = refl
join_apart area (node x y) h = refl
join_apart block r h = refl
join_apart (node x y) r h = refl

module _ (want x o start : ℕ) where
  free_left :
      (l l' r : Tree)
      → HasBlock want x o start l'
      → free_tree want x o start l' ≡ l
      → free_tree want x (suc o) start (node l' r) ≡ join l r
  unfolding free_tree
  free_left l l' r held e = rw (inside, e) refl
    where
      inside : ltb x (start + 2 ^ o) ≡ true
      inside = ground (arith, HasBlock-bounds want x o start l' held, two_pow_pos want)

  free_right :
      (l r r' : Tree)
      → HasBlock want x o (start + 2 ^ o) r'
      → free_tree want x o (start + 2 ^ o) r' ≡ r
      → free_tree want x (suc o) start (node l r') ≡ join l r
  unfolding free_tree
  free_right l r r' held e = rw (outside, e) refl
    where
      outside : ltb x (start + 2 ^ o) ≡ false
      outside = ground (arith, HasBlock-bounds want x o (start + 2 ^ o) r' held)

free-halves :
    (want o start : ℕ) (l r : Tree) (p q : Option (ℕ × Tree)) (x : ℕ) (t' : Tree)
    → ((y : ℕ) (l' : Tree)
        → p ≡ some (y, l')
        → HasBlock want y o start l' × (free_tree want y o start l' ≡ l))
    → ((y : ℕ) (r' : Tree)
        → q ≡ some (y, r')
        → HasBlock want y o (start + 2 ^ o) r' × (free_tree want y o (start + 2 ^ o) r' ≡ r))
    → or_else (join_left r p) (join_right l q) ≡ some (x, t')
    → free_tree want x (suc o) start t' ≡ join l r
unfolding or_else join_left join_right
free-halves want o start l r (some (y, l')) q x t' fl fr e =
    rw (← same.0, ← same.1) (free_left want y o start l l' r (fl y l' refl).0 (fl y l' refl).1)
  where
    same : (y ≡ x) × (node l' r ≡ t')
    same = (ground arith, ground arith)
free-halves want o start l r none (some (y, r')) x t' fl fr e =
    rw (← same.0, ← same.1) (free_right want y o start l r r' (fr y r' refl).0 (fr y r' refl).1)
  where
    same : (y ≡ x) × (node l r' ≡ t')
    same = (ground arith, ground arith)
free-halves want o start l r none none x t' fl fr e = cc e

free-whole :
    (want order start x : ℕ) (t' : Tree)
    → ◌≡◌ {A = Option (ℕ × Tree)} (some (start, block)) (some (x, t'))
    → free_tree want x order start t' ≡ area
unfolding free_tree
free-whole want order start x t' e = rw (← same) refl
  where
    same : block ≡ t'
    same = ground arith

pub free_tree-alloc_tree :
    (want order start : ℕ) (t : Tree) (x : ℕ) (t' : Tree)
    → alloc_tree want order start t ≡ some (x, t')
    → IsMerged order t
    → free_tree want x order start t' ≡ t
unfolding alloc_tree IsMerged join_right join
free_tree-alloc_tree want order start block x t' e g = cc e
free_tree-alloc_tree want zero start area x t' e g = elim (Bool-cases (0 == want)) [
  | inl q ↦ free-whole want zero start x t' (rw q at e)
  | inr q ↦ cc (rw q at e)
]
free_tree-alloc_tree want zero start (node l r) x t' e g = cc e
free_tree-alloc_tree want (suc o) start area x t' e g = elim (Bool-cases (suc o == want)) [
  | inl q ↦ free-whole want (suc o) start x t' (rw q at e)
  | inr q ↦
      free-halves want o start area area (alloc_tree want o start area) none x t'
        (λ y l' h. (
          (alloc_tree-Added want o start area y l' h).held,
          free_tree-alloc_tree want o start area y l' h tt,
        ))
        (λ y r' h. cc h) (or_else-none _ ∙ (rw q at e))
]
free_tree-alloc_tree want (suc o) start (node l r) x t' e g = elim (Bool-cases (suc o == want)) [
  | inl q ↦ cc (rw q at e)
  | inr q ↦
      free-halves want o start l r (alloc_tree want o start l) (alloc_tree want o (start + 2 ^ o) r)
        x t'
        (λ y l' h. (
          (alloc_tree-Added want o start l y l' h).held,
          free_tree-alloc_tree want o start l y l' h g.0,
        ))
        (λ y r' h. (
          (alloc_tree-Added want o (start + 2 ^ o) r y r' h).held,
          free_tree-alloc_tree want o (start + 2 ^ o) r y r' h g.1,
        ))
        (rw q at e)
      ∙ join_apart l r g.2
]
