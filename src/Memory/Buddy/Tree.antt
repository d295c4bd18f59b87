-- ===== src/Memory/Buddy/Tree.antt =====
-- The abstract buddy system: a tree whose leaves are free areas and blocks in use.
-- It is the specification of `alloc_rec` and `free_rec` of Kernel/memory/buddyManager.c.
pub mod Blocks
pub mod Laws
pub mod Room
pub mod Release
use tp2_sistemas_operativos.Prelude.{
  ℕ, zero, suc, ◌+◌, ◌^◌, ◌≤◌, Option, none, some, List, [], ◌∷◌, ◌++◌, ltb, ◌==◌, if◌then◌else◌,
  ◌≡◌, ◌⊎◌,
}

pub data Tree : Type 0 where
  area : Tree
  block : Tree
  node : Tree → Tree → Tree

-- A block: its offset in the pool, and its order.
abbrev pub Block : Type 0
Block = ℕ × ℕ

-- The blocks in use, by rising address.
unfoldable pub blocks : ℕ → ℕ → Tree → List Block
blocks order start area = []
blocks order start block = (start, order) ∷ []
blocks zero start (node l r) = []
blocks (suc o) start (node l r) = blocks o start l ++ blocks o (start + 2 ^ o) r

-- Two free halves are one free area.
unfoldable pub join : Tree → Tree → Tree
join area area = area
join l r = node l r

unfoldable pub join_left : Tree → Option (ℕ × Tree) → Option (ℕ × Tree)
join_left r none = none
join_left r (some (x, l)) = some (x, node l r)

unfoldable pub join_right : Tree → Option (ℕ × Tree) → Option (ℕ × Tree)
join_right l none = none
join_right l (some (x, r)) = some (x, node l r)

unfoldable pub or_else {ℓ} : {A : Type ℓ} → Option A → Option A → Option A
or_else (some a) b = some a
or_else none b = b

-- First fit from the left for a block of order `want`.
unfoldable pub alloc_tree : ℕ → ℕ → ℕ → Tree → Option (ℕ × Tree)
alloc_tree want order start block = none
alloc_tree want zero start area = if 0 == want then some (start, block) else none
alloc_tree want zero start (node l r) = none
alloc_tree want (suc o) start area =
    let halved = join_left area (alloc_tree want o start area) in
    if suc o == want then some (start, block) else halved
alloc_tree want (suc o) start (node l r) =
    let halved =
      or_else (join_left r (alloc_tree want o start l))
        (join_right l (alloc_tree want o (start + 2 ^ o) r)) in
    if suc o == want then none else halved

-- Removes the block of order `gone` at the offset `target`.
unfoldable pub free_tree : ℕ → ℕ → ℕ → ℕ → Tree → Tree
free_tree gone target order start area = area
free_tree gone target order start block = area
free_tree gone target zero start (node l r) = area
free_tree gone target (suc o) start (node l r) =
    if ltb target (start + 2 ^ o)
    then join (free_tree gone target o start l) r
    else join l (free_tree gone target o (start + 2 ^ o) r)

-- The largest free area has order at least `want`.
unfoldable pub HasRoom : ℕ → ℕ → Tree → Type 0
HasRoom want order area = want ≤ order
HasRoom want order block = ⊥
HasRoom want zero (node l r) = ⊥
HasRoom want (suc o) (node l r) = HasRoom want o l ⊎ HasRoom want o r

-- No halves that are both free: every free area is as large as it can be.
unfoldable pub IsMerged : ℕ → Tree → Type 0
IsMerged order area = Unit {0}
IsMerged order block = Unit {0}
IsMerged zero (node l r) = ⊥
IsMerged (suc o) (node l r) = IsMerged o l × IsMerged o r × (l ≡ area → r ≡ area → ⊥)

-- The block `(target, gone)` is in use in the tree.
unfoldable pub HasBlock : ℕ → ℕ → ℕ → ℕ → Tree → Type 0
HasBlock gone target order start area = ⊥
HasBlock gone target order start block = (gone ≡ order) × (target ≡ start)
HasBlock gone target zero start (node l r) = ⊥
HasBlock gone target (suc o) start (node l r) =
    HasBlock gone target o start l ⊎ HasBlock gone target o (start + 2 ^ o) r
