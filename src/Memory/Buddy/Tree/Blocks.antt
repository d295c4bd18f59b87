-- ===== src/Memory/Buddy/Tree/Blocks.antt =====
-- The blocks in use of the abstract buddy system: where they lie, and their sums.
use tp2_sistemas_operativos.Prelude.{
  ℕ, zero, suc, ◌+◌, ◌^◌, ◌≤◌, ◌≡◌, inl, inr, ap, subst, List, [], ◌∷◌, ◌++◌, arith,
}
use tp2_sistemas_operativos.Memory.Powers.{two_pow_suc}
use tp2_sistemas_operativos.Memory.Buddy.Tree.{Tree, area, block, node, Block, blocks, HasBlock}

-- The blocks lie in `[lo, hi)` one after the other, so no two of them overlap.
abbrev pub Apart : ℕ → ℕ → List Block → Type 0
Apart lo hi [] = lo ≤ hi
Apart lo hi ((x, k) ∷ bs) = (lo ≤ x) × Apart (x + 2 ^ k) hi bs

Apart-append :
    (lo mid hi : ℕ) (cs bs : List Block)
    → Apart lo mid cs
    → Apart mid hi bs
    → Apart lo hi (cs ++ bs)
Apart-append lo mid hi [] [] a b = omega arith
Apart-append lo mid hi [] ((x, k) ∷ bs) a b = (omega arith, b.1)
Apart-append lo mid hi ((x, k) ∷ cs) bs a b = (a.0, Apart-append (x + 2 ^ k) mid hi cs bs a.1 b)

pub blocks-Apart :
    (order start : ℕ) (t : Tree) → Apart start (start + 2 ^ order) (blocks order start t)
unfolding blocks
blocks-Apart order start area = omega arith
blocks-Apart order start block = omega arith
blocks-Apart zero start (node l r) = omega arith
blocks-Apart (suc o) start (node l r) =
    Apart-append start (start + 2 ^ o) (start + 2 ^ suc o) (blocks o start l) _
      (blocks-Apart o start l)
      (subst (λ hi. Apart (start + 2 ^ o) hi (blocks o (start + 2 ^ o) r)) sums
        (blocks-Apart o (start + 2 ^ o) r))
  where
    sums : start + 2 ^ o + 2 ^ o ≡ start + 2 ^ suc o
    sums = omega (arith, two_pow_suc o)

-- A block in use lies inside the area of its tree.
pub HasBlock-bounds :
    (gone target order start : ℕ) (t : Tree)
    → HasBlock gone target order start t
    → (gone ≤ order) × (start ≤ target) × (target + 2 ^ gone ≤ start + 2 ^ order)
unfolding HasBlock
HasBlock-bounds gone target order start area b = absurd b
HasBlock-bounds gone target order start block (e, f) =
    (omega arith, omega arith, omega (arith, ap (λ k. 2 ^ k) e))
HasBlock-bounds gone target zero start (node l r) b = absurd b
HasBlock-bounds gone target (suc o) start (node l r) (inl b) =
    omega (arith, HasBlock-bounds gone target o start l b, two_pow_suc o)
HasBlock-bounds gone target (suc o) start (node l r) (inr b) =
    omega (arith, HasBlock-bounds gone target o (start + 2 ^ o) r b, two_pow_suc o)
