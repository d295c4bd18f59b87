-- ===== src/Memory/Buddy/Refine/Shape.antt =====
-- How the array `nodeState` holds a tree: node `i` has the children 2 i + 1 and 2 i + 2.
-- Subtrees at different indices do not share nodes, so a change inside one leaves the others.
use tp2_sistemas_operativos.Prelude.{
  ℕ, zero, suc, ◌+◌, ◌*◌, ◌≤◌, ◌<◌, ◌≡◌, ◌⊎◌, inl, inr, refl, ◌∙◌, arith, false, update, update_ne,
}
use tp2_sistemas_operativos.Memory.Buddy.{NodeState, free, split, full, is_free, Nodes}
use tp2_sistemas_operativos.Memory.Buddy.Tree.{Tree, area, block, node}

-- `j` is one of the nodes of the subtree of height `h` at `i`.
abbrev pub Sub : ℕ → ℕ → ℕ → Type 0
Sub zero i j = j ≡ i
Sub (suc h) i j = (j ≡ i) ⊎ (Sub h (2 * i + 1) j ⊎ Sub h (2 * i + 1 + 1) j)

abbrev pub AllFree : Nodes → ℕ → ℕ → Type 0
AllFree s zero i = s i ≡ free
AllFree s (suc h) i = (s i ≡ free) × AllFree s h (2 * i + 1) × AllFree s h (2 * i + 1 + 1)

abbrev pub Repr : Nodes → ℕ → ℕ → Tree → Type 0
Repr s h i area = AllFree s h i
Repr s zero i block = s i ≡ full
Repr s (suc h) i block = (s i ≡ full) × AllFree s h (2 * i + 1) × AllFree s h (2 * i + 1 + 1)
Repr s zero i (node l r) = ⊥
Repr s (suc h) i (node l r) = (s i ≡ split) × Repr s h (2 * i + 1) l × Repr s h (2 * i + 1 + 1) r

pub Sub-lower : (h i j : ℕ) → Sub h i j → i ≤ j
Sub-lower zero i j e = omega arith
Sub-lower (suc h) i j (inl e) = omega arith
Sub-lower (suc h) i j (inr (inl e)) = omega (arith, Sub-lower h (2 * i + 1) j e)
Sub-lower (suc h) i j (inr (inr e)) = omega (arith, Sub-lower h (2 * i + 1 + 1) j e)

-- Neither of `x` and `y` lies below the other if `x < y ≤ 2 x`.
Sub-disjoint : (h k x y j : ℕ) → x < y → y ≤ 2 * x → Sub h x j → Sub k y j → ⊥
Sub-disjoint zero k x y j lo hi a b = omega (arith, Sub-lower k y j b)
Sub-disjoint (suc h) k x y j lo hi (inl e) b = omega (arith, Sub-lower k y j b)
Sub-disjoint (suc h) zero x y j lo hi (inr (inl a)) b = omega (arith, Sub-lower h (2 * x + 1) j a)
Sub-disjoint (suc h) zero x y j lo hi (inr (inr a)) b =
    omega (arith, Sub-lower h (2 * x + 1 + 1) j a)
Sub-disjoint (suc h) (suc k) x y j lo hi (inr (inl a)) (inl e) =
    omega (arith, Sub-lower h (2 * x + 1) j a)
Sub-disjoint (suc h) (suc k) x y j lo hi (inr (inr a)) (inl e) =
    omega (arith, Sub-lower h (2 * x + 1 + 1) j a)
Sub-disjoint (suc h) (suc k) x y j lo hi (inr (inl a)) (inr (inl b)) =
    Sub-disjoint h k (2 * x + 1) (2 * y + 1) j (omega arith) (omega arith) a b
Sub-disjoint (suc h) (suc k) x y j lo hi (inr (inl a)) (inr (inr b)) =
    Sub-disjoint h k (2 * x + 1) (2 * y + 1 + 1) j (omega arith) (omega arith) a b
Sub-disjoint (suc h) (suc k) x y j lo hi (inr (inr a)) (inr (inl b)) =
    Sub-disjoint h k (2 * x + 1 + 1) (2 * y + 1) j (omega arith) (omega arith) a b
Sub-disjoint (suc h) (suc k) x y j lo hi (inr (inr a)) (inr (inr b)) =
    Sub-disjoint h k (2 * x + 1 + 1) (2 * y + 1 + 1) j (omega arith) (omega arith) a b

pub siblings_disjoint : (h k i j : ℕ) → Sub h (2 * i + 1) j → Sub k (2 * i + 1 + 1) j → ⊥
siblings_disjoint h k zero j a b = siblings_zero h k j a b
  where
    siblings_zero : (h k j : ℕ) → Sub h (2 * 0 + 1) j → Sub k (2 * 0 + 1 + 1) j → ⊥
    siblings_zero h k j a b = Sub-disjoint h k 1 2 j (omega arith) (omega arith) a b
siblings_disjoint h k (suc i) j a b =
    Sub-disjoint h k (2 * suc i + 1) (2 * suc i + 1 + 1) j (omega arith) (omega arith) a b

-- The two arrays agree on the subtree at `i`.
abbrev pub Agree : ℕ → ℕ → Nodes → Nodes → Type 0
Agree h i s u = (j : ℕ) → Sub h i j → u j ≡ s j

-- They agree outside it.
abbrev pub Outside : ℕ → ℕ → Nodes → Nodes → Type 0
Outside h i s u = (j : ℕ) → (Sub h i j → ⊥) → u j ≡ s j

pub Sub-root : (h i : ℕ) → Sub h i i
Sub-root zero i = refl
Sub-root (suc h) i = inl refl

pub AllFree-root : (s : Nodes) (h i : ℕ) → AllFree s h i → s i ≡ free
AllFree-root s zero i a = a
AllFree-root s (suc h) i a = a.0

pub AllFree-Agree : (s u : Nodes) (h i : ℕ) → Agree h i s u → AllFree s h i → AllFree u h i
AllFree-Agree s u zero i g a = g i refl ∙ a
AllFree-Agree s u (suc h) i g a = (
  g i (inl refl) ∙ a.0,
  AllFree-Agree s u h (2 * i + 1) (λ j p. g j (inr (inl p))) a.1,
  AllFree-Agree s u h (2 * i + 1 + 1) (λ j p. g j (inr (inr p))) a.2,
)

pub Repr-Agree : (s u : Nodes) (h i : ℕ) (t : Tree) → Agree h i s u → Repr s h i t → Repr u h i t
Repr-Agree s u h i area g a = AllFree-Agree s u h i g a
Repr-Agree s u zero i block g a = g i refl ∙ a
Repr-Agree s u (suc h) i block g a = (
  g i (inl refl) ∙ a.0,
  AllFree-Agree s u h (2 * i + 1) (λ j p. g j (inr (inl p))) a.1,
  AllFree-Agree s u h (2 * i + 1 + 1) (λ j p. g j (inr (inr p))) a.2,
)
Repr-Agree s u zero i (node l r) g a = absurd a
Repr-Agree s u (suc h) i (node l r) g a = (
  g i (inl refl) ∙ a.0,
  Repr-Agree s u h (2 * i + 1) l (λ j p. g j (inr (inl p))) a.1,
  Repr-Agree s u h (2 * i + 1 + 1) r (λ j p. g j (inr (inr p))) a.2,
)

-- A change inside the left child's subtree keeps the right child's, and the other way round.
pub Agree-right : (s u : Nodes) (h i : ℕ) → Outside h (2 * i + 1) s u → Agree h (2 * i + 1 + 1) s u
Agree-right s u h i o j p = o j (λ q. siblings_disjoint h h i j q p)

pub Agree-left : (s u : Nodes) (h i : ℕ) → Outside h (2 * i + 1 + 1) s u → Agree h (2 * i + 1) s u
Agree-left s u h i o j p = o j (λ q. siblings_disjoint h h i j p q)

-- A node is above its children's subtrees.
pub root_outside_left : (h i : ℕ) → Sub h (2 * i + 1) i → ⊥
root_outside_left h i p = omega (arith, Sub-lower h (2 * i + 1) i p)

pub root_outside_right : (h i : ℕ) → Sub h (2 * i + 1 + 1) i → ⊥
root_outside_right h i p = omega (arith, Sub-lower h (2 * i + 1 + 1) i p)

pub Agree-update_left : (s : Nodes) (v : NodeState) (h i : ℕ) → Agree h (2 * i + 1) s (update s i v)
Agree-update_left s v h i j p = update_ne s v (λ e. omega (arith, Sub-lower h (2 * i + 1) j p))

pub Agree-update_right :
    (s : Nodes) (v : NodeState) (h i : ℕ) → Agree h (2 * i + 1 + 1) s (update s i v)
Agree-update_right s v h i j p = update_ne s v (λ e. omega (arith, Sub-lower h (2 * i + 1 + 1) j p))

-- A used or divided subtree does not show a free root.
pub root_taken :
    (s : Nodes) (h i : ℕ) (t : Tree) → Repr s h i t → (t ≡ area → ⊥) → is_free (s i) ≡ false
root_taken s h i area a n = absurd (n refl)
root_taken s zero i block a n = ground arith
root_taken s (suc h) i block a n = ground arith
root_taken s zero i (node l r) a n = absurd a
root_taken s (suc h) i (node l r) a n = ground arith
