-- ===== src/Memory/Buddy/Refine/Free.antt =====
-- `free_rec` of Kernel/memory/buddyManager.c carries out the release on the abstract tree.
use tp2_sistemas_operativos.Prelude.{
  ℕ, zero, suc, ◌+◌, ◌-◌, ◌*◌, ◌/◌, ◌^◌, ◌≤◌, ◌<◌, ◌≡◌, inl, inr, refl, sym, ap, subst, ◌∙◌, arith,
  true, false, ◌==◌, if◌then◌else◌, ltb, update, update_self, update_ne,
}
use native.Mathlib.Nat.{div-eq_of_lt, div-eq-sub-div}
use mathlib.Core.Bool.{Bool, ◌&&◌}
use tp2_sistemas_operativos.Memory.Powers.{two_pow_suc, two_pow_pos}
use tp2_sistemas_operativos.Memory.Buddy.{
  free, split, is_free, Nodes, has_bit, join_children, free_rec,
}
use tp2_sistemas_operativos.Memory.Buddy.Tree.{Tree, area, block, node, HasBlock, join, free_tree}
use tp2_sistemas_operativos.Memory.Buddy.Tree.Blocks.{HasBlock-bounds}
use tp2_sistemas_operativos.Memory.Buddy.Tree.Release.{left_side, right_side}
use tp2_sistemas_operativos.Memory.Buddy.Refine.Shape.{
  AllFree, Repr, Outside, AllFree-root, Repr-Agree, AllFree-Agree, Agree-right, Agree-left,
  Agree-update_left, Agree-update_right, root_taken,
}

-- Below twice a power of two, its bit tells whether the number reaches the power.
has_bit-low : (x k : ℕ) → x < k → has_bit x k ≡ false
has_bit-low x k h = ground (arith, quotient)
  where
    quotient : x / k ≡ 0
    quotient = div-eq_of_lt h

has_bit-high : (x k : ℕ) → k ≤ x → x < 2 * k → has_bit x k ≡ true
has_bit-high x k lo hi = ground (arith, quotient)
  where
    quotient : x / k ≡ 1
    quotient = omega (
      arith,
      div-eq-sub-div {m = k} {n = x} (omega arith) lo,
      div-eq_of_lt {n = x - k} {m = k} (omega arith),
    )

-- After the recursive call the node is marked by its children's states.
join_free :
    (u : Nodes) (h i : ℕ)
    → AllFree u h (2 * i + 1)
    → AllFree u h (2 * i + 1 + 1)
    → AllFree (join_children i u split) (suc h) i
join_free u h i a b =
    subst (λ w. AllFree w (suc h) i) (ap (λ b. update u i (if b then free else split)) (sym both))
      (
        update_self u free i,
        AllFree-Agree u (update u i free) h (2 * i + 1) (Agree-update_left u free h i) a,
        AllFree-Agree u (update u i free) h (2 * i + 1 + 1) (Agree-update_right u free h i) b,
      )
  where
    both : (is_free (u (2 * i + 1)) && is_free (u (2 * i + 1 + 1))) ≡ true
    both = rw (AllFree-root u h (2 * i + 1) a, AllFree-root u h (2 * i + 1 + 1) b) refl

join_taken :
    (u : Nodes) (h i : ℕ) (l r : Tree)
    → Repr u h (2 * i + 1) l
    → Repr u h (2 * i + 1 + 1) r
    → (is_free (u (2 * i + 1)) && is_free (u (2 * i + 1 + 1))) ≡ false
    → Repr (join_children i u split) (suc h) i (node l r)
join_taken u h i l r a b e =
    subst (λ w. Repr w (suc h) i (node l r))
      (ap (λ b. update u i (if b then free else split)) (sym e))
      (
        update_self u split i,
        Repr-Agree u (update u i split) h (2 * i + 1) l (Agree-update_left u split h i) a,
        Repr-Agree u (update u i split) h (2 * i + 1 + 1) r (Agree-update_right u split h i) b,
      )

left_used :
    (u : Nodes) (h i : ℕ) (l : Tree) (b : Bool)
    → Repr u h i l
    → (l ≡ area → ⊥)
    → (is_free (u i) && b) ≡ false
left_used u h i l b a ne = rw (root_taken u h i l a ne) refl

right_used :
    (u : Nodes) (h i : ℕ) (r : Tree) (b : Bool)
    → Repr u h i r
    → (r ≡ area → ⊥)
    → (b && is_free (u i)) ≡ false
right_used u h i r b a ne = rw (root_taken u h i r a ne) (ground arith)

join_children-Repr :
    (u : Nodes) (h i : ℕ) (l r : Tree)
    → Repr u h (2 * i + 1) l
    → Repr u h (2 * i + 1 + 1) r
    → Repr (join_children i u split) (suc h) i (join l r)
unfolding join
join_children-Repr u h i area area a b = join_free u h i a b
join_children-Repr u h i area block a b =
    join_taken u h i area block a b (right_used u h _ block _ b (λ q. cc q))
join_children-Repr u h i area (node x y) a b =
    join_taken u h i area (node x y) a b (right_used u h _ (node x y) _ b (λ q. cc q))
join_children-Repr u h i block r a b =
    join_taken u h i block r a b (left_used u h _ block _ a (λ q. cc q))
join_children-Repr u h i (node x y) r a b =
    join_taken u h i (node x y) r a b (left_used u h _ (node x y) _ a (λ q. cc q))

-- One level of `free_rec` above the block.
module _ (gone o idx offset : ℕ) (s : Nodes) (below : gone ≤ o) where
  free_rec-left :
      offset < 2 ^ o
      → free_rec gone (suc o) idx offset s
        ≡ join_children idx (free_rec gone o (2 * idx + 1) offset s) split
  unfolding free_rec
  free_rec-left h = rw (skip, inexact, has_bit-low offset (2 ^ o) h)
    where
      skip : ltb (suc o) gone ≡ false
      skip = ground arith

      inexact : (suc o == gone) ≡ false
      inexact = ground arith

  free_rec-right :
      2 ^ o ≤ offset
      → offset < 2 ^ suc o
      → free_rec gone (suc o) idx offset s
        ≡ join_children idx (free_rec gone o (2 * idx + 1 + 1) (offset - 2 ^ o) s) split
  unfolding free_rec
  free_rec-right lo hi =
      rw (skip, inexact, has_bit-high offset (2 ^ o) lo (omega (arith, two_pow_suc o)))
    where
      skip : ltb (suc o) gone ≡ false
      skip = ground arith

      inexact : (suc o == gone) ≡ false
      inexact = ground arith

free_rec-exact :
    (order idx offset : ℕ) (s : Nodes) → free_rec order order idx offset s ≡ update s idx free
unfolding free_rec
free_rec-exact zero idx offset s = refl
free_rec-exact (suc o) idx offset s = ground arith

-- The array after `free_rec` holds the tree without the block, and nothing outside changed.
abbrev pub Freed : ℕ → ℕ → Nodes → Tree → Nodes → Type 0
Freed h i s t u = Repr u h i t × Outside h i s u

Freed-block : (h i : ℕ) (s : Nodes) → Repr s h i block → Freed h i s area (update s i free)
Freed-block zero i s a = (update_self s free i, λ j out. update_ne s free (λ e. out (sym e)))
Freed-block (suc h) i s a = (
  (
    update_self s free i,
    AllFree-Agree s (update s i free) h (2 * i + 1) (Agree-update_left s free h i) a.1,
    AllFree-Agree s (update s i free) h (2 * i + 1 + 1) (Agree-update_right s free h i) a.2,
  ),
  λ j out. update_ne s free (λ e. out (inl (sym e))),
)

Freed-left :
    (h i : ℕ) (s u : Nodes) (l r : Tree)
    → Repr s h (2 * i + 1 + 1) r
    → Freed h (2 * i + 1) s l u
    → Freed (suc h) i s (join l r) (join_children i u split)
Freed-left h i s u l r b (a, o) = (
  join_children-Repr u h i l r a (Repr-Agree s u h (2 * i + 1 + 1) r (Agree-right s u h i o) b),
  λ j out. update_ne u _ (λ e. out (inl (sym e))) ∙ o j (λ p. out (inr (inl p))),
)

Freed-right :
    (h i : ℕ) (s u : Nodes) (l r : Tree)
    → Repr s h (2 * i + 1) l
    → Freed h (2 * i + 1 + 1) s r u
    → Freed (suc h) i s (join l r) (join_children i u split)
Freed-right h i s u l r b (a, o) = (
  join_children-Repr u h i l r (Repr-Agree s u h (2 * i + 1) l (Agree-left s u h i o) b) a,
  λ j out. update_ne u _ (λ e. out (inl (sym e))) ∙ o j (λ p. out (inr (inr p))),
)

pub free_rec-Freed :
    (gone target base h order idx start : ℕ) (s : Nodes) (t : Tree)
    → order ≡ base + h
    → base ≤ gone
    → HasBlock gone target order start t
    → Repr s h idx t
    → Freed h idx s
        (free_tree gone target order start t)
        (free_rec gone order idx (target - start) s)
unfolding HasBlock free_tree
free_rec-Freed gone target base h order idx start s area e lo b r = absurd b
free_rec-Freed gone target base h order idx start s block e lo (p, q) r =
    rw (p, free_rec-exact order idx (target - start) s) (Freed-block h idx s r)
free_rec-Freed gone target base h zero idx start s (node x y) e lo b r = absurd b
free_rec-Freed gone target base zero (suc o) idx start s (node x y) e lo b r = absurd r
free_rec-Freed gone target base (suc h) (suc o) idx start s (node x y) e lo (inl b) r =
    rw (left_side gone target o start x b, free_rec-left gone o idx (target - start) s below near)
      (Freed-left h idx s _ _ y r.2
        (free_rec-Freed gone target base h o (2 * idx + 1) start s x (omega arith) lo b r.1))
  where
    below : gone ≤ o
    below = (HasBlock-bounds gone target o start x b).0

    near : target - start < 2 ^ o
    near = omega (arith, HasBlock-bounds gone target o start x b, two_pow_pos gone)
free_rec-Freed gone target base (suc h) (suc o) idx start s (node x y) e lo (inr b) r =
    rw
      (
        right_side gone target o start y b,
        free_rec-right gone o idx (target - start) s inside.0 inside.1 inside.2,
      )
      (Freed-right h idx s _ x _ r.1 (
        rw local at (
          free_rec-Freed gone target base h o (2 * idx + 1 + 1) (start + 2 ^ o) s y (omega arith) lo
            b r.2)))
  where
    inside : (gone ≤ o) × (2 ^ o ≤ target - start) × (target - start < 2 ^ suc o)
    inside =
        omega (
          arith,
          HasBlock-bounds gone target o (start + 2 ^ o) y b,
          two_pow_pos gone,
          two_pow_suc o,
        )

    local : target - (start + 2 ^ o) ≡ target - start - 2 ^ o
    local = omega arith
