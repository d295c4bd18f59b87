-- ===== src/Memory/Buddy/Refine/Alloc.antt =====
-- `alloc_rec` of Kernel/memory/buddyManager.c carries out the abstract first fit.
use tp2_sistemas_operativos.Prelude.{
  ℕ, zero, suc, ◌+◌, ◌*◌, ◌^◌, ◌≤◌, ◌≡◌, inl, inr, refl, sym, ap, ◌∙◌, arith, false, Option, none,
  some, ◌==◌, ==_iff, Bool-cases, update, update_self, update_ne,
}
use tp2_sistemas_operativos.Memory.Buddy.{free, split, full, is_free, Nodes, settle, alloc_rec}
use tp2_sistemas_operativos.Memory.Buddy.Tree.{
  Tree, area, block, node, join_left, join_right, or_else, alloc_tree,
}
use tp2_sistemas_operativos.Memory.Buddy.Refine.At.{At, At-offset, At-left, At-right}
use tp2_sistemas_operativos.Memory.Buddy.Refine.Shape.{
  AllFree, Repr, Outside, AllFree-root, Repr-Agree, AllFree-Agree, Agree-right, Agree-left,
  root_outside_left, root_outside_right, Agree-update_left, Agree-update_right, root_taken,
}

-- The outcome on the array that the outcome on the tree stands for.
abbrev pub Result : ℕ → ℕ → Nodes → Option (ℕ × Tree) → Option ℕ × Nodes → Type 0
Result h i s none out = (out.0 ≡ none) × ((j : ℕ) → out.1 j ≡ s j)
Result h i s (some (x, t)) out = (out.0 ≡ some x) × Repr out.1 h i t

abbrev pub Simulates : ℕ → ℕ → Nodes → Option (ℕ × Tree) → Option ℕ × Nodes → Type 0
Simulates h i s spec out = Result h i s spec out × Outside h i s out.1

settle-Simulates :
    (h i : ℕ) (e : Nodes) (l r : Tree) (p q : Option (ℕ × Tree)) (left right : Option ℕ × Nodes)
    → e i ≡ split
    → Repr e h (2 * i + 1) l
    → Repr e h (2 * i + 1 + 1) r
    → (p ≡ none → is_free (e (2 * i + 1)) ≡ false)
    → Simulates h (2 * i + 1) e p left
    → (p ≡ none → Simulates h (2 * i + 1 + 1) left.1 q right)
    → Simulates (suc h) i e (or_else (join_left r p) (join_right l q)) (settle i left right)
unfolding settle or_else join_left join_right
settle-Simulates h i e l r (some (x, t)) q (none, s) right es rl rr nf ((eq, re), o) R = cc eq
settle-Simulates h i e l r (some (x, t)) q (some y, s) right es rl rr nf ((eq, re), o) R = (
  (
    eq,
    (
      o i (root_outside_left h i) ∙ es,
      re,
      Repr-Agree e s h (2 * i + 1 + 1) r (Agree-right e s h i o) rr,
    ),
  ),
  λ j out. o j (λ p. out (inr (inl p))),
)
settle-Simulates h i e l r none q (some y, s) right es rl rr nf ((eq, same), o) R = cc eq
settle-Simulates h i e l r none (some (x, t)) (none, s) (none, u) es rl rr nf ((eq, same), o) R =
    cc (R refl).0.0
settle-Simulates h i e l r none (some (x, t)) (none, s) (some y, u) es rl rr nf ((eq, same), o) R =
    (
      (
        (R refl).0.0,
        (
          (R refl).1 i (root_outside_right h i) ∙ same i ∙ es,
          Repr-Agree e u h (2 * i + 1) l (λ j p. Agree-left s u h i (R refl).1 j p ∙ same j) rl,
          (R refl).0.1,
        ),
      ),
      λ j out. (R refl).1 j (λ p. out (inr (inr p))) ∙ same j,
    )
settle-Simulates h i e l r none none (none, s) (some y, u) es rl rr nf ((eq, same), o) R =
    cc (R refl).0.0
settle-Simulates h i e l r none none (none, s) (none, u) es rl rr nf ((eq, same), o) R =
    rw closed ((refl, all), λ j out. all j)
  where
    all : (j : ℕ) → u j ≡ e j
    all j = (R refl).0.1 j ∙ same j

    closed : is_free (u (2 * i + 1)) ≡ false
    closed = ap is_free (all (2 * i + 1)) ∙ nf refl

-- In a free area every order down from its own fits.
pub alloc_tree-area :
    (want o start : ℕ)
    → want ≤ o
    → (t : Tree) × (alloc_tree want o start area ≡ some (start, t)) × (t ≡ area → ⊥)
unfolding alloc_tree join_left
alloc_tree-area want zero start h = (block, ground arith, λ e. cc e)
alloc_tree-area want (suc o) start h = elim (Bool-cases (suc o == want)) [
  | inl e ↦ (block, rw e refl, λ q. cc q)
  | inr e ↦
      let (t, eq, ne) = alloc_tree-area want o start (ground arith) in
      (node t area, rw (e, eq) refl, λ q. cc q)
]

-- Where the abstract first fit fails in the left half, that half shows no free root.
left_taken :
    (want o start h i : ℕ) (s : Nodes) (l : Tree)
    → want ≤ o
    → Repr s h i l
    → alloc_tree want o start l ≡ none
    → is_free (s i) ≡ false
left_taken want o start h i s l le r e = root_taken s h i l r not_area
  where
    not_area : l ≡ area → ⊥
    not_area q =
        let (t, eq, _) = alloc_tree-area want o start le in
        cc (sym eq ∙ ap (alloc_tree want o start) (sym q) ∙ e)

-- One level of `alloc_rec`, by the state of the node.
module _ (m want : ℕ) where
  alloc_rec-take :
      (order idx start : ℕ) (s : Nodes)
      → order ≡ want
      → At m order idx start
      → s idx ≡ free
      → alloc_rec m want order idx s ≡ (some start, update s idx full)
  unfolding alloc_rec
  alloc_rec-take zero idx start s e a f = ground (arith, At-offset m zero idx start a)
  alloc_rec-take (suc o) idx start s e a f = ground (arith, At-offset m (suc o) idx start a)

  alloc_rec-refuse :
      (order idx : ℕ) (s : Nodes)
      → order ≡ want
      → is_free (s idx) ≡ false
      → alloc_rec m want order idx s ≡ (none, s)
  unfolding alloc_rec
  alloc_rec-refuse zero idx s e f = ground arith
  alloc_rec-refuse (suc o) idx s e f = ground arith

  alloc_rec-full :
      (order idx : ℕ) (s : Nodes) → s idx ≡ full → alloc_rec m want order idx s ≡ (none, s)
  unfolding alloc_rec
  alloc_rec-full zero idx s f = ground arith
  alloc_rec-full (suc o) idx s f = ground arith

  -- The recursive calls on the children, from the array `e` in which the node is marked SPLIT.
  abbrev halves : ℕ → ℕ → Nodes → Option ℕ × Nodes
  halves o idx e =
      let left = alloc_rec m want o (2 * idx + 1) e in
      settle idx left (alloc_rec m want o (2 * idx + 1 + 1) left.1)

  alloc_rec-enter :
      (o idx : ℕ) (s : Nodes)
      → (suc o == want) ≡ false
      → s idx ≡ free
      → alloc_rec m want (suc o) idx s ≡ halves o idx (update s idx split)
  unfolding alloc_rec
  alloc_rec-enter o idx s ne f = rw (f, ne)

  alloc_rec-pass :
      (o idx : ℕ) (s : Nodes)
      → (suc o == want) ≡ false
      → s idx ≡ split
      → alloc_rec m want (suc o) idx s ≡ halves o idx s
  unfolding alloc_rec
  alloc_rec-pass o idx s ne f = rw (f, ne)

alloc_tree-exact_area :
    (want order start : ℕ) → order ≡ want → alloc_tree want order start area ≡ some (start, block)
unfolding alloc_tree
alloc_tree-exact_area want zero start e = ground arith
alloc_tree-exact_area want (suc o) start e = ground arith

alloc_tree-exact_node :
    (want order start : ℕ) (l r : Tree)
    → order ≡ want
    → alloc_tree want order start (node l r) ≡ none
unfolding alloc_tree
alloc_tree-exact_node want zero start l r e = refl
alloc_tree-exact_node want (suc o) start l r e = ground arith

Simulates-take :
    (h i start : ℕ) (s : Nodes)
    → AllFree s h i
    → Simulates h i s (some (start, block)) (some start, update s i full)
Simulates-take zero i start s a =
    ((refl, update_self s full i), λ j out. update_ne s full (λ e. out (sym e)))
Simulates-take (suc h) i start s a = (
  (
    refl,
    (
      update_self s full i,
      AllFree-Agree s (update s i full) h (2 * i + 1) (Agree-update_left s full h i) a.1,
      AllFree-Agree s (update s i full) h (2 * i + 1 + 1) (Agree-update_right s full h i) a.2,
    ),
  ),
  λ j out. update_ne s full (λ e. out (inl (sym e))),
)

Simulates-refuse : (h i : ℕ) (s : Nodes) → Simulates h i s none (none, s)
Simulates-refuse h i s = ((refl, λ j. refl), λ j out. refl)

-- What the node's mark SPLIT changed is inside its own subtree.
Simulates-entered :
    (h i start : ℕ) (s : Nodes) (t : Tree) (out : Option ℕ × Nodes)
    → Simulates (suc h) i (update s i split) (some (start, t)) out
    → Simulates (suc h) i s (some (start, t)) out
Simulates-entered h i start s t out (res, o) =
    (res, λ j p. o j p ∙ update_ne s split (λ e. p (inl (sym e))))

module _ (m want base : ℕ) where
  -- A request of the node's own order.
  exact :
      (h order idx start : ℕ) (s : Nodes) (t : Tree)
      → order ≡ want
      → At m order idx start
      → Repr s h idx t
      → Simulates h idx s (alloc_tree want order start t) (alloc_rec m want order idx s)
  unfolding alloc_tree
  exact h order idx start s area e a r =
      rw
        (
          alloc_rec-take m want order idx start s e a (AllFree-root s h idx r),
          alloc_tree-exact_area want order start e,
        )
        (Simulates-take h idx start s r)
  exact h order idx start s block e a r =
      rw (alloc_rec-refuse m want order idx s e (root_taken s h idx block r (λ q. cc q)))
        (Simulates-refuse h idx s)
  exact h order idx start s (node x y) e a r =
      rw
        (
          alloc_rec-refuse m want order idx s e (root_taken s h idx (node x y) r (λ q. cc q)),
          alloc_tree-exact_node want order start x y e,
        )
        (Simulates-refuse h idx s)

  pub alloc_rec-Simulates :
      (h order idx start : ℕ) (s : Nodes) (t : Tree)
      → order ≡ base + h
      → base ≤ want
      → want ≤ order
      → order ≤ m
      → At m order idx start
      → Repr s h idx t
      → Simulates h idx s (alloc_tree want order start t) (alloc_rec m want order idx s)
  unfolding alloc_tree or_else settle join_left
  alloc_rec-Simulates zero order idx start s t e lo hi le a r =
      exact zero order idx start s t (omega arith) a r
  alloc_rec-Simulates (suc h) zero idx start s t e lo hi le a r = absurd (omega arith)
  alloc_rec-Simulates (suc h) (suc o) idx start s block e lo hi le a r =
      rw (alloc_rec-full m want (suc o) idx s r.0) (Simulates-refuse (suc h) idx s)
  alloc_rec-Simulates (suc h) (suc o) idx start s area e lo hi le a r =
      elim (Bool-cases (suc o == want)) [
        | inl q ↦ exact (suc h) (suc o) idx start s area ((==_iff _ _).0 q) a r
        | inr ne ↦
            let s' = update s idx split in
            let fl = AllFree-Agree s s' h (2 * idx + 1) (Agree-update_left s split h idx) r.1 in
            let fr =
              AllFree-Agree s s' h (2 * idx + 1 + 1) (Agree-update_right s split h idx) r.2 in
            let (t, eq, _) = alloc_tree-area want o start (ground arith) in
            let ih =
              alloc_rec-Simulates h o (2 * idx + 1) start s' area (omega arith) lo (ground arith)
                (omega arith) (At-left m o idx start le a) fl in
            rw (alloc_rec-enter m want o idx s ne r.0, ne, eq)
              (Simulates-entered h idx start s (node t area) _ (
                settle-Simulates h idx s' area area (some (start, t)) none _ _
                  (update_self s split idx) fl fr (λ q. cc q) (rw eq at ih) (λ q. cc q)))
      ]
  alloc_rec-Simulates (suc h) (suc o) idx start s (node x y) e lo hi le a r =
      elim (Bool-cases (suc o == want)) [
        | inl q ↦ exact (suc h) (suc o) idx start s (node x y) ((==_iff _ _).0 q) a r
        | inr ne ↦
            let ih =
              alloc_rec-Simulates h o (2 * idx + 1) start s x (omega arith) lo (ground arith)
                (omega arith) (At-left m o idx start le a) r.1 in
            let left = alloc_rec m want o (2 * idx + 1) s in
            rw (alloc_rec-pass m want o idx s ne r.0, ne)
              (settle-Simulates h idx s x y (alloc_tree want o start x)
                (alloc_tree want o (start + 2 ^ o) y) left _ r.0 r.1 r.2
                (left_taken want o start h (2 * idx + 1) s x (ground arith) r.1) ih
                (λ q.
                  alloc_rec-Simulates h o (2 * idx + 1 + 1) (start + 2 ^ o) left.1 y (omega arith)
                    lo (ground arith) (omega arith) (At-right m o idx start le a)
                    (Repr-Agree s left.1 h (2 * idx + 1 + 1) y (Agree-right s left.1 h idx ih.1)
                      r.2)))
      ]
