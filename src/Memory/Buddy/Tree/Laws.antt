-- ===== src/Memory/Buddy/Tree/Laws.antt =====
-- What allocation and release do to the blocks of the abstract buddy system.
use tp2_sistemas_operativos.Prelude.{
  ℕ, zero, suc, ◌+◌, ◌^◌, ◌≡◌, inl, inr, refl, sym, ap, ◌∙◌, List, [], ◌∷◌, ◌++◌, append_assoc,
  arith, Option, none, some, ◌==◌, ==_iff, Bool-cases,
}
use tp2_sistemas_operativos.Memory.Buddy.Tree.{
  Tree, area, block, node, Block, blocks, HasBlock, join_left, join_right, or_else, alloc_tree,
}

-- `t'` has the blocks of `t` and the block `(x, want)`, which stands where the address says.
pub record Added (want order start x : ℕ) (t t' : Tree) : Type 0 where
  pub before : List Block
  pub after : List Block
  pub old : blocks order start t ≡ before ++ after
  pub new : blocks order start t' ≡ before ++ ((x, want) ∷ after)
  pub held : HasBlock want x order start t'

pub or_else-none : {A : Type 0} (p : Option A) → or_else p none ≡ p
unfolding or_else
or_else-none none = refl
or_else-none (some a) = refl

-- A block added in one half is added in the whole.
Added-left :
    (want o start x : ℕ) (l r l' : Tree)
    → Added want o start x l l'
    → Added want (suc o) start x (node l r) (node l' r)
unfolding blocks HasBlock
Added-left want o start x l r l' a = record {
  before = a.before;
  after = a.after ++ blocks o (start + 2 ^ o) r;
  old = ap (λ bs. bs ++ blocks o (start + 2 ^ o) r) a.old ∙ append_assoc a.before a.after _;
  new =
      ap (λ bs. bs ++ blocks o (start + 2 ^ o) r) a.new
      ∙ append_assoc a.before ((x, want) ∷ a.after) _;
  held = inl a.held;
}

Added-right :
    (want o start x : ℕ) (l r r' : Tree)
    → Added want o (start + 2 ^ o) x r r'
    → Added want (suc o) start x (node l r) (node l r')
unfolding blocks HasBlock
Added-right want o start x l r r' a = record {
  before = blocks o start l ++ a.before;
  after = a.after;
  old = ap (λ bs. blocks o start l ++ bs) a.old ∙ sym (append_assoc (blocks o start l) _ _);
  new = ap (λ bs. blocks o start l ++ bs) a.new ∙ sym (append_assoc (blocks o start l) _ _);
  held = inr a.held;
}

Added-halves :
    (want o start : ℕ) (l r : Tree) (p q : Option (ℕ × Tree)) (x : ℕ) (t' : Tree)
    → ((y : ℕ) (l' : Tree) → p ≡ some (y, l') → Added want o start y l l')
    → ((y : ℕ) (r' : Tree) → q ≡ some (y, r') → Added want o (start + 2 ^ o) y r r')
    → or_else (join_left r p) (join_right l q) ≡ some (x, t')
    → Added want (suc o) start x (node l r) t'
unfolding or_else join_left join_right
Added-halves want o start l r (some (y, l')) q x t' fl fr e =
    rw (← same.0, ← same.1) (Added-left want o start y l r l' (fl y l' refl))
  where
    same : (y ≡ x) × (node l' r ≡ t')
    same = (ground arith, ground arith)
Added-halves want o start l r none (some (y, r')) x t' fl fr e =
    rw (← same.0, ← same.1) (Added-right want o start y l r r' (fr y r' refl))
  where
    same : (y ≡ x) × (node l r' ≡ t')
    same = (ground arith, ground arith)
Added-halves want o start l r none none x t' fl fr e = cc e

Added-whole :
    (want order start x : ℕ) (t' : Tree)
    → order ≡ want
    → ◌≡◌ {A = Option (ℕ × Tree)} (some (start, block)) (some (x, t'))
    → Added want order start x area t'
unfolding blocks HasBlock
Added-whole want order start x t' o e =
    rw (← same.0, ← same.1)
      (record {
        before = [];
        after = [];
        old = refl;
        new = ap (λ k. (start, k) ∷ []) o;
        held = (sym o, refl);
      })
  where
    same : (start ≡ x) × (block ≡ t')
    same = (ground arith, ground arith)

-- An area in two free halves holds no block either.
Added-area :
    (want o start x : ℕ) (t' : Tree)
    → Added want (suc o) start x (node area area) t'
    → Added want (suc o) start x area t'
unfolding blocks
Added-area want o start x t' a = record {
  before = a.before;
  after = a.after;
  old = a.old;
  new = a.new;
  held = a.held;
}

-- A successful allocation adds one block of the order asked for, and changes no other.
pub alloc_tree-Added :
    (want order start : ℕ) (t : Tree) (x : ℕ) (t' : Tree)
    → alloc_tree want order start t ≡ some (x, t')
    → Added want order start x t t'
unfolding alloc_tree join_right
alloc_tree-Added want order start block x t' e = cc e
alloc_tree-Added want zero start area x t' e = elim (Bool-cases (0 == want)) [
  | inl q ↦ Added-whole want zero start x t' ((==_iff _ _).0 q) (rw q at e)
  | inr q ↦ cc (rw q at e)
]
alloc_tree-Added want zero start (node l r) x t' e = cc e
alloc_tree-Added want (suc o) start area x t' e = elim (Bool-cases (suc o == want)) [
  | inl q ↦ Added-whole want (suc o) start x t' ((==_iff _ _).0 q) (rw q at e)
  | inr q ↦ Added-area want o start x t' (
      Added-halves want o start area area (alloc_tree want o start area) none x t'
        (λ y l'. alloc_tree-Added want o start area y l') (λ y r' h. cc h)
        (or_else-none _ ∙ (rw q at e)))
]
alloc_tree-Added want (suc o) start (node l r) x t' e = elim (Bool-cases (suc o == want)) [
  | inl q ↦ cc (rw q at e)
  | inr q ↦
      Added-halves want o start l r (alloc_tree want o start l)
        (alloc_tree want o (start + 2 ^ o) r) x t' (λ y l'. alloc_tree-Added want o start l y l')
        (λ y r'. alloc_tree-Added want o (start + 2 ^ o) r y r') (rw q at e)
]
