-- ===== src/Memory/Buddy/Valid/Requests.antt =====
-- `allocMemory` and `freeMemory` of Kernel/memory/buddyManager.c on a valid manager.
use tp2_sistemas_operativos.Prelude.{
  ℕ, suc, ◌+◌, ◌-◌, ◌^◌, ◌≤◌, ◌≡◌, ◌≢◌, sym, ap, ◌∙◌, List, ◌∷◌, ◌++◌, arith, some, All, length,
  update, update_self, update_ne,
}
use tp2_sistemas_operativos.Memory.Buddy.{Buddy, Nodes, place}
use tp2_sistemas_operativos.Memory.Buddy.Tree.{Tree, Block, IsMerged}
use tp2_sistemas_operativos.Memory.Buddy.Tree.Blocks.{blocks-Apart}
use tp2_sistemas_operativos.Memory.Buddy.Tree.Laws.{Added}
use tp2_sistemas_operativos.Memory.Powers.{two_pow_mono}
use tp2_sistemas_operativos.Memory.Buddy.Refine.Shape.{Repr}
use tp2_sistemas_operativos.Memory.Buddy.Valid.{in_use, IsValid}
use tp2_sistemas_operativos.Memory.Buddy.Valid.Sums.{
  total, total-insert, length-insert, total-le, All-insert, All-both, others_elsewhere,
}

-- The manager after the block `(x, want)` was placed.
abbrev pub placed : ℕ → ℕ → Buddy → Nodes → Buddy
placed want x m s = (place want m (some x, s)).1

-- What one more block does to the sums over the blocks in use.
pub record Sums (m : Buddy) (want : ℕ) (t t' : Tree) : Type 0 where
  pub totals : total (in_use m t') ≡ 2 ^ want + total (in_use m t)
  pub lengths : length (in_use m t') ≡ suc (length (in_use m t))
  pub inside : total (in_use m t') ≤ 2 ^ m.max_order
  pub small : 2 ^ m.max_order ≤ 2 ^ 22
  pub large : 32 ≤ 2 ^ want

pub Sums-of :
    (m : Buddy) (want x : ℕ) (t t' : Tree) (before after : List Block)
    → m.max_order ≤ 22
    → 5 ≤ want
    → in_use m t ≡ before ++ after
    → in_use m t' ≡ before ++ ((x, want) ∷ after)
    → Sums m want t t'
Sums-of m want x t t' before after high five old new = record {
  totals =
      ap total new ∙ (total-insert before after x want ∙ ap (λ bs. 2 ^ want + total bs) (sym old));
  lengths =
      ap length new ∙ (length-insert before after (x, want) ∙ ap (λ bs. suc (length bs)) (sym old));
  inside =
      omega (arith, total-le 0 (0 + 2 ^ m.max_order) (in_use m t') (blocks-Apart m.max_order 0 t'));
  small = two_pow_mono m.max_order 22 high;
  large = two_pow_mono 5 want five;
}

-- The block `(x, want)` in the lists of the two trees keeps the manager valid.
module _ (m : Buddy) (t t' : Tree) (want x : ℕ) (s : Nodes) (v : IsValid m t) where
  pub placed-IsValid :
      5 ≤ want
      → Added want m.max_order 0 x t t'
      → IsMerged m.max_order t'
      → Repr s (m.max_order - 5) 0 t'
      → IsValid (placed want x m s) t'
  unfolding place
  placed-IsValid five a g r = record {
    base = v.base;
    low = v.low;
    high = v.high;
    size = v.size;
    repr = r;
    merged = g;
    orders = rw a.new (All-insert _ a.before a.after (x, want) (rw a.old at v.orders) five);
    headers = rw a.new (All-insert _ a.before a.after (x, want) kept (update_self m.header want _));
    free_count = omega (arith, v.free_count, sums.totals, sums.inside, sums.small);
    used_count =
        omega (arith, v.used_count, sums.totals, sums.lengths, sums.inside, sums.small, sums.large);
  }
    where
      sums : Sums m want t t'
      sums = Sums-of m want x t t' a.before a.after v.high five a.old a.new

      kept :
          All
            (λ b. update m.header (m.pool_base + x) want (m.pool_base + b.0) ≡ b.1)
            (a.before ++ a.after)
      kept =
          All-both {P = λ b. m.header (m.pool_base + b.0) ≡ b.1} {Q = λ b. x ≢ b.0}
            (λ b h ne. update_ne m.header want (λ e. ne (omega arith)) ∙ h) (a.before ++ a.after)
            (rw a.old at v.headers)
            (others_elsewhere 0 (0 + 2 ^ m.max_order) x want a.before a.after
              (rw a.new at (blocks-Apart m.max_order 0 t')))
