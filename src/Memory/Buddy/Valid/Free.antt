-- ===== src/Memory/Buddy/Valid/Free.antt =====
-- `freeMemory` of Kernel/memory/buddyManager.c on a valid manager.
use tp2_sistemas_operativos.Prelude.{ℕ, ◌+◌, ◌-◌, ◌%◌, ◌^◌, ◌≤◌, ◌≡◌, arith, All}
use tp2_sistemas_operativos.Memory.Buddy.{Buddy, free_memory, free_rec}
use tp2_sistemas_operativos.Memory.Buddy.Tree.{Tree, free_tree, HasBlock}
use tp2_sistemas_operativos.Memory.Buddy.Tree.Release.{
  Removed, free_tree-Removed, free_tree-IsMerged,
}
use tp2_sistemas_operativos.Memory.Buddy.Refine.Free.{Freed, free_rec-Freed}
use tp2_sistemas_operativos.Memory.Buddy.Valid.{in_use, IsValid}
use tp2_sistemas_operativos.Memory.Buddy.Valid.Sums.{All-remove, headers_fit}
use tp2_sistemas_operativos.Memory.Buddy.Valid.Requests.{Sums, Sums-of}

-- The manager after the release of the block `(x, gone)`, whose header holds `gone`.
abbrev pub released : ℕ → ℕ → Buddy → Buddy
released gone x m = free_memory (m.pool_base + x + 8) m

module _ (m : Buddy) (t : Tree) (gone x : ℕ) (v : IsValid m t)
    (b : HasBlock gone x m.max_order 0 t) where
  removed : Removed gone m.max_order 0 x t (free_tree gone x m.max_order 0 t)
  removed = free_tree-Removed gone x m.max_order 0 t b

  -- What the manager knows of the block: its header and its order.
  known_header : m.header (m.pool_base + x) ≡ gone
  known_header =
      (All-remove _ removed.before removed.after (x, gone) (rw removed.old at v.headers)).1

  known_order : 5 ≤ gone
  known_order = (All-remove _ removed.before removed.after (x, gone) (rw removed.old at v.orders)).1

  pub freed :
      Freed
        (m.max_order - 5)
        0
        m.node_state
        (free_tree gone x m.max_order 0 t)
        (free_rec gone m.max_order 0 x m.node_state)
  freed = rw no_offset at (
      free_rec-Freed gone x 5 (m.max_order - 5) m.max_order 0 0 m.node_state t
        (omega (arith, v.low)) known_order b v.repr)
    where
      no_offset : x - 0 ≡ x
      no_offset = omega arith

  pub released-eq : released gone x m ≡ record m {
    node_state = free_rec gone m.max_order 0 x m.node_state;
    used_bytes = (m.used_bytes + 2 ^ 32 - (2 ^ gone - 8)) % 2 ^ 32;
    free_bytes = (m.free_bytes + 2 ^ gone) % 2 ^ 32;
  }
  unfolding free_memory
  released-eq = ground (arith, known_header, pointer, v.base, offset)
    where
      pointer : m.pool_base + x + 8 - 8 ≡ m.pool_base + x
      pointer = omega arith

      offset : m.pool_base + x - m.pool_base ≡ x
      offset = omega arith

  -- Release of a block in use keeps the manager valid, with that block removed.
  pub free_memory-IsValid : IsValid (released gone x m) (free_tree gone x m.max_order 0 t)
  free_memory-IsValid = rw released-eq (record {
    base = v.base;
    low = v.low;
    high = v.high;
    size = v.size;
    repr = freed.0;
    merged = free_tree-IsMerged gone x m.max_order 0 t v.merged;
    orders = others_large;
    headers =
        rw removed.new
          (All-remove _ removed.before removed.after (x, gone) (rw removed.old at v.headers)).0;
    free_count = omega (arith, v.free_count, sums.totals, sums.inside, sums.small);
    used_count = omega (
      arith,
      v.used_count,
      sums.totals,
      sums.lengths,
      sums.inside,
      sums.small,
      sums.large,
      headers_fit (in_use m (free_tree gone x m.max_order 0 t)) others_large,
    );
  })
    where
      others_large : All (λ b. 5 ≤ b.1) (in_use m (free_tree gone x m.max_order 0 t))
      others_large =
          rw removed.new
            (All-remove _ removed.before removed.after (x, gone) (rw removed.old at v.orders)).0

      sums : Sums m gone (free_tree gone x m.max_order 0 t) t
      sums =
          Sums-of m gone x (free_tree gone x m.max_order 0 t) t removed.before removed.after v.high
            known_order removed.new removed.old

  -- Release of a pointer to a block in use keeps the manager valid: the block is gone from the
  -- tree, every other block is as it was, and free halves are merged.
  pub free_memory_lem :
      IsValid (released gone x m) (free_tree gone x m.max_order 0 t)
      × Removed gone m.max_order 0 x t (free_tree gone x m.max_order 0 t)
  free_memory_lem = (free_memory-IsValid, removed)
