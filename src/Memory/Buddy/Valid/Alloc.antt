-- ===== src/Memory/Buddy/Valid/Alloc.antt =====
-- `allocMemory` of Kernel/memory/buddyManager.c on a valid manager.
use native.Mathlib.Decide.{dec_lt}
use tp2_sistemas_operativos.Prelude.{
  ℕ, ◌+◌, ◌-◌, ◌^◌, ◌≤◌, ◌<◌, ◌≡◌, ◌⊎◌, inl, inr, ap, fun_ext, ◌∙◌, arith, Option, none, some,
  Option-cases,
}
use tp2_sistemas_operativos.Memory.Buddy.{
  Buddy, Nodes, alloc_rec, place, alloc_memory, size_to_order,
}
use tp2_sistemas_operativos.Memory.Buddy.Tree.{Tree, alloc_tree, HasRoom}
use tp2_sistemas_operativos.Memory.Buddy.Tree.Laws.{Added, alloc_tree-Added}
use tp2_sistemas_operativos.Memory.Buddy.Tree.Room.{alloc_tree-no_room, HasRoom-le}
use tp2_sistemas_operativos.Memory.Buddy.Tree.Release.{alloc_tree-IsMerged}
use tp2_sistemas_operativos.Memory.Buddy.Refine.At.{At-root}
use tp2_sistemas_operativos.Memory.Buddy.Refine.Alloc.{Simulates, alloc_rec-Simulates}
use tp2_sistemas_operativos.Memory.Buddy.Refine.Shape.{Outside}
use tp2_sistemas_operativos.Memory.Buddy.Orders.{size_to_order-Least}
use tp2_sistemas_operativos.Memory.Buddy.Valid.{IsValid}
use tp2_sistemas_operativos.Memory.Buddy.Valid.Requests.{placed, placed-IsValid}

-- NULL, with the manager unchanged: no free area holds a block of the order wanted.
pub record Refused (m : Buddy) (t : Tree) (size : ℕ) : Type 0 where
  pub want : ℕ
  pub order : size_to_order size ≡ some want
  pub no_room : HasRoom want m.max_order t → ⊥
  pub answer : alloc_memory size m ≡ some (0, m)

-- A block of the least order that holds the request and its header; the pointer is eight bytes
-- into it, and the manager is valid with that one block more.
pub record Granted (m : Buddy) (t : Tree) (size : ℕ) : Type 0 where
  pub want : ℕ
  pub offset : ℕ
  pub nodes : Nodes
  pub tree : Tree
  pub order : size_to_order size ≡ some want
  pub fits : size + 8 ≤ 2 ^ want
  pub answer : alloc_memory size m ≡ some (m.pool_base + offset + 8, placed want offset m nodes)
  pub found : alloc_tree want m.max_order 0 t ≡ some (offset, tree)
  pub outside : Outside (m.max_order - 5) 0 m.node_state nodes
  pub added : Added want m.max_order 0 offset t tree
  pub valid : IsValid (placed want offset m nodes) tree

alloc_memory-eq :
    (m : Buddy) (size want : ℕ)
    → 0 < m.pool_base
    → 8 < size
    → size_to_order size ≡ some want
    → want ≤ m.max_order
    → alloc_memory size m
      ≡ some (place want m (alloc_rec m.max_order want m.max_order 0 m.node_state))
unfolding alloc_memory
alloc_memory-eq m size want b s e h = ground arith

alloc_memory-large :
    (m : Buddy) (size want : ℕ)
    → 0 < m.pool_base
    → 8 < size
    → size_to_order size ≡ some want
    → m.max_order < want
    → alloc_memory size m ≡ some (0, m)
unfolding alloc_memory
alloc_memory-large m size want b s e h = ground arith

-- The answer that the outcome of the tree's first fit gives.
module _ (m : Buddy) (t : Tree) (size want : ℕ) (v : IsValid m t) where
  refuse :
      (out : Option ℕ × Nodes)
      → size_to_order size ≡ some want
      → alloc_memory size m ≡ some (place want m out)
      → alloc_tree want m.max_order 0 t ≡ none
      → Simulates (m.max_order - 5) 0 m.node_state none out
      → Refused m t size
  unfolding place
  refuse (some x, s) o a e ((h, same), _) = cc h
  refuse (none, s) o a e ((h, same), _) = record {
    want = want;
    order = o;
    no_room = alloc_tree-no_room want m.max_order 0 t e;
    answer = a ∙ ap (λ u. some (0, record m { node_state = u })) (fun_ext same);
  }

  grant :
      (x : ℕ) (t' : Tree) (out : Option ℕ × Nodes)
      → size_to_order size ≡ some want
      → 5 ≤ want
      → size + 8 ≤ 2 ^ want
      → alloc_memory size m ≡ some (place want m out)
      → alloc_tree want m.max_order 0 t ≡ some (x, t')
      → Simulates (m.max_order - 5) 0 m.node_state (some (x, t')) out
      → Granted m t size
  unfolding place
  grant x t' (none, s) o five f a e ((h, r), out) = cc h
  grant x t' (some y, s) o five f a e ((h, r), out) = record {
    want = want;
    offset = x;
    nodes = s;
    tree = t';
    order = o;
    fits = f;
    answer = a ∙ ap (λ z. some (place want m (some z, s))) same;
    found = e;
    outside = out;
    added = alloc_tree-Added want m.max_order 0 t x t' e;
    valid =
        placed-IsValid m t t' want x s v five (alloc_tree-Added want m.max_order 0 t x t' e)
          (alloc_tree-IsMerged want m.max_order 0 t x t' e v.merged) r;
  }
    where
      same : y ≡ x
      same = ground arith

answered :
    (m : Buddy) (t : Tree) (size want : ℕ)
    → IsValid m t
    → 8 < size
    → size_to_order size ≡ some want
    → 5 ≤ want
    → size + 8 ≤ 2 ^ want
    → want ≤ m.max_order
    → Refused m t size ⊎ Granted m t size
answered m t size want v lo o five f near = elim (Option-cases (alloc_tree want m.max_order 0 t)) [
  | inl e ↦ inl (refuse m t size want v _ o code e (rw e at simulated))
  | inr ((x, t'), e) ↦ inr (grant m t size want v x t' _ o five f code e (rw e at simulated))
]
  where
    code :
        alloc_memory size m
        ≡ some (place want m (alloc_rec m.max_order want m.max_order 0 m.node_state))
    code = alloc_memory-eq m size want v.base lo o near

    simulated :
        Simulates
          (m.max_order - 5)
          0
          m.node_state
          (alloc_tree want m.max_order 0 t)
          (alloc_rec m.max_order want m.max_order 0 m.node_state)
    simulated =
        alloc_rec-Simulates m.max_order want 5 (m.max_order - 5) m.max_order 0 0 m.node_state t
          (omega (arith, v.low)) five near (omega arith) (At-root m.max_order) v.repr

-- A request of 9 bytes up to 2^31 - 16 is refused exactly when no free area is large enough, and
-- is otherwise granted.
pub alloc_memory_lem :
    (m : Buddy) (t : Tree) (size : ℕ)
    → IsValid m t
    → 8 < size
    → size ≤ 2 ^ 31 - 16
    → Refused m t size ⊎ Granted m t size
alloc_memory_lem m t size v lo hi =
    let (want, o, five, f, _) = size_to_order-Least size lo hi in
    elim (dec_lt m.max_order want) [
      | yes large ↦ inl (record {
        want = want;
        order = o;
        no_room = λ h. omega (arith, HasRoom-le want m.max_order t h);
        answer = alloc_memory-large m size want v.base lo o large;
      })
      | no near ↦ answered m t size want v lo o five f (omega arith)
    ]
