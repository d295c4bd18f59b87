-- ===== src/Memory/Buddy/Valid/Undo.antt =====
-- Release right after an allocation, in Kernel/memory/buddyManager.c.
use native.Mathlib.Decide.{ℕ_discrete}
use tp2_sistemas_operativos.Prelude.{
  ℕ, zero, suc, ◌+◌, ◌-◌, ◌*◌, ◌%◌, ◌^◌, ◌≡◌, inl, inr, refl, sym, ap, fun_ext, ◌∙◌, arith, length,
}
use tp2_sistemas_operativos.Memory.Buddy.{Buddy, Nodes, place, free_rec}
use tp2_sistemas_operativos.Memory.Buddy.Tree.{Tree, area, block, node, blocks, free_tree}
use tp2_sistemas_operativos.Memory.Buddy.Tree.Room.{free_tree-alloc_tree}
use tp2_sistemas_operativos.Memory.Buddy.Refine.Free.{Freed}
use tp2_sistemas_operativos.Memory.Buddy.Refine.Shape.{Sub, AllFree, Repr, Agree, Outside}
use tp2_sistemas_operativos.Memory.Buddy.Valid.{in_use, IsValid}
use tp2_sistemas_operativos.Memory.Buddy.Valid.Sums.{total}
use tp2_sistemas_operativos.Memory.Buddy.Valid.Requests.{placed}
use tp2_sistemas_operativos.Memory.Buddy.Valid.Alloc.{Granted}
use tp2_sistemas_operativos.Memory.Buddy.Valid.Free.{
  released, freed, released-eq, free_memory-IsValid,
}

-- A tree is held by one state of its nodes only.
AllFree-unique : (s u : Nodes) (h i : ℕ) → AllFree s h i → AllFree u h i → Agree h i s u
AllFree-unique s u zero i a b j e = rw e (b ∙ sym a)
AllFree-unique s u (suc h) i a b j (inl e) = rw e (b.0 ∙ sym a.0)
AllFree-unique s u (suc h) i a b j (inr (inl p)) = AllFree-unique s u h (2 * i + 1) a.1 b.1 j p
AllFree-unique s u (suc h) i a b j (inr (inr p)) = AllFree-unique s u h (2 * i + 1 + 1) a.2 b.2 j p

Repr-unique : (s u : Nodes) (h i : ℕ) (t : Tree) → Repr s h i t → Repr u h i t → Agree h i s u
Repr-unique s u h i area a b j p = AllFree-unique s u h i a b j p
Repr-unique s u zero i block a b j e = rw e (b ∙ sym a)
Repr-unique s u (suc h) i block a b j (inl e) = rw e (b.0 ∙ sym a.0)
Repr-unique s u (suc h) i block a b j (inr (inl p)) = AllFree-unique s u h (2 * i + 1) a.1 b.1 j p
Repr-unique s u (suc h) i block a b j (inr (inr p)) =
    AllFree-unique s u h (2 * i + 1 + 1) a.2 b.2 j p
Repr-unique s u zero i (node l r) a b j p = absurd a
Repr-unique s u (suc h) i (node l r) a b j (inl e) = rw e (b.0 ∙ sym a.0)
Repr-unique s u (suc h) i (node l r) a b j (inr (inl p)) =
    Repr-unique s u h (2 * i + 1) l a.1 b.1 j p
Repr-unique s u (suc h) i (node l r) a b j (inr (inr p)) =
    Repr-unique s u h (2 * i + 1 + 1) r a.2 b.2 j p

Sub-dec : (h i j : ℕ) → Dec (Sub h i j)
Sub-dec zero i j = ℕ_discrete j i
Sub-dec (suc h) i j = elim (ℕ_discrete j i) [
  | yes e ↦ yes (inl e)
  | no n ↦ elim (Sub-dec h (2 * i + 1) j) [
    | yes p ↦ yes (inr (inl p))
    | no p ↦ elim (Sub-dec h (2 * i + 1 + 1) j) [
      | yes q ↦ yes (inr (inr q))
      | no q ↦ no (λ z. elim z [ inl e ↦ n e | inr w ↦ elim w [ inl a ↦ p a | inr b ↦ q b ] ])
    ]
  ]
]

same_nodes :
    (s u : Nodes) (h i : ℕ) (t : Tree) → Repr s h i t → Repr u h i t → Outside h i s u → u ≡ s
same_nodes s u h i t a b o =
    fun_ext λ j. elim (Sub-dec h i j) [ yes p ↦ Repr-unique s u h i t a b j p | no p ↦ o j p ]

-- Two valid managers of one tree count the same bytes.
same_counts :
    (m n : Buddy) (t : Tree)
    → m.max_order ≡ n.max_order
    → IsValid m t
    → IsValid n t
    → (m.used_bytes ≡ n.used_bytes) × (m.free_bytes ≡ n.free_bytes)
same_counts m n t e v w = (
  omega (arith, v.used_count, w.used_count, ap total same, ap length same),
  omega (arith, v.free_count, w.free_count, ap total same, ap (λ k. 2 ^ k) e),
)
  where
    same : in_use m t ≡ in_use n t
    same = ap (λ k. blocks k 0 t) e

-- `freeMemory` of a pointer that `allocMemory` gave restores the manager, all but the order byte
-- that the allocation wrote into the pool.
pub free_memory-alloc_memory :
    (m : Buddy) (t : Tree) (size : ℕ) (v : IsValid m t) (g : Granted m t size)
    → released g.want g.offset (placed g.want g.offset m g.nodes)
      ≡ record m { header = (placed g.want g.offset m g.nodes).header }
unfolding place
free_memory-alloc_memory m t size v g =
    released-eq n g.tree want x g.valid g.added.held
    ∙ (λ i. record n { node_state = nodes i; used_bytes = counts.0 i; free_bytes = counts.1 i })
  where
    open g use {want, offset as x}

    n : Buddy
    n = placed want x m g.nodes

    back : free_tree want x m.max_order 0 g.tree ≡ t
    back = free_tree-alloc_tree want m.max_order 0 t x g.tree g.found v.merged

    done : Freed (m.max_order - 5) 0 g.nodes t (free_rec want m.max_order 0 x g.nodes)
    done = rw back at (freed n g.tree want x g.valid g.added.held)

    nodes : free_rec want m.max_order 0 x g.nodes ≡ m.node_state
    nodes =
        same_nodes m.node_state _ (m.max_order - 5) 0 t v.repr done.0
          (λ j out. done.1 j out ∙ g.outside j out)

    final : IsValid (released want x n) t
    final = rw back at (free_memory-IsValid n g.tree want x g.valid g.added.held)

    counts :
        ((n.used_bytes + 2 ^ 32 - (2 ^ want - 8)) % 2 ^ 32 ≡ m.used_bytes)
        × ((n.free_bytes + 2 ^ want) % 2 ^ 32 ≡ m.free_bytes)
    counts =
        same_counts _ m t refl (rw (released-eq n g.tree want x g.valid g.added.held) at final) v
