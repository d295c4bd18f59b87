-- ===== src/Queue.antt =====
-- Kernel/queueADT.c: a FIFO queue of pointers on the kernel's heap.
-- A queue is NULL, or the address of its `queueCDT` with its nodes in the order of the `tail`
-- links; a node is its address and its `data`. `first` and `last` are the ends of that list, so the
-- links are not stored a second time.
use tp2_sistemas_operativos.Prelude.{
  ℕ, List, [], ◌∷◌, ◌++◌, map, Option, none, some, Bool, true, false, ◌==◌, if◌then◌else◌,
}
use tp2_sistemas_operativos.Memory.Interface.{Allocator}

abbrev pub Node : Type 0
Node = ℕ × ℕ

abbrev pub Queue : Type 0
Queue = Option (ℕ × List Node)

-- `sizeof(node)` and `sizeof(queueCDT)`: two pointers each.
abbrev pub node_size : ℕ
node_size = 16

abbrev pub nodes : Queue → List Node
nodes none = []
nodes (some (q, ns)) = ns

abbrev pub elements : Queue → List ℕ
elements q = map (λ n. n.1) (nodes q)

unfoldable pub is_empty : Queue → Bool
is_empty none = true
is_empty (some (q, [])) = true
is_empty (some (q, n ∷ ns)) = false

-- Whether the loop of `removeFromQueue` finds the element, with the address of its node, and the
-- nodes that are left.
unfoldable pub unlink : ℕ → List Node → Option ℕ × List Node
unlink x [] = (none, [])
unlink x ((a, y) ∷ ns) =
    let (found, rest) = unlink x ns in if y == x then (some a, ns) else (found, (a, y) ∷ rest)

module _ (A : Allocator) where
  open A use {Heap, alloc, free}

  unfoldable pub new_queue : Heap → Queue × Heap
  new_queue h = let (p, h') = alloc node_size h in (if p == 0 then none else some (p, []), h')

  -- An element is dropped where the queue is NULL or the heap has no room for its node.
  unfoldable pub queue : Queue → ℕ → Heap → Queue × Heap
  queue none x h = (none, h)
  queue (some (q, ns)) x h =
      let (p, h') = alloc node_size h in
      (if p == 0 then some (q, ns) else some (q, ns ++ ((p, x) ∷ [])), h')

  unfoldable pub dequeue : Queue → Heap → Option ℕ × Queue × Heap
  dequeue none h = (none, none, h)
  dequeue (some (q, [])) h = (none, some (q, []), h)
  dequeue (some (q, (a, x) ∷ ns)) h = (some x, some (q, ns), free a h)

  unlinked : ℕ → Heap → Option ℕ × List Node → Bool × Queue × Heap
  unlinked q h (none, ns) = (false, some (q, ns), h)
  unlinked q h (some a, ns) = (true, some (q, ns), free a h)

  unfoldable pub remove_from_queue : Queue → ℕ → Heap → Bool × Queue × Heap
  unfolding unlink unlinked
  remove_from_queue none x h = (false, none, h)
  remove_from_queue (some (q, ns)) x h = unlinked q h (unlink x ns)

  -- Every node is dequeued, then the `queueCDT` is freed.
  unfoldable pub free_nodes : List Node → Heap → Heap
  free_nodes [] h = h
  free_nodes ((a, x) ∷ ns) h = free_nodes ns (free a h)

  unfoldable pub free_queue : Queue → Heap → Heap
  free_queue none h = h
  free_queue (some (q, ns)) h = free q (free_nodes ns h)
