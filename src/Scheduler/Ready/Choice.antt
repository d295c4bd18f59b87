-- ===== src/Scheduler/Ready/Choice.antt =====
-- Which process `unschedule` of Kernel/process/scheduler.c takes.
use tp2_sistemas_operativos.Prelude.{
  ℕ, zero, suc, ◌<◌, ◌≡◌, ◌⊎◌, inl, inr, refl, arith, List, [], ◌∷◌, Option, none, some, true,
}
use tp2_sistemas_operativos.Memory.Interface.{Allocator}
use tp2_sistemas_operativos.Queue.{Queue, Node, is_empty, dequeue}
use tp2_sistemas_operativos.State.{Kernel, put_queue}
use tp2_sistemas_operativos.Scheduler.Ready.{unschedule_from, unschedule}

module _ (A : Allocator) where
  open A use {Heap, free}

  -- Nothing is queued below `n`, and nothing changes.
  pub record Idle (n : ℕ) (k : Kernel Heap) (out : Option ℕ × Kernel Heap) : Type 0 where
    pub empty : (j : ℕ) → j < n → is_empty (k.queues j) ≡ true
    pub answer : out ≡ (none, k)

  -- The oldest entry of the highest queue that is not empty is taken out.
  pub record Chosen (n : ℕ) (k : Kernel Heap) (out : Option ℕ × Kernel Heap) : Type 0 where
    pub index : ℕ
    pub below : index < n
    pub header : ℕ
    pub cell : ℕ
    pub pcb : ℕ
    pub rest : List Node
    pub held : k.queues index ≡ some (header, (cell, pcb) ∷ rest)
    pub higher : (j : ℕ) → index < j → j < n → is_empty (k.queues j) ≡ true
    pub answer : out ≡ (some pcb, put_queue index (some (header, rest)) (free cell k.heap) k)

  Queue-cases :
      (q : Queue)
      → (is_empty q ≡ true)
        ⊎ ((h : ℕ) × (a : ℕ) × (x : ℕ) × (ns : List Node) × (q ≡ some (h, (a, x) ∷ ns)))
  unfolding is_empty
  Queue-cases none = inl refl
  Queue-cases (some (h, [])) = inl refl
  Queue-cases (some (h, (a, x) ∷ ns)) = inr (h, a, x, ns, refl)

  last_or_less : (i j : ℕ) → j < suc i → (j ≡ i) ⊎ (j < i)
  last_or_less i j h = grind arith

  skip_empty :
      (i : ℕ) (k : Kernel Heap)
      → is_empty (k.queues i) ≡ true
      → unschedule_from A (suc i) k ≡ unschedule_from A i k
  unfolding unschedule_from
  skip_empty i k e = rw e refl

  take_head :
      (i : ℕ) (k : Kernel Heap) (h a x : ℕ) (ns : List Node)
      → k.queues i ≡ some (h, (a, x) ∷ ns)
      → unschedule_from A (suc i) k ≡ (some x, put_queue i (some (h, ns)) (free a k.heap) k)
  unfolding unschedule_from is_empty dequeue
  take_head i k h a x ns e = simp e refl

  pub unschedule_from_lem :
      (n : ℕ) (k : Kernel Heap)
      → Idle n k (unschedule_from A n k) ⊎ Chosen n k (unschedule_from A n k)
  unfolding unschedule_from
  unschedule_from_lem zero k = inl (record { empty = λ j h. absurd (omega arith); answer = refl })
  unschedule_from_lem (suc i) k = elim (Queue-cases (k.queues i)) [
    | inl e ↦ rw (skip_empty i k e) (elim (unschedule_from_lem i k) [
      | inl idle ↦ inl (record {
        empty = λ j h. elim (last_or_less i j h) [ inl q ↦ rw q e | inr less ↦ idle.empty j less ];
        answer = idle.answer;
      })
      | inr c ↦ inr (record {
        index = c.index;
        below = omega (arith, c.below);
        header = c.header;
        cell = c.cell;
        pcb = c.pcb;
        rest = c.rest;
        held = c.held;
        higher = λ j above h. elim (last_or_less i j h) [
          | inl q ↦ rw q e
          | inr less ↦ c.higher j above less
        ];
        answer = c.answer;
      })
    ])
    | inr (h, a, x, ns, e) ↦ inr (record {
      index = i;
      below = omega arith;
      header = h;
      cell = a;
      pcb = x;
      rest = ns;
      held = e;
      higher = λ j above less. absurd (omega arith);
      answer = take_head i k h a x ns e;
    })
  ]

  -- `unschedule` takes the oldest entry of the highest of the five queues that has one and leaves
  -- the rest as it was; if all are empty it returns NULL and changes nothing.
  pub unschedule_lem : (k : Kernel Heap) → Idle 5 k (unschedule A k) ⊎ Chosen 5 k (unschedule A k)
  unfolding unschedule
  unschedule_lem k = unschedule_from_lem 5 k
