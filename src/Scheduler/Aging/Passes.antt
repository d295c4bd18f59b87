-- ===== src/Scheduler/Aging/Passes.antt =====
-- How often the passes of `applyAging` of Kernel/process/scheduler.c age a process, and how far they
-- raise it.
use tp2_sistemas_operativos.Prelude.{
  ℕ, zero, suc, ◌+◌, ◌*◌, ◌^◌, ◌≤◌, ◌<◌, ◌≡◌, ◌≢◌, refl, sym, ap, subst, ◌∙◌, arith, inl, inr, List,
  [], ◌∷◌, none, some, true, false, Bool-cases, ◌==◌, if◌then◌else◌, ==_iff,
}
use tp2_sistemas_operativos.Memory.Interface.{Allocator}
use tp2_sistemas_operativos.Queue.{Node, Queue, nodes, is_empty, new_queue}
use tp2_sistemas_operativos.State.{Process, Kernel, put_process, max_priority}
use tp2_sistemas_operativos.Scheduler.Ready.{put_ready}
use tp2_sistemas_operativos.Scheduler.Aging.{
  age, age_nodes, requeue_nodes, age_into, age_queue, age_queues, apply_aging,
}
use tp2_sistemas_operativos.Scheduler.Aging.Bounds.{aged, Waited, aged-Waited}

-- How often the process `i` stands in a queue.
abbrev pub count : ℕ → List Node → ℕ
count i [] = 0
count i ((a, x) ∷ ns) = let rest = count i ns in if x == i then suc rest else rest

aged_shift : (n : ℕ) (p : Process) → aged n (age p) ≡ age (aged n p)
aged_shift zero p = refl
aged_shift (suc n) p = ap age (aged_shift n p)

aged_add : (m n : ℕ) (p : Process) → aged (m + n) p ≡ aged n (aged m p)
aged_add zero n p = ap (λ x. aged x p) (omega arith)
aged_add (suc m) n p =
    ap (λ x. aged x p) (suc_add m n) ∙ ap age (aged_add m n p) ∙ sym (aged_shift n (aged m p))
  where
    suc_add : (m n : ℕ) → suc m + n ≡ suc (m + n)
    suc_add m n = omega arith

module _ (A : Allocator) (i : ℕ) where
  open A use {Heap, alloc}

  -- How often the loop over the queue `j` ages the process: not at all if the temporary queue is NULL.
  abbrev pub agings_in : ℕ → Kernel Heap → ℕ
  agings_in j k = if (alloc 16 k.heap).0 == 0 then 0 else count i (nodes (k.queues j))

  -- From the queue `j` on, each as the loops before it left it.
  abbrev pub agings_from : ℕ → ℕ → Kernel Heap → ℕ
  agings_from zero j k = 0
  agings_from (suc n) j k = agings_in j k + agings_from n (j + 1) (age_queue A j k)

  -- How often `n` passes age the process.
  abbrev pub agings : ℕ → Kernel Heap → ℕ
  agings zero k = 0
  agings (suc n) k = agings_from max_priority 0 k + agings n (apply_aging A k)

  age_nodes-aged :
      (ns : List Node) (temp : Queue) (k : Kernel Heap)
      → (age_nodes A ns temp k).1.processes i ≡ aged (count i ns) (k.processes i)
  unfolding age_nodes
  age_nodes-aged [] temp k = refl
  age_nodes-aged ((a, x) ∷ ns) temp k =
      age_nodes-aged ns _ (put_process x (age (k.processes x)) _) ∙ elim (Bool-cases (x == i)) [
        | inl e ↦ rw e (
            ap (λ y. aged (count i ns) (age (k.processes y))) ((==_iff x i).0 e)
            ∙ aged_shift (count i ns) (k.processes i))
        | inr e ↦ rw e refl
      ]

  requeue_nodes-keeps :
      (ns : List Node) (k : Kernel Heap) → (requeue_nodes A ns k).processes i ≡ k.processes i
  unfolding requeue_nodes put_ready
  requeue_nodes-keeps [] k = refl
  requeue_nodes-keeps ((a, x) ∷ ns) k = requeue_nodes-keeps ns _

  age_into-aged :
      (j : ℕ) (temp : Queue) (k : Kernel Heap)
      → (age_into A j temp k).processes i ≡ aged (count i (nodes (k.queues j))) (k.processes i)
  unfolding age_into
  age_into-aged j temp k = requeue_nodes-keeps _ _ ∙ age_nodes-aged (nodes (k.queues j)) temp _

  empty_none : (q : Queue) → is_empty q ≡ true → count i (nodes q) ≡ 0
  unfolding is_empty
  empty_none none e = refl
  empty_none (some (q, [])) e = refl
  empty_none (some (q, n ∷ ns)) e = absurd (cc e)

  -- A queue with nodes, by whether there was room for the temporary queue.
  full_queue :
      (j : ℕ) (k : Kernel Heap)
      → is_empty (k.queues j) ≡ false
      → (age_queue A j k).processes i ≡ aged (agings_in j k) (k.processes i)
  unfolding age_queue new_queue
  full_queue j k f = elim (Bool-cases ((alloc 16 k.heap).0 == 0)) [
    | inl e ↦ rw (f, e) refl
    | inr e ↦ rw (f, e) (age_into-aged j _ (record k { heap = (new_queue A k.heap).1 }))
  ]

  none_aged : (j : ℕ) (k : Kernel Heap) → is_empty (k.queues j) ≡ true → agings_in j k ≡ 0
  none_aged j k e = ground (arith, empty_none (k.queues j) e)

  empty_queue : (j : ℕ) (k : Kernel Heap) → is_empty (k.queues j) ≡ true → age_queue A j k ≡ k
  unfolding age_queue
  empty_queue j k e = rw e refl

  age_queue-aged :
      (j : ℕ) (k : Kernel Heap)
      → (age_queue A j k).processes i ≡ aged (agings_in j k) (k.processes i)
  age_queue-aged j k = elim (Bool-cases (is_empty (k.queues j))) [
    | inl e ↦
        ap (λ s. s.processes i) (empty_queue j k e)
        ∙ ap (λ n. aged n (k.processes i)) (sym (none_aged j k e))
    | inr e ↦ full_queue j k e
  ]

  age_queues-aged :
      (n j : ℕ) (k : Kernel Heap)
      → (age_queues A n j k).processes i ≡ aged (agings_from n j k) (k.processes i)
  unfolding age_queues
  age_queues-aged zero j k = refl
  age_queues-aged (suc n) j k =
      age_queues-aged n (j + 1) (age_queue A j k)
      ∙ ap (aged (agings_from n (j + 1) (age_queue A j k))) (age_queue-aged j k)
      ∙ sym (aged_add (agings_in j k) (agings_from n (j + 1) (age_queue A j k)) (k.processes i))

module _ (A : Allocator) where
  open A use {Heap}

  abbrev pub passes : ℕ → Kernel Heap → Kernel Heap
  passes zero k = k
  passes (suc n) k = passes n (apply_aging A k)

  passes-aged :
      (i n : ℕ) (k : Kernel Heap) → (passes n k).processes i ≡ aged (agings A i n k) (k.processes i)
  unfolding apply_aging
  passes-aged i zero k = refl
  passes-aged i (suc n) k =
      passes-aged i n (apply_aging A k)
      ∙ ap (aged (agings A i n (apply_aging A k))) (age_queues-aged A i max_priority 0 k)
      ∙ sym (
          aged_add (agings_from A i max_priority 0 k) (agings A i n (apply_aging A k))
            (k.processes i))

  -- After any number of passes of `applyAging`, a process other than init and the shell whose counter
  -- was 0, and whose priority was its own, at most 5, has in its counter how often the loops over the
  -- queues came to it, which is fewer than 15 * 2^31 times; it is raised by one level for each 15 of
  -- those times, by two levels at most and not above 5, and its own priority stays. A loop comes to it
  -- as often as it stands in the queue then, which for a process that the same pass has raised is more
  -- than once in the pass, and not at all if there is no room for the temporary queue.
  pub passes-Waited :
      (i n : ℕ) (k : Kernel Heap)
      → agings A i n k < 15 * 2 ^ 31
      → (k.processes i).aging_counter ≡ 0
      → (k.processes i).priority ≡ (k.processes i).original_priority
      → (k.processes i).original_priority ≤ 5
      → (k.processes i).pid ≢ 1
      → (k.processes i).pid ≢ 2
      → Waited (agings A i n k) (k.processes i) ((passes n k).processes i)
  passes-Waited i n k few c e o init shell =
      subst (Waited (agings A i n k) (k.processes i)) (sym (passes-aged i n k))
        (aged-Waited (agings A i n k) (k.processes i) few c e o init shell)
