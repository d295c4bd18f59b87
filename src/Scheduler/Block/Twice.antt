-- ===== src/Scheduler/Block/Twice.antt =====
-- A READY process that is blocked and unblocked, Kernel/process/scheduler.c.
use tp2_sistemas_operativos.Prelude.{
  ℕ, ◌-◌, ◌≤◌, ◌≡◌, ◌≢◌, ap, ◌∙◌, refl, sym, arith, List, [], ◌∷◌, ◌++◌, map, some, false,
  if◌then◌else◌, update_self, ==_ne,
}
use mathlib.Core.List.{map-append}
use tp2_sistemas_operativos.Memory.Interface.{Allocator}
use tp2_sistemas_operativos.Queue.{Node, elements, queue}
use tp2_sistemas_operativos.State.{Kernel, put_state, state_of, ready, blocked}
use tp2_sistemas_operativos.Scheduler.Ready.{get_process, schedule, put_ready, queue_index}
use tp2_sistemas_operativos.Scheduler.Block.{block_process, unblock_process, is_current}

module _ {Heap : Type 0} where
  found_valid :
      (k : Kernel Heap) (pid i : ℕ)
      → get_process pid k ≡ some i
      → (1 ≤ pid) × (pid ≤ 100) × (i ≡ pid - 1)
  unfolding get_process
  found_valid k pid i e = (ground arith, ground arith, ground arith)

  found_blocked :
      (k : Kernel Heap) (pid i : ℕ)
      → get_process pid k ≡ some i
      → get_process pid (put_state i blocked k) ≡ some i
  unfolding get_process
  found_blocked k pid i e = let v = found_valid k pid i e in rw v.2 (ground arith)

module _ (A : Allocator) where
  open A use {Heap, alloc}

  schedule_in_range :
      (k : Kernel Heap) (i : ℕ)
      → 1 ≤ (k.processes i).priority
      → (k.processes i).priority ≤ 5
      → schedule A (some i) k ≡ put_ready A ((k.processes i).priority - 1) i k
  unfolding schedule
  schedule_in_range k i l h = ground (arith, index)
    where
      index : queue_index (k.processes i) ≡ (k.processes i).priority - 1
      index = omega (arith, l, h)

  queue_room :
      (q : ℕ) (ns : List Node) (x : ℕ) (h : Heap)
      → (alloc 16 h).0 ≢ 0
      → elements (queue A (some (q, ns)) x h).0 ≡ map (λ n. n.1) ns ++ (x ∷ [])
  unfolding queue
  queue_room q ns x h r =
      ap (λ b. elements (if b then some (q, ns) else some (q, ns ++ (((alloc 16 h).0, x) ∷ []))))
        (==_ne (alloc 16 h).0 0 r)
      ∙ map-append (λ n. n.1) ns (((alloc 16 h).0, x) ∷ [])

  unblock_blocked :
      (k : Kernel Heap) (pid i : ℕ)
      → get_process pid k ≡ some i
      → state_of k i ≡ blocked
      → unblock_process A pid k ≡ (some 0, schedule A (some i) (put_state i ready k))
  unfolding unblock_process
  unblock_blocked k pid i e b = rw (e, unblock_process) (rw b)

  block_other :
      (k : Kernel Heap) (rsp pid i : ℕ)
      → get_process pid k ≡ some i
      → is_current (k.processes i).pid (put_state i blocked k) ≡ false
      → block_process A rsp pid k ≡ some (0, put_state i blocked k)
  unfolding block_process
  block_other k rsp pid i e c = rw (e, block_process) (rw c)

  put_ready-queue :
      (j i : ℕ) (k : Kernel Heap) → (put_ready A j i k).queues j ≡ (queue A (k.queues j) i k.heap).0
  unfolding put_ready
  put_ready-queue j i k = update_self k.queues (queue A (k.queues j) i k.heap).0 j

  put_ready_state : (j i x : ℕ) (k : Kernel Heap) → state_of (put_ready A j i k) x ≡ state_of k x
  unfolding put_ready
  put_ready_state j i x k = refl

  -- The state before the process enters its queue again.
  abbrev restarted : ℕ → Kernel Heap → Kernel Heap
  restarted i k = put_state i ready (put_state i blocked k)

  restarted_priority :
      (i : ℕ) (k : Kernel Heap) → ((restarted i k).processes i).priority ≡ (k.processes i).priority
  restarted_priority i k = ground arith

  restarted_state : (i : ℕ) (k : Kernel Heap) → state_of (restarted i k) i ≡ ready
  restarted_state i k = ap (λ p. p.state) (update_self (put_state i blocked k).processes _ i)

  unblocked :
      (k : Kernel Heap) (pid i : ℕ)
      → get_process pid k ≡ some i
      → 1 ≤ (k.processes i).priority
      → (k.processes i).priority ≤ 5
      → (unblock_process A pid (put_state i blocked k)).1
        ≡ put_ready A ((k.processes i).priority - 1) i (restarted i k)
  unblocked k pid i e lo hi =
      ap (λ o. o.1)
        (unblock_blocked (put_state i blocked k) pid i (found_blocked k pid i e)
          (ap (λ p. p.state) (update_self k.processes _ i)))
      ∙ schedule_in_range (restarted i k) i (omega (arith, lo, restarted_priority i k))
          (omega (arith, hi, restarted_priority i k))
      ∙ ap (λ n. put_ready A (n - 1) i (restarted i k)) (restarted_priority i k)

  -- `blockProcess` of a process in use that is not the current one answers 0 and only sets its
  -- state, so that an entry it has in its queue stays there, and `unblockProcess` adds another
  -- one: after both the process is READY, and its queue is what it was with one more entry of that
  -- process. Its priority is from 1 to 5, its queue is not NULL, and the heap has room for the
  -- node.
  pub unblock_process-block_process :
      (k : Kernel Heap) (rsp pid i q : ℕ) (ns : List Node)
      → get_process pid k ≡ some i
      → is_current (k.processes i).pid (put_state i blocked k) ≡ false
      → 1 ≤ (k.processes i).priority
      → (k.processes i).priority ≤ 5
      → k.queues ((k.processes i).priority - 1) ≡ some (q, ns)
      → (alloc 16 k.heap).0 ≢ 0
      → (block_process A rsp pid k ≡ some (0, put_state i blocked k))
        × (state_of (unblock_process A pid (put_state i blocked k)).1 i ≡ ready)
        × (elements (
              (unblock_process A pid (put_state i blocked k)).1.queues
                ((k.processes i).priority - 1))
            ≡ elements (k.queues ((k.processes i).priority - 1)) ++ (i ∷ []))
  unblock_process-block_process k rsp pid i q ns e c lo hi held room = (
    block_other k rsp pid i e c,
    ap (λ s. state_of s i) again ∙ put_ready_state j i i (restarted i k) ∙ restarted_state i k,
    ap (λ s. elements (s.queues j)) again
        ∙ ap elements (put_ready-queue j i (restarted i k))
        ∙ ap (λ o. elements (queue A o i k.heap).0) held
        ∙ queue_room q ns i k.heap room
        ∙ ap (λ o. elements o ++ (i ∷ [])) (sym held),
  )
    where
      j : ℕ
      j = (k.processes i).priority - 1

      again : (unblock_process A pid (put_state i blocked k)).1 ≡ put_ready A j i (restarted i k)
      again = unblocked k pid i e lo hi
