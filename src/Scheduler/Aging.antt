-- ===== src/Scheduler/Aging.antt =====
-- `applyAging` of Kernel/process/scheduler.c: what waits too long is raised, so that it is not starved.
pub mod Bounds
pub mod Passes
use tp2_sistemas_operativos.Prelude.{
  ℕ, zero, suc, ◌+◌, ◌-◌, ◌/◌, ◌%◌, ◌^◌, List, [], ◌∷◌, Option, none, some, Bool, true, false, ◌&&◌,
  ◌||◌, ltb, leb, ◌==◌, if◌then◌else◌, update,
}
use tp2_sistemas_operativos.Memory.Interface.{Allocator}
use tp2_sistemas_operativos.Queue.{Node, Queue, nodes, is_empty, new_queue, queue, free_queue}
use tp2_sistemas_operativos.State.{
  Process, Kernel, put_process, put_queue, max_priority, init_pid, shell_pid,
}
use tp2_sistemas_operativos.Scheduler.Ready.{queue_index, put_ready}

abbrev pub aging_threshold : ℕ
aging_threshold = 15

abbrev pub max_aging_boost : ℕ
max_aging_boost = 2

-- `int boostLevel`: the quotient's low 32 bits, where a value from 2^31 on is negative and so is not
-- above MAX_AGING_BOOST.
unfoldable pub boost_level : ℕ → ℕ
boost_level counter =
    let level = counter / aging_threshold % 2 ^ 32 in
    if ltb max_aging_boost level && ltb level (2 ^ 31) then max_aging_boost else level

unfoldable pub boosted_priority : ℕ → ℕ → ℕ
boosted_priority original level =
    let boosted = (original + level) % 2 ^ 32 in
    if ltb max_priority boosted then max_priority else boosted

-- What the loop over a queue does to each process in it.
unfoldable pub age : Process → Process
unfolding boost_level boosted_priority
age p =
    let counter = (p.aging_counter + 1) % 2 ^ 64 in
    let boosted = record p {
      aging_counter = counter;
      priority = boosted_priority p.original_priority (boost_level counter);
    } in
    if p.pid == init_pid || p.pid == shell_pid
    then p
    else if leb aging_threshold counter && ltb p.priority max_priority
    then boosted
    else record p { aging_counter = counter }

module _ (A : Allocator) where
  open A use {Heap, alloc, free}

  -- `while (!isEmpty(queue))`: each node is dequeued, its process aged and put into the other queue.
  unfoldable pub age_nodes : List Node → Queue → Kernel Heap → Queue × Kernel Heap
  age_nodes [] temp k = (temp, k)
  age_nodes ((a, pcb) ∷ ns) temp k =
      let (temp', h) = queue A temp pcb (free a k.heap) in
      age_nodes ns temp' (put_process pcb (age (k.processes pcb)) (record k { heap = h }))

  -- `while (!isEmpty(tempQueue))`: each process goes to the queue of its priority.
  unfoldable pub requeue_nodes : List Node → Kernel Heap → Kernel Heap
  unfolding put_ready
  requeue_nodes [] k = k
  requeue_nodes ((a, pcb) ∷ ns) k =
      requeue_nodes ns
        (put_ready A (queue_index (k.processes pcb)) pcb (record k { heap = free a k.heap }))

  abbrev pub emptied : Queue → Queue
  emptied none = none
  emptied (some (q, ns)) = some (q, [])

  -- One queue, given the temporary queue, which is empty and not NULL.
  unfoldable pub age_into : ℕ → Queue → Kernel Heap → Kernel Heap
  age_into i temp k =
      let (full, aged) =
        age_nodes (nodes (k.queues i)) temp (put_queue i (emptied (k.queues i)) k.heap k) in
      let done = requeue_nodes (nodes full) aged in
      record done { heap = free_queue A (emptied full) done.heap }

  unfoldable pub age_queue : ℕ → Kernel Heap → Kernel Heap
  unfolding age_into
  age_queue i k =
      let (temp, h) = new_queue A k.heap in
      if is_empty (k.queues i) then k else elim temp [
        | none ↦ record k { heap = h }
        | some q ↦ age_into i (some q) (record k { heap = h })
      ]

  unfoldable pub age_queues : ℕ → ℕ → Kernel Heap → Kernel Heap
  age_queues zero i k = k
  age_queues (suc n) i k = age_queues n (i + 1) (age_queue i k)

  unfoldable pub apply_aging : Kernel Heap → Kernel Heap
  apply_aging k = age_queues max_priority 0 k
