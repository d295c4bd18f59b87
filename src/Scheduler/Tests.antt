-- ===== src/Scheduler/Tests.antt =====
-- The scheduler on two processes and a heap that hands out increasing addresses.
use tp2_sistemas_operativos.Prelude.{
  ℕ, ◌+◌, ◌≡◌, ◌⊎◌, refl, arith, [], ◌∷◌, ◌++◌, none, some, false, ◌==◌, if◌then◌else◌,
}
use tp2_sistemas_operativos.Memory.Interface.{Allocator}
use tp2_sistemas_operativos.Queue.{Queue, elements}
use tp2_sistemas_operativos.State.{Process, Kernel, ready, running, blocked, put_state, state_of}
use tp2_sistemas_operativos.Scheduler.Ready.{unschedule, get_process}
use tp2_sistemas_operativos.Scheduler.Block.{block_process, unblock_process}
use tp2_sistemas_operativos.Scheduler.Block.Twice.{unblock_process-block_process}
use tp2_sistemas_operativos.Scheduler.Aging.Bounds.{Waited}
use tp2_sistemas_operativos.Scheduler.Aging.Passes.{agings, passes, passes-Waited}
use tp2_sistemas_operativos.Scheduler.Aging.{
  apply_aging, age_queues, age_queue, age_into, age_nodes, requeue_nodes, age, boost_level,
  boosted_priority,
}
use tp2_sistemas_operativos.Queue.{new_queue, free_queue, free_nodes, queue, is_empty}
use tp2_sistemas_operativos.Scheduler.Ready.{put_ready}
use tp2_sistemas_operativos.Scheduler.Ready.Choice.{Idle, Chosen, unschedule_lem}
use tp2_sistemas_operativos.Scheduler.Switch.{switch_context}
use tp2_sistemas_operativos.Scheduler.Switch.Total.{Switched, switch_context_lem}

abbrev pub bump : Allocator
bump = record { Heap = ℕ; alloc = λ size top. (top, top + size); free = λ p top. top }

-- The process of the entry `i`: entry 4 runs, the others are ready.
abbrev pub process_at : ℕ → Process
process_at i = record {
  name = [];
  pid = i + 1;
  argc = 0;
  argv = 0;
  args = [];
  priority = 3;
  original_priority = 3;
  foreground = 0;
  entry_point = 64;
  state = running;
  stack_base = 8192;
  stack_end = 8000 + i;
  wait_return_value = 0;
  wait_pid = none;
  fds = (0, 1);
  aging_counter = 0;
}

abbrev pub queue_at : ℕ → Queue
queue_at i = if i == 2 then some (32, (48, 5) ∷ []) else some (32, [])

-- Entry 4 has used up its quantum, and entry 5 waits.
abbrev pub busy : Kernel ℕ
busy = record {
  processes = process_at;
  current = 1;
  queues = queue_at;
  current_process = some 4;
  quantums_left = 0;
  is_yield = false;
  heap = 4096;
}

unschedule_example :
    Idle bump 5 busy (unschedule bump busy) ⊎ Chosen bump 5 busy (unschedule bump busy)
unschedule_example = unschedule_lem bump busy

switch_context_example : Switched bump 7000 busy (switch_context bump 7000 busy)
switch_context_example = switch_context_lem bump 7000 busy

-- Entry 9 waits in its queue.
abbrev crowded : Kernel ℕ
crowded = record busy { processes = λ i. record (process_at i) { state = ready } }

found_entry : get_process 10 crowded ≡ some 9
unfolding get_process
found_entry = refl

unblock_process-block_process_example :
    (block_process bump 7000 10 crowded ≡ some (0, put_state 9 blocked crowded))
    × (state_of (unblock_process bump 10 (put_state 9 blocked crowded)).1 9 ≡ ready)
    × (elements ((unblock_process bump 10 (put_state 9 blocked crowded)).1.queues 2)
        ≡ elements (crowded.queues 2) ++ (9 ∷ []))
unblock_process-block_process_example =
    unblock_process-block_process bump crowded 7000 10 9 32 ((48, 5) ∷ []) found_entry refl
      (omega arith) (omega arith) refl (omega arith)

-- Entry 5 waits with priority 1.
abbrev waiting : Kernel ℕ
waiting = record busy {
  processes = λ i. record (process_at i) { priority = 1; original_priority = 1 };
  queues = λ i. if i == 0 then some (32, (48, 5) ∷ []) else some (32, []);
}

-- In the fifteenth pass it is raised, and comes up again in the next queue.
sixteen_agings : agings bump 5 15 waiting ≡ 16
unfolding apply_aging age_queues age_queue age_into age_nodes requeue_nodes put_ready age
    boost_level boosted_priority new_queue free_queue free_nodes queue is_empty
sixteen_agings = refl

passes-Waited_example :
    Waited (agings bump 5 15 waiting) (waiting.processes 5) ((passes bump 15 waiting).processes 5)
passes-Waited_example =
    passes-Waited bump 5 15 waiting (omega (arith, sixteen_agings)) refl refl (omega arith)
      (omega arith) (omega arith)
