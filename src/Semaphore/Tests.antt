-- ===== src/Semaphore/Tests.antt =====
-- The semaphores with one in use, for which one process waits.
use tp2_sistemas_operativos.Prelude.{
  ℕ, suc, ◌+◌, ◌%◌, ◌^◌, ◌≡◌, refl, arith, [], ◌∷◌, none, some, false, ◌==◌, if◌then◌else◌, All,
}
use tp2_sistemas_operativos.Memory.Interface.{Allocator}
use tp2_sistemas_operativos.Queue.{elements}
use tp2_sistemas_operativos.State.{Process, Kernel, running, blocked}
use tp2_sistemas_operativos.Semaphore.{
  Sem, SemKernel, taken, put_sem, sem_post, sem_wait, sem_create, find_sem_by_name, find_free_sem,
  find_from, free_sem_from, name_matches,
}
use tp2_sistemas_operativos.Semaphore.Wake.{Awake, sem_post_lem}
use tp2_sistemas_operativos.Semaphore.Handover.{sem_wait-sem_post}
use tp2_sistemas_operativos.Semaphore.Names.{find_sem_by_name-sem_create}

abbrev bump : Allocator
bump = record { Heap = ℕ; alloc = λ size top. (suc top, top + size); free = λ p top. top }

-- Entry 5, of PID 6, is BLOCKED; entry 4, of PID 5, runs.
abbrev process_at : ℕ → Process
process_at i = record {
  name = [];
  pid = i + 1;
  argc = 0;
  argv = 0;
  args = [];
  priority = 3;
  original_priority = 3;
  foreground = 0;
  entry_point = 64;
  state = if i == 5 then blocked else running;
  stack_base = 8192;
  stack_end = 8000 + i;
  wait_return_value = 0;
  wait_pid = none;
  fds = (0, 1);
  aging_counter = 0;
}

abbrev kernel : Kernel ℕ
kernel = record {
  processes = process_at;
  current = 1;
  queues = λ i. some (32, []);
  current_process = some 4;
  quantums_left = 3;
  is_yield = false;
  heap = 4096;
}

-- Entry 0 is in use; the name of entry 1 was "abc" once.
abbrev sem_at : ℕ → Sem
sem_at i = record {
  value = 0;
  used = i == 0;
  waiting = if i == 0 then some (64, (80, 6) ∷ []) else none;
  opened_by = λ j. 0;
  name = λ j.
      if i == 1
      then (if j == 0 then 97 else if j == 1 then 98 else if j == 2 then 99 else 0)
      else 0;
}

abbrev state : SemKernel ℕ
state = record { sems = sem_at; kernel = kernel }

sem_post_example :
    ((sem_post bump 0 state).0 ≡ some 0)
    × (((sem_post bump 0 state).1.sems 0).value ≡ (0 + 1) % 2 ^ 32)
    × (elements ((sem_post bump 0 state).1.sems 0).waiting ≡ [])
    × All (Awake (sem_post bump 0 state).1.kernel) (6 ∷ [])
sem_post_example = sem_post_lem bump 0 state (omega arith) refl ((omega arith, omega arith), _)

sem_wait-sem_post_example :
    sem_wait bump 0 7000 0 (sem_post bump 0 state).1
    ≡ some (
      taken,
      put_sem 0 (record ((sem_post bump 0 state).1.sems 0) { value = 0 }) (sem_post bump 0 state).1,
    )
sem_wait-sem_post_example = sem_wait-sem_post bump 0 7000 0 state (omega arith) refl (omega arith)

first_free : find_free_sem state ≡ some 1
unfolding find_free_sem free_sem_from
first_free = refl

-- Nothing is called "x", and the name "x" copied over "abc" reads "xbc".
unknown : find_sem_by_name (120 ∷ []) state ≡ none
unfolding find_sem_by_name find_from name_matches
unknown = refl

find_sem_by_name-sem_create_example :
    ((sem_create bump 0 (120 ∷ []) 3 state).0 ≡ some 1)
    × (find_sem_by_name (120 ∷ []) (sem_create bump 0 (120 ∷ []) 3 state).1 ≡ none)
find_sem_by_name-sem_create_example =
    find_sem_by_name-sem_create bump 0 (120 ∷ []) 3 1 state (omega arith) (omega arith) unknown
      first_free
