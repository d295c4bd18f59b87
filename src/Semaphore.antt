-- ===== src/Semaphore.antt =====
-- Kernel/semaphoreManager.c: the table of semaphores.
-- An `int` is its 32 bits, so that a negative one is from 2^31 up. Each operation takes the entry's
-- spin lock at its start and releases it at its end or before it blocks, so that the lock is left out.
pub mod Wake
pub mod Handover
pub mod Destroyed
pub mod Names
mod Tests
use tp2_sistemas_operativos.Prelude.{
  ℕ, zero, suc, ◌+◌, ◌-◌, ◌%◌, ◌^◌, List, [], ◌∷◌, Option, none, some, Bool, true, false, not, ◌&&◌,
  ◌||◌, ltb, leb, ◌==◌, if◌then◌else◌, length, get_or, update,
}
use tp2_sistemas_operativos.Memory.Interface.{Allocator}
use tp2_sistemas_operativos.Queue.{Node, Queue, nodes, new_queue, queue, free_queue}
use tp2_sistemas_operativos.State.{Process, Kernel}
use tp2_sistemas_operativos.Scheduler.Aging.{emptied}
use tp2_sistemas_operativos.Scheduler.Block.{block_process, unblock_process}

abbrev pub max_sems : ℕ
max_sems = 500

abbrev pub s_max_name_length : ℕ
s_max_name_length = 28

-- `opened_by` and `name` are arrays of 100 and 28 bytes, one behind the other.
pub record Sem : Type 0 where
  pub value : ℕ
  pub used : Bool
  pub waiting : Queue
  pub opened_by : ℕ → ℕ
  pub name : ℕ → ℕ

pub record SemKernel (Heap : Type 0) : Type 0 where
  pub sems : ℕ → Sem
  pub kernel : Kernel Heap

abbrev pub is_negative : ℕ → Bool
is_negative n = leb (2 ^ 31) n

-- `a < b` on `int`.
abbrev pub signed_lt : ℕ → ℕ → Bool
signed_lt a b = ltb ((a + 2 ^ 31) % 2 ^ 32) ((b + 2 ^ 31) % 2 ^ 32)

-- `openedBy[i] = v`, which for an index from 100 up is a byte of `name`.
unfoldable pub set_opened : ℕ → ℕ → Sem → Sem
set_opened i v s =
    if ltb i 100
    then record s { opened_by = update s.opened_by i v }
    else record s { name = update s.name (i - 100) v }

unfoldable pub opened : ℕ → Sem → ℕ
opened i s = if ltb i 100 then s.opened_by i else s.name (i - 100)

-- `strcmp(sems[i].name + j, name) == 0`.
unfoldable pub name_matches : ℕ → Sem → List ℕ → Bool
name_matches j s [] = s.name j == 0
name_matches j s (c ∷ cs) = let rest = name_matches (j + 1) s cs in s.name j == c && rest

-- `memcpy(sems[i].name, name, strlen(name))`: the NUL is not copied.
abbrev pub copy_name : List ℕ → Sem → Sem
copy_name name s = record s {
  name = λ j. if ltb j (length name) then get_or name j 0 else s.name j;
}

module _ {Heap : Type 0} where
  abbrev pub put_sem : ℕ → Sem → SemKernel Heap → SemKernel Heap
  put_sem i x s = record s { sems = update s.sems i x }

  abbrev pub init_sem_manager : SemKernel Heap → SemKernel Heap
  init_sem_manager s = record s {
    sems = λ i.
        if ltb i max_sems then record (s.sems i) { used = false; waiting = none } else s.sems i;
  }

  unfoldable pub free_sem_from : ℕ → ℕ → SemKernel Heap → Option ℕ
  free_sem_from zero i s = none
  free_sem_from (suc n) i s =
      let rest = free_sem_from n (i + 1) s in if (s.sems i).used then rest else some i

  unfoldable pub find_free_sem : SemKernel Heap → Option ℕ
  find_free_sem s = free_sem_from max_sems 0 s

  unfoldable pub find_from : ℕ → ℕ → List ℕ → SemKernel Heap → Option ℕ
  find_from zero i name s = none
  find_from (suc n) i name s =
      let rest = find_from n (i + 1) name s in
      if (s.sems i).used && name_matches 0 (s.sems i) name then some i else rest

  unfoldable pub find_sem_by_name : List ℕ → SemKernel Heap → Option ℕ
  find_sem_by_name name s = find_from max_sems 0 name s

  abbrev pub sem_exists : ℕ → SemKernel Heap → Bool
  sem_exists id s = not (is_negative id) && ltb id max_sems && (s.sems id).used

abbrev pub with_nodes : Queue → List Node → Queue
with_nodes none ns = none
with_nodes (some (q, old)) ns = some (q, ns)

module _ (A : Allocator) where
  open A use {Heap, free}

  -- `n` rounds of `unblockProcess(dequeue(waiting))`, over the nodes that are left: the nodes after
  -- them, and the kernel.
  unfoldable pub wake : ℕ → List Node → Kernel Heap → List Node × Kernel Heap
  wake zero ns k = (ns, k)
  wake (suc n) [] k = ([], k)
  wake (suc n) ((a, pid) ∷ ns) k =
      wake n ns (unblock_process A pid (record k { heap = free a k.heap })).1

  -- At most `n` processes that wait for the semaphore are woken.
  unfoldable pub wake_up : ℕ → ℕ → SemKernel Heap → SemKernel Heap
  wake_up n id s =
      let x = s.sems id in
      let out = wake n (nodes x.waiting) s.kernel in
      record {
        sems = update s.sems id (record x { waiting = with_nodes x.waiting out.0 });
        kernel = out.1;
      }

  unfoldable pub wake_all : ℕ → SemKernel Heap → SemKernel Heap
  wake_all id s = wake_up (length (nodes (s.sems id).waiting)) id s

  unfoldable pub sem_post : ℕ → SemKernel Heap → Option ℕ × SemKernel Heap
  sem_post id s =
      let x = s.sems id in
      if is_negative id || leb max_sems id
      then (none, s)
      else if not x.used
      then (none, s)
      else (some 0, wake_all id (put_sem id (record x { value = (x.value + 1) % 2 ^ 32 }) s))

  -- The queue is freed, and `waiting` still points to it.
  unfoldable pub destroyed : ℕ → SemKernel Heap → SemKernel Heap
  destroyed id s = record s {
    kernel = record s.kernel { heap = free_queue A (s.sems id).waiting s.kernel.heap };
  }

  unfoldable pub sem_destroy : ℕ → SemKernel Heap → Option ℕ × SemKernel Heap
  sem_destroy id s =
      if is_negative id
      then (none, s)
      else (some 0, destroyed id (wake_all id (put_sem id (record (s.sems id) { used = false }) s)))

  unfoldable pub sem_set_value : ℕ → ℕ → SemKernel Heap → Option ℕ × SemKernel Heap
  sem_set_value id value s =
      let x = s.sems id in
      let set = put_sem id (record x { value = value }) s in
      if is_negative id || leb max_sems id || is_negative value
      then (none, s)
      else if not x.used
      then (none, s)
      else if signed_lt x.value value
      then (some 0, wake_up ((value + 2 ^ 32 - x.value) % 2 ^ 32) id set)
      else (some 0, set)

-- What a turn of `semWait` comes to: a result of -1, the caller blocked in the loop, or a result of 0.
pub data Turn : Type 0 where
  refused asleep taken : Turn

-- `null_pid` is what `getpid` reads where `currentProcess` is NULL.
module _ (A : Allocator) (null_pid : ℕ) where
  open A use {Heap, alloc, free}

  abbrev pub getpid : Kernel Heap → ℕ
  getpid k = elim k.current_process [ none ↦ null_pid | some i ↦ (k.processes i).pid ]

  unfoldable pub create_at : List ℕ → ℕ → ℕ → Queue × Heap → SemKernel Heap → SemKernel Heap
  create_at name value id (waiting, h) s =
      let fresh = record (s.sems id) { value = value; used = true; waiting = waiting } in
      let named = record (copy_name name fresh) { opened_by = λ i. 0 } in
      put_sem id (set_opened (getpid s.kernel) 1 named)
        (record s { kernel = record s.kernel { heap = h } })

  unfoldable pub sem_create : List ℕ → ℕ → SemKernel Heap → Option ℕ × SemKernel Heap
  sem_create name value s =
      if ltb s_max_name_length (length name) then (none, s) else elim (find_sem_by_name name s) [
        | some id ↦ (none, s)
        | none ↦ elim (find_free_sem s) [
          | none ↦ (none, s)
          | some id ↦ (some id, create_at name value id (new_queue A s.kernel.heap) s)
        ]
      ]

  unfoldable pub sem_open : List ℕ → SemKernel Heap → Option ℕ × SemKernel Heap
  sem_open name s = elim (find_sem_by_name name s) [
    | none ↦ (none, s)
    | some id ↦ (some id, put_sem id (set_opened (getpid s.kernel) 1 (s.sems id)) s)
  ]

  unfoldable pub sem_close : ℕ → SemKernel Heap → Option ℕ × SemKernel Heap
  sem_close id s =
      if is_negative id
      then (none, s)
      else if not (s.sems id).used || opened (getpid s.kernel) (s.sems id) == 0
      then (none, s)
      else (some 0, put_sem id (set_opened (getpid s.kernel) 0 (s.sems id)) s)

  -- The caller is put into the waiting queue and blocked.
  unfoldable pub sleep : ℕ → ℕ → Queue × Heap → SemKernel Heap → Option (Turn × SemKernel Heap)
  sleep rsp id (waiting, h) s =
      let sems = update s.sems id (record (s.sems id) { waiting = waiting }) in
      elim (block_process A rsp (getpid s.kernel) (record s.kernel { heap = h })) [
        | none ↦ none
        | some (c, k) ↦ some (asleep, record { sems = sems; kernel = k })
      ]

  -- One test of the `while`, which a caller that was woken comes back to.
  unfoldable pub wait_turn : ℕ → ℕ → SemKernel Heap → Option (Turn × SemKernel Heap)
  wait_turn rsp id s =
      let x = s.sems id in
      if x.value == 0
      then sleep rsp id (queue A x.waiting (getpid s.kernel) s.kernel.heap) s
      else some (taken, put_sem id (record x { value = (x.value + 2 ^ 32 - 1) % 2 ^ 32 }) s)

  unfoldable pub sem_wait : ℕ → ℕ → SemKernel Heap → Option (Turn × SemKernel Heap)
  sem_wait rsp id s =
      if is_negative id
      then some (refused, s)
      else if not (s.sems id).used
      then some (refused, s)
      else wait_turn rsp id s
