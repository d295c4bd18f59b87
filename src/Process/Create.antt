-- ===== src/Process/Create.antt =====
-- `createProcess` of Kernel/process/process.c.
-- The bytes that `memcpy` puts behind the pointers of `args` are not kept: no other part of the
-- kernel reads them.
pub mod Outcome
pub mod Total
use tp2_sistemas_operativos.Prelude.{
  ℕ, zero, suc, ◌+◌, ◌-◌, ◌*◌, ◌%◌, ◌^◌, List, [], ◌∷◌, ◌++◌, Option, none, some, Bool, true, false,
  not, ◌&&◌, ◌||◌, ltb, leb, ◌==◌, if◌then◌else◌, length, update,
}
use tp2_sistemas_operativos.Memory.Interface.{Allocator}
use tp2_sistemas_operativos.State.{
  Process, ProcessState, ready, Kernel, put_process, max_pid, stack_size,
}
use tp2_sistemas_operativos.Process.Table.{check_name, check_priority, get_free_process}
use tp2_sistemas_operativos.Scheduler.Ready.{schedule}

-- `argc` is `none` where it is negative; a name is `none` where it is NULL.
pub record CreationParameters : Type 0 where
  pub argc : Option ℕ
  pub argv : ℕ → List ℕ
  pub name : Option (List ℕ)
  pub priority : ℕ
  pub entry_point : ℕ
  pub foreground : ℕ
  pub fds : ℕ × ℕ

abbrev pub check_argc : Option ℕ → Bool
check_argc none = false
check_argc (some n) = true

abbrev pub argc_of : CreationParameters → ℕ
argc_of c = elim c.argc [ none ↦ 0 | some n ↦ n ]

abbrev pub name_of : CreationParameters → List ℕ
name_of c = elim c.name [ none ↦ [] | some s ↦ s ]

-- The guard of `createProcess`, for parameters that are not NULL.
abbrev pub accepted : {Heap : Type 0} → CreationParameters → Kernel Heap → Bool
accepted c k =
    check_priority c.priority
    && check_argc c.argc
    && not (c.entry_point == 0)
    && check_name c.name
    && leb k.current max_pid

-- What the new process has of its parameters, its arguments, its stack and `setupStack`'s result.
abbrev pub filled_in : CreationParameters → ℕ → List ℕ → ℕ → ℕ → Process → Process
filled_in c argv args base top p = record p {
  name = name_of c;
  argc = argc_of c;
  argv = argv;
  args = args;
  priority = c.priority;
  original_priority = c.priority;
  aging_counter = 0;
  entry_point = c.entry_point;
  foreground = c.foreground;
  wait_pid = none;
  state = ready;
  stack_base = base;
  stack_end = top;
  fds = c.fds;
}

-- `freeMemory` of each.
module _ (A : Allocator) where
  open A use {Heap, free}

  unfoldable pub free_each : List ℕ → Heap → Heap
  free_each [] h = h
  free_each (p ∷ ps) h = free_each ps (free p h)

-- `setup_stack` is `setupStack` of Kernel/asm/interrupts.asm with the address of `processLoader`.
module _ (A : Allocator) (setup_stack : ℕ → ℕ → ℕ → ℕ → ℕ) where
  open A use {Heap, alloc, free}

  -- The loop that reserves room for each argument, from the argument `i` on, with the pointers so
  -- far: whether every request is met, and the pointers.
  unfoldable pub alloc_args : ℕ → ℕ → (ℕ → List ℕ) → List ℕ → Heap → Bool × List ℕ × Heap
  alloc_args zero i argv done h = (true, done, h)
  alloc_args (suc n) i argv done h =
      let r = alloc ((length (argv i) + 1) % 2 ^ 32) h in
      let rest = alloc_args n (i + 1) argv (done ++ (r.0 ∷ [])) r.1 in
      if r.0 == 0 then (false, done, r.1) else rest

  -- The table's entry is filled in and scheduled.
  unfoldable pub enter :
      CreationParameters → ℕ → ℕ → List ℕ → ℕ → Kernel Heap → Option ℕ × Kernel Heap
  enter c stack array args slot k =
      let base = stack + stack_size in
      let top = setup_stack (argc_of c) array c.entry_point base in
      let p = filled_in c array args base top (k.processes slot) in
      (some p.pid, schedule A (some slot) (put_process slot p k))

  unfoldable pub with_slot :
      CreationParameters → ℕ → ℕ → List ℕ → Option ℕ → Kernel Heap → Option ℕ × Kernel Heap
  with_slot c stack array args none k =
      (none, record k { heap = free array (free_each A args (free stack k.heap)) })
  with_slot c stack array args (some slot) k = enter c stack array args slot k

  unfoldable pub with_args :
      CreationParameters → ℕ → ℕ → Bool × List ℕ × Heap → Kernel Heap → Option ℕ × Kernel Heap
  with_args c stack array (false, args, h) k =
      (none, record k { heap = free stack (free array (free_each A args h)) })
  with_args c stack array (true, args, h) k =
      with_slot c stack array args (get_free_process k) (record k { heap = h })

  -- `args` stays NULL without arguments.
  unfoldable pub alloc_array : ℕ → Heap → ℕ × Heap
  alloc_array argc h = if argc == 0 then (0, h) else alloc (argc * 8 % 2 ^ 32) h

  unfoldable pub with_array :
      CreationParameters → ℕ → ℕ × Heap → Kernel Heap → Option ℕ × Kernel Heap
  with_array c stack (array, h) k =
      if not (argc_of c == 0) && array == 0
      then (none, record k { heap = free 0 (free stack h) })
      else with_args c stack array (alloc_args (argc_of c) 0 c.argv [] h) k

  unfoldable pub with_stack : CreationParameters → ℕ × Heap → Kernel Heap → Option ℕ × Kernel Heap
  with_stack c (stack, h) k =
      if stack == 0
      then (none, record k { heap = free 0 (free 0 h) })
      else with_array c stack (alloc_array (argc_of c) h) k

  unfoldable pub create_process : Option CreationParameters → Kernel Heap → Option ℕ × Kernel Heap
  create_process none k = (none, k)
  create_process (some c) k =
      if accepted c k then with_stack c (alloc stack_size k.heap) k else (none, k)
