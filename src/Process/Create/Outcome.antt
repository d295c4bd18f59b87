-- ===== src/Process/Create/Outcome.antt =====
-- What `createProcess` of Kernel/process/process.c leaves behind.
use tp2_sistemas_operativos.Prelude.{
  ℕ, ◌+◌, ◌<◌, ◌≡◌, ◌≢◌, ◌⊎◌, inl, inr, refl, sym, ◌∙◌, arith, List, Option, none, some, Bool, true,
  false, not, ◌&&◌, Bool-cases, ◌==◌,
}
use tp2_sistemas_operativos.Memory.Interface.{Allocator}
use tp2_sistemas_operativos.State.{Kernel, state_of, is_exited, put_process}
use tp2_sistemas_operativos.Scheduler.Ready.{schedule}
use tp2_sistemas_operativos.Process.Table.{get_free_process}
use tp2_sistemas_operativos.Process.Table.Free.{get_free_process_lem}
use tp2_sistemas_operativos.Process.Create.{
  CreationParameters, accepted, filled_in, create_process, with_stack, with_array, with_args,
  with_slot, enter, argc_of,
}

module _ (A : Allocator) (setup_stack : ℕ → ℕ → ℕ → ℕ → ℕ) where
  open A use {Heap, alloc, free}

  -- Refused: the result is -1, and nothing but the heap changes.
  pub record Refused (k : Kernel Heap) (out : Option ℕ × Kernel Heap) : Type 0 where
    pub heap : Heap
    pub answer : out ≡ (none, record k { heap = heap })

  -- A process was created from `c`.
  pub record Created (c : CreationParameters) (k : Kernel Heap) (out : Option ℕ × Kernel Heap)
      : Type 0 where
    pub slot : ℕ
    pub stack : ℕ
    pub array : ℕ
    pub args : List ℕ
    pub heap : Heap
    pub stack_given : stack ≢ 0
    pub range : slot < 100
    pub free : is_exited (state_of k slot) ≡ true
    pub least : (j : ℕ) → j < slot → is_exited (state_of k j) ≡ false
    pub accepted : accepted c k ≡ true
    pub pid : out.0 ≡ some (k.processes slot).pid
    pub kernel :
        out.1
        ≡ schedule A (some slot) (
            put_process slot
              (filled_in c array args
                (stack + 4096)
                (setup_stack (argc_of c) array c.entry_point (stack + 4096))
                (k.processes slot))
              (record k { heap = heap }))

  by_slot :
      (c : CreationParameters) (stack array : ℕ) (args : List ℕ) (h : Heap) (k : Kernel Heap)
      (o : Option ℕ)
      → stack ≢ 0
      → accepted c k ≡ true
      → get_free_process k ≡ o
      → Refused k (with_slot A setup_stack c stack array args o (record k { heap = h }))
        ⊎ Created c k (with_slot A setup_stack c stack array args o (record k { heap = h }))
  unfolding with_slot enter
  by_slot c stack array args h k none s a e = inl (record { heap = _; answer = refl })
  by_slot c stack array args h k (some slot) s a e = elim (get_free_process_lem k) [
    | inl f ↦ inr (record {
      slot = slot;
      stack = stack;
      array = array;
      args = args;
      heap = h;
      stack_given = s;
      range = omega (arith, f.high, same (sym e ∙ f.answer));
      free = rw (same (sym e ∙ f.answer)) f.free;
      least = λ j l. f.least j (omega arith) (omega (arith, l, same (sym e ∙ f.answer)));
      accepted = a;
      pid = refl;
      kernel = refl;
    })
    | inr f ↦ absurd (other (sym e ∙ f.answer))
  ]
    where
      same : {a b : ℕ} → some a ≡ some b → a ≡ b
      same q = ground arith

      other : {a : ℕ} → ◌≡◌ {A = Option ℕ} (some a) none → ⊥
      other q = cc q

  by_args :
      (c : CreationParameters) (stack array : ℕ) (r : Bool × List ℕ × Heap) (k : Kernel Heap)
      → stack ≢ 0
      → accepted c k ≡ true
      → Refused k (with_args A setup_stack c stack array r k)
        ⊎ Created c k (with_args A setup_stack c stack array r k)
  unfolding with_args
  by_args c stack array (false, args, h) k s a = inl (record { heap = _; answer = refl })
  by_args c stack array (true, args, h) k s a = by_slot c stack array args h k _ s a refl

  by_array :
      (c : CreationParameters) (stack : ℕ) (r : ℕ × Heap) (k : Kernel Heap)
      → stack ≢ 0
      → accepted c k ≡ true
      → Refused k (with_array A setup_stack c stack r k)
        ⊎ Created c k (with_array A setup_stack c stack r k)
  unfolding with_array
  by_array c stack (array, h) k s a = elim (Bool-cases (not (argc_of c == 0) && array == 0)) [
    | inl e ↦ rw e (inl (record { heap = _; answer = refl }))
    | inr e ↦ rw e (by_args c stack array _ k s a)
  ]

  by_stack :
      (c : CreationParameters) (r : ℕ × Heap) (k : Kernel Heap)
      → accepted c k ≡ true
      → Refused k (with_stack A setup_stack c r k) ⊎ Created c k (with_stack A setup_stack c r k)
  unfolding with_stack
  by_stack c (stack, h) k a = elim (Bool-cases (stack == 0)) [
    | inl e ↦ rw e (inl (record { heap = _; answer = refl }))
    | inr e ↦ rw e (by_array c stack _ k (ground (arith, e)) a)
  ]

  -- `createProcess` either answers -1 and changes nothing but the heap, or its parameters are
  -- accepted and a process with a stack is filled into the least EXITED entry, whose PID is the
  -- answer, and handed to the scheduler.
  pub create_process_lem :
      (c : CreationParameters) (k : Kernel Heap)
      → Refused k (create_process A setup_stack (some c) k)
        ⊎ Created c k (create_process A setup_stack (some c) k)
  unfolding create_process
  create_process_lem c k = elim (Bool-cases (accepted c k)) [
    | inl e ↦ rw e (by_stack c _ k e)
    | inr e ↦ rw e (inl (record { heap = k.heap; answer = refl }))
  ]
