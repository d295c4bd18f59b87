-- ===== src/Process/Create/Total.antt =====
-- `createProcess` of Kernel/process/process.c whose requests the heap meets.
use tp2_sistemas_operativos.Prelude.{
  ℕ, zero, suc, ◌+◌, ◌*◌, ◌^◌, ◌%◌, ◌≡◌, inl, inr, refl, sym, List, [], ◌∷◌, ◌++◌, some, Bool, true,
  false, not, ◌&&◌, Bool-cases, length, ◌==◌, if◌then◌else◌,
}
use tp2_sistemas_operativos.Memory.Interface.{Allocator}
use tp2_sistemas_operativos.State.{Kernel, stack_size}
use tp2_sistemas_operativos.Process.Table.{get_free_process}
use tp2_sistemas_operativos.Process.Create.{
  CreationParameters, accepted, create_process, with_stack, with_array, with_args, with_slot, enter,
  alloc_args, alloc_array, argc_of,
}

-- The sizes that the arguments from `i` on ask for: each with its NUL, as the 32 bits of an `unsigned`.
abbrev pub arg_sizes : ℕ → ℕ → (ℕ → List ℕ) → List ℕ
arg_sizes zero i argv = []
arg_sizes (suc n) i argv = ((length (argv i) + 1) % 2 ^ 32) ∷ arg_sizes n (i + 1) argv

-- All that `createProcess` asks the heap for: the stack, the array of pointers and the arguments.
abbrev pub requests : CreationParameters → List ℕ
requests c =
    stack_size ∷ (if argc_of c == 0 then [] else argc_of c * 8 % 2 ^ 32 ∷ [])
    ++ arg_sizes (argc_of c) 0 c.argv

module _ (A : Allocator) where
  open A use {Heap, alloc}

  -- Whether the heap meets the requests, one after the other.
  abbrev pub meets : List ℕ → Heap → Bool
  meets [] h = true
  meets (n ∷ ns) h = let rest = meets ns (alloc n h).1 in if (alloc n h).0 == 0 then false else rest

  met_first :
      (n : ℕ) (ns : List ℕ) (h : Heap)
      → meets (n ∷ ns) h ≡ true
      → (((alloc n h).0 == 0) ≡ false) × (meets ns (alloc n h).1 ≡ true)
  met_first n ns h m = elim (Bool-cases ((alloc n h).0 == 0)) [
    | inl e ↦ absurd (differ (sym (rw e at m)))
    | inr e ↦ (e, rw e at m)
  ]
    where
      differ : true ≡ false → ⊥
      differ q = cc q

module _ (A : Allocator) (setup_stack : ℕ → ℕ → ℕ → ℕ → ℕ) where
  open A use {Heap, alloc}

  args_given :
      (n i : ℕ) (argv : ℕ → List ℕ) (done : List ℕ) (h : Heap)
      → meets A (arg_sizes n i argv) h ≡ true
      → (alloc_args A setup_stack n i argv done h).0 ≡ true
  unfolding alloc_args
  args_given zero i argv done h m = refl
  args_given (suc n) i argv done h m =
      let r = alloc ((length (argv i) + 1) % 2 ^ 32) h in
      let (here, rest) = met_first A _ (arg_sizes n (i + 1) argv) h m in
      rw here (args_given n (i + 1) argv (done ++ (r.0 ∷ [])) r.1 rest)

  array_given :
      (argc : ℕ) (sizes : List ℕ) (h : Heap)
      → meets A ((if argc == 0 then [] else argc * 8 % 2 ^ 32 ∷ []) ++ sizes) h ≡ true
      → ((not (argc == 0) && (alloc_array A setup_stack argc h).0 == 0) ≡ false)
        × (meets A sizes (alloc_array A setup_stack argc h).1 ≡ true)
  unfolding alloc_array
  array_given argc sizes h m = elim (Bool-cases (argc == 0)) [
    | inl e ↦ rw e (refl, rw e at m)
    | inr e ↦
        let (here, rest) = met_first A (argc * 8 % 2 ^ 32) sizes h (rw e at m) in
        rw (e, here) (refl, rest)
  ]

  slot_taken :
      (c : CreationParameters) (stack array slot : ℕ) (r : Bool × List ℕ × Heap) (k : Kernel Heap)
      → r.0 ≡ true
      → get_free_process k ≡ some slot
      → (with_args A setup_stack c stack array r k).0 ≡ some (k.processes slot).pid
  unfolding with_args with_slot enter
  slot_taken c stack array slot (false, args, h) k e f = absurd (cc e)
  slot_taken c stack array slot (true, args, h) k e f = rw f refl

  array_passed :
      (c : CreationParameters) (stack slot : ℕ) (r : ℕ × Heap) (k : Kernel Heap)
      → ((not (argc_of c == 0) && r.0 == 0) ≡ false)
        × (meets A (arg_sizes (argc_of c) 0 c.argv) r.1 ≡ true)
      → get_free_process k ≡ some slot
      → (with_array A setup_stack c stack r k).0 ≡ some (k.processes slot).pid
  unfolding with_array
  array_passed c stack slot (array, h) k e f =
      rw e.0 (slot_taken c stack array slot _ k (args_given (argc_of c) 0 c.argv [] h e.1) f)

  -- `createProcess` answers with a PID whenever it accepts the parameters, an entry of the table is
  -- EXITED, and the heap meets its requests, one after the other, for the stack, for the array of
  -- pointers where there are arguments, and for each argument with its NUL: the PID is that of the
  -- first such entry.
  pub create_process-total :
      (c : CreationParameters) (k : Kernel Heap) (slot : ℕ)
      → accepted c k ≡ true
      → get_free_process k ≡ some slot
      → meets A (requests c) k.heap ≡ true
      → (create_process A setup_stack (some c) k).0 ≡ some (k.processes slot).pid
  unfolding create_process with_stack
  create_process-total c k slot a f m =
      let (here, rest) = met_first A stack_size _ k.heap m in
      rw (a, here)
        (array_passed c (alloc stack_size k.heap).0 slot _ k (array_given (argc_of c) _ _ rest) f)
