-- ===== src/Semaphore/Names.antt =====
-- The names of Kernel/semaphoreManager.c: which name finds a semaphore that was just created.
use tp2_sistemas_operativos.Prelude.{
  ℕ, zero, suc, ◌+◌, ◌≤◌, ◌<◌, ◌≡◌, ◌≢◌, ◌⊎◌, inl, inr, refl, sym, ap, ◌∙◌, arith, List, [], ◌∷◌,
  Option, none, some, Bool, true, false, ◌&&◌, Bool-cases, update, update_self, update_ne, ltb,
  ◌==◌, if◌then◌else◌, length, get_or,
}
use tp2_sistemas_operativos.Memory.Interface.{Allocator}
use tp2_sistemas_operativos.Queue.{Queue, new_queue}
use tp2_sistemas_operativos.Semaphore.{
  SemKernel, Sem, name_matches, find_from, find_sem_by_name, free_sem_from, find_free_sem,
  create_at, set_opened, getpid, sem_create,
}

name_matches-copied :
    (j : ℕ) (x : Sem) (cs : List ℕ)
    → ((t : ℕ) → t < length cs → x.name (j + t) ≡ get_or cs t 0)
    → name_matches j x cs ≡ (x.name (j + length cs) == 0)
unfolding name_matches
name_matches-copied j x [] h = ap (λ i. x.name i == 0) (omega arith)
name_matches-copied j x (c ∷ cs) h =
    rw (same, name_matches-copied (j + 1) x cs later) (ap (λ i. x.name i == 0) (omega arith))
  where
    start : j ≡ j + 0
    start = omega arith

    same : (x.name j == c) ≡ true
    same = ground (arith, ap x.name start ∙ h 0 (omega arith))

    later : (t : ℕ) → t < length cs → x.name (j + 1 + t) ≡ get_or cs t 0
    later t l = ap x.name (omega arith) ∙ h (suc t) (omega (arith, l))

abbrev pub entry_matches : List ℕ → Sem → Bool
entry_matches name x = x.used && name_matches 0 x name

near_or_later : (i j : ℕ) → i ≤ j → (i ≡ j) ⊎ (i + 1 ≤ j)
near_or_later i j h = grind arith

below : (j k : ℕ) → (j < k) ⊎ (k ≤ j)
below j k = grind arith

module _ {Heap : Type 0} (name : List ℕ) where
  find_here :
      (n i : ℕ) (s : SemKernel Heap)
      → entry_matches name (s.sems i) ≡ true
      → find_from (suc n) i name s ≡ some i
  unfolding find_from
  find_here n i s e = rw e

  find_later :
      (n i : ℕ) (s : SemKernel Heap)
      → entry_matches name (s.sems i) ≡ false
      → find_from (suc n) i name s ≡ find_from n (i + 1) name s
  unfolding find_from
  find_later n i s e = rw e

  find_end : (i : ℕ) (s : SemKernel Heap) → find_from 0 i name s ≡ none
  unfolding find_from
  find_end i s = refl

  -- Nothing found: no entry in use has the name.
  none_matches :
      (n i : ℕ) (s : SemKernel Heap)
      → find_from n i name s ≡ none
      → (j : ℕ) → i ≤ j
      → j < i + n
      → entry_matches name (s.sems j) ≡ false
  none_matches zero i s e j l h = absurd (omega arith)
  none_matches (suc n) i s e j l h = elim (Bool-cases (entry_matches name (s.sems i))) [
    | inl m ↦ absurd (other (sym (find_here n i s m) ∙ e))
    | inr m ↦ elim (near_or_later i j l) [
      | inl q ↦ rw (← q) m
      | inr g ↦ none_matches n (i + 1) s (sym (find_later n i s m) ∙ e) j g (omega arith)
    ]
  ]
    where
      other : {a : ℕ} → ◌≡◌ {A = Option ℕ} (some a) none → ⊥
      other q = cc q

  found_nothing :
      (n i : ℕ) (s : SemKernel Heap)
      → ((j : ℕ) → i ≤ j → (entry_matches name (s.sems j) ≡ false) ⊎ (i + n ≤ j))
      → find_from n i name s ≡ none
  found_nothing zero i s h = find_end i s
  found_nothing (suc n) i s h = elim (h i (omega arith)) [
    | inl m ↦ find_later n i s m ∙ found_nothing n (i + 1) s (λ j l. after j (h j (omega arith)))
    | inr far ↦ absurd (omega arith)
  ]
    where
      after :
          (j : ℕ)
          → (entry_matches name (s.sems j) ≡ false) ⊎ (i + suc n ≤ j)
          → (entry_matches name (s.sems j) ≡ false) ⊎ (i + 1 + n ≤ j)
      after j (inl m) = inl m
      after j (inr far) = inr (omega arith)

  find_now :
      (n i : ℕ) (s : SemKernel Heap)
      → ((j : ℕ) → j < i + suc n → j ≢ i → entry_matches name (s.sems j) ≡ false)
      → find_from (suc n) i name s ≡ (if entry_matches name (s.sems i) then some i else none)
  find_now n i s others = elim (Bool-cases (entry_matches name (s.sems i))) [
    | inl m ↦ rw m (find_here n i s m)
    | inr m ↦
        rw m
          (find_later n i s m ∙ found_nothing n (i + 1) s (λ j l. rest j l (below j (i + suc n))))
  ]
    where
      rest :
          (j : ℕ)
          → i + 1 ≤ j
          → (j < i + suc n) ⊎ (i + suc n ≤ j)
          → (entry_matches name (s.sems j) ≡ false) ⊎ (i + 1 + n ≤ j)
      rest j l (inl h) = inl (others j h (omega arith))
      rest j l (inr far) = inr (omega arith)

  -- Where no other entry has the name, it is found at `id` if `id` has it.
  find_only :
      (n i id : ℕ) (s : SemKernel Heap)
      → i ≤ id
      → id < i + n
      → ((j : ℕ) → j < i + n → j ≢ id → entry_matches name (s.sems j) ≡ false)
      → find_from n i name s ≡ (if entry_matches name (s.sems id) then some id else none)
  find_only zero i id s l h others = absurd (omega arith)
  find_only (suc n) i id s l h others = elim (near_or_later i id l) [
    | inl q ↦ rw (← q) (find_now n i s (λ j m d. others j m (λ e. d (e ∙ sym q))))
    | inr g ↦
        find_later n i s (others i (omega arith) (omega arith))
        ∙ find_only n (i + 1) id s g (omega arith) (λ j m d. others j (omega arith) d)
  ]

free_sem_range :
    {Heap : Type 0} (n i id : ℕ) (s : SemKernel Heap) → free_sem_from n i s ≡ some id → id < i + n
unfolding free_sem_from
free_sem_range zero i id s e = absurd (cc e)
free_sem_range (suc n) i id s e = elim (Bool-cases (s.sems i).used) [
  | inl u ↦ omega (arith, free_sem_range n (i + 1) id s (ground arith))
  | inr u ↦ ground arith
]

set_opened_low :
    (i v : ℕ) (x : Sem)
    → i < 100
    → set_opened i v x ≡ record x { opened_by = update x.opened_by i v }
unfolding set_opened
set_opened_low i v x h = ground arith

copied_byte :
    (name : List ℕ) (old : ℕ → ℕ) (j : ℕ)
    → j < length name
    → (if ltb j (length name) then get_or name j 0 else old j) ≡ get_or name j 0
copied_byte name old j h = ground arith

byte_behind :
    (name : List ℕ) (old : ℕ → ℕ)
    → (if ltb (length name) (length name) then get_or name (length name) 0 else old (length name))
      ≡ old (length name)
byte_behind name old = ground arith

-- The entry of a semaphore that the process `i` has just created over the entry `x`.
copied_entry :
    (name : List ℕ) (i value : ℕ) (waiting : Queue) (x : Sem)
    → entry_matches name (record x {
      value = value;
      used = true;
      waiting = waiting;
      opened_by = update (λ j. 0) i 1;
      name = λ j. if ltb j (length name) then get_or name j 0 else x.name j;
    })
      ≡ (x.name (length name) == 0)
copied_entry name i value waiting x =
    name_matches-copied 0 _ name (λ t l.
      ap (λ j. if ltb j (length name) then get_or name j 0 else x.name j) (omega arith)
      ∙ copied_byte name x.name t l)
    ∙ ap (λ j. (if ltb j (length name) then get_or name j 0 else x.name j) == 0) (omega arith)
    ∙ ap (λ b. b == 0) (byte_behind name x.name)

module _ (A : Allocator) (null_pid : ℕ) where
  open A use {Heap}

  created_entry :
      (name : List ℕ) (value id : ℕ) (r : Queue × Heap) (s : SemKernel Heap)
      → getpid A null_pid s.kernel < 100
      → entry_matches name ((create_at A null_pid name value id r s).sems id)
        ≡ ((s.sems id).name (length name) == 0)
  unfolding create_at set_opened
  created_entry name value id (waiting, h) s p =
      ap (entry_matches name) (update_self s.sems _ id)
      ∙ ap (entry_matches name) (set_opened_low (getpid A null_pid s.kernel) 1 _ p)
      ∙ copied_entry name (getpid A null_pid s.kernel) value waiting (s.sems id)

  created_other :
      (name : List ℕ) (value id j : ℕ) (r : Queue × Heap) (s : SemKernel Heap)
      → j ≢ id
      → (create_at A null_pid name value id r s).sems j ≡ s.sems j
  unfolding create_at
  created_other name value id j (waiting, h) s d = update_ne s.sems _ (λ e. d (sym e))

  created :
      (name : List ℕ) (value id : ℕ) (s : SemKernel Heap)
      → length name ≤ 28
      → find_sem_by_name name s ≡ none
      → find_free_sem s ≡ some id
      → sem_create A null_pid name value s
        ≡ (some id, create_at A null_pid name value id (new_queue A s.kernel.heap) s)
  unfolding sem_create
  created name value id s l e f = rw (short, e, f, sem_create) refl
    where
      short : ltb 28 (length name) ≡ false
      short = ground arith

  -- A process with a PID below 100 that creates a semaphore with a new name of at most 28 bytes, while an
  -- entry is free, gets the first such entry; afterwards the name finds that semaphore exactly when
  -- the byte behind the name was 0 before, since the copy leaves out the NUL: the rest of the longer
  -- name of an earlier semaphore hides the new one.
  pub find_sem_by_name-sem_create :
      (name : List ℕ) (value id : ℕ) (s : SemKernel Heap)
      → getpid A null_pid s.kernel < 100
      → length name ≤ 28
      → find_sem_by_name name s ≡ none
      → find_free_sem s ≡ some id
      → ((sem_create A null_pid name value s).0 ≡ some id)
        × (find_sem_by_name name (sem_create A null_pid name value s).1
            ≡ (if (s.sems id).name (length name) == 0 then some id else none))
  unfolding find_sem_by_name find_free_sem
  find_sem_by_name-sem_create name value id s p l e f = rw (created name value id s l e f) (
    refl,
    find_only name 500 0 id after (omega arith) (omega (arith, free_sem_range 500 0 id s f))
          (λ j h d.
            ap (entry_matches name) (created_other name value id j r s d)
            ∙ none_matches name 500 0 s e j (omega arith) h)
        ∙ ap (λ b. if b then some id else none) (created_entry name value id r s p),
  )
    where
      r : Queue × Heap
      r = new_queue A s.kernel.heap

      after : SemKernel Heap
      after = create_at A null_pid name value id r s
