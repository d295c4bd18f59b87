-- ===== src/Process/Table.antt =====
-- The process table of Kernel/process/process.c.
-- `none` stands for a result of -1 or NULL.
pub mod Free
pub mod Report
use tp2_sistemas_operativos.Prelude.{
  ℕ, zero, suc, ◌+◌, ◌-◌, ◌*◌, List, [], ◌∷◌, Option, none, some, Bool, true, false, not, ◌&&◌,
  ◌||◌, ltb, leb, ◌==◌, if◌then◌else◌, length, update,
}
use tp2_sistemas_operativos.Memory.Interface.{Allocator}
use tp2_sistemas_operativos.State.{
  Process, ProcessState, exited, Kernel, is_exited, max_processes, max_pid, max_priority,
  min_priority, max_name_length, init_pid, shell_pid, state_of,
}

-- `none` is a NULL name; a name is its bytes before the NUL.
abbrev pub check_name : Option (List ℕ) → Bool
check_name none = false
check_name (some name) = leb (length name) max_name_length

abbrev pub check_priority : ℕ → Bool
check_priority priority = leb min_priority priority && leb priority max_priority

abbrev pub cleared : ℕ → Process → Process
cleared i p = record p {
  pid = i + 1;
  state = exited;
  argv = 0;
  argc = 0;
  wait_pid = none;
  fds = (0, 1);
}

-- Entries of the array that `getProcessesInformation` returns. The marker is an entry with the PID
-- NONPID, here `none`.
abbrev pub Entry : Type 0
Entry = Option Process

-- `for (i = 0; i <= count; i++)`: every entry is a marker first.
unfoldable pub markers : ℕ → List Entry
markers zero = []
markers (suc n) = none ∷ markers n

-- A write to `ans[i]`; there is no entry behind the end.
unfoldable pub write_entry : ℕ → Process → List Entry → List Entry
write_entry i p [] = []
write_entry zero p (e ∷ es) = some p ∷ es
write_entry (suc i) p (e ∷ es) = e ∷ write_entry i p es

module _ {Heap : Type 0} where
  abbrev pub is_valid_pid : ℕ → Kernel Heap → Bool
  is_valid_pid pid k = ltb 0 pid && leb pid max_pid && not (is_exited (state_of k (pid - 1)))

  -- `for (i = 0; i < MAX_PROCESSES; i++)`, whose iterations each write their own entry.
  abbrev pub init_processes : Kernel Heap → Kernel Heap
  init_processes k = record k {
    current = 1;
    processes = λ i. if ltb i max_processes then cleared i (k.processes i) else k.processes i;
  }

  -- The first of the `n` entries from `i` on that is EXITED.
  unfoldable pub free_from : ℕ → ℕ → Kernel Heap → Option ℕ
  free_from zero i k = none
  free_from (suc n) i k =
      let rest = free_from n (i + 1) k in if is_exited (state_of k i) then some i else rest

  unfoldable pub get_free_process : Kernel Heap → Option ℕ
  get_free_process k = free_from max_processes 0 k

  unfoldable pub count_from : ℕ → ℕ → ℕ → Kernel Heap → ℕ
  count_from zero i count k = count
  count_from (suc n) i count k =
      count_from n (i + 1) (if is_exited (state_of k i) then count else count + 1) k

  unfoldable pub get_processes_count : Kernel Heap → ℕ
  get_processes_count k = count_from max_processes 0 0 k

  unfoldable pub foreground_from : ℕ → ℕ → Kernel Heap → Option ℕ
  foreground_from zero i k = none
  foreground_from (suc n) i k =
      let rest = foreground_from n (i + 1) k in
      let p = k.processes i in
      if not (p.foreground == 0)
        && not (is_exited p.state)
        && not (p.pid == init_pid)
        && not (p.pid == shell_pid)
      then some i
      else rest

  unfoldable pub get_terminal_foreground_process : Kernel Heap → Option ℕ
  get_terminal_foreground_process k = foreground_from max_processes 0 k

  -- The two descriptors, or -1 without a current process.
  unfoldable pub get_file_descriptors : Kernel Heap → Option (ℕ × ℕ)
  get_file_descriptors k = elim k.current_process [
    | none ↦ none
    | some i ↦ some (k.processes i).fds
  ]

  -- `for (…; i < MAX_PROCESSES && ansIndex < count; i++)`, with `n` entries of the table left.
  unfoldable pub copy_from : ℕ → ℕ → ℕ → ℕ → Kernel Heap → List Entry → List Entry
  copy_from zero i index count k ans = ans
  copy_from (suc n) i index count k ans =
      let skipped = copy_from n (i + 1) index count k ans in
      let copied =
        copy_from n (i + 1) (index + 1) count k (write_entry index (k.processes i) ans) in
      if ltb index count then (if is_exited (state_of k i) then skipped else copied) else ans

-- `sizeof(Process)`.
abbrev pub process_size : ℕ
process_size = 128

module _ (A : Allocator) where
  open A use {Heap, alloc, free}

  unfoldable pub filled : ℕ → Kernel Heap → ℕ × Heap → Option (ℕ × List Entry) × Heap
  filled count k (p, h) = (
    if p == 0 then none else some (p, copy_from max_processes 0 0 count k (markers (count + 1))),
    h,
  )

  unfoldable pub get_processes_information : Kernel Heap → Option (ℕ × List Entry) × Heap
  unfolding filled
  get_processes_information k =
      let count = get_processes_count k in
      filled count k (alloc ((count + 1) * process_size) k.heap)

  unfoldable pub free_processes_information : ℕ → Heap → Heap
  free_processes_information p h = free p h
