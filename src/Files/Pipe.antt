-- ===== src/Files/Pipe.antt =====
-- Kernel/fds.c: `readFromFD` and `writeToFD`.
-- A call that has to wait for a semaphore stops at that point, and a function of its own goes on from
-- there when the process is woken. `a` is the address of the stream, which the call reads at its start.
use tp2_sistemas_operativos.Prelude.{
  ℕ, zero, suc, ◌%◌, ◌^◌, List, [], ◌∷◌, ◌++◌, map, Option, none, some, Bool, true, false, not,
  ◌&&◌, ◌||◌, ◌==◌, if◌then◌else◌, codes,
}
use tp2_sistemas_operativos.Memory.Interface.{Allocator}
use tp2_sistemas_operativos.Semaphore.{
  SemKernel, Turn, refused, asleep, taken, sem_post, sem_wait, wait_turn,
}
use tp2_sistemas_operativos.Files.Buffer.{Stream, is_positive, put_byte, take_byte}
use tp2_sistemas_operativos.Files.{FileKernel, with_sem, put_stream, stdin, stdout, stderr}

-- "Error: STDIN cannot be read in background processes.\n"
abbrev pub background_error : List ℕ
background_error = codes "Error: STDIN cannot be read in background processes." ++ b'\n' ∷ []

-- How far a call has come: the bytes so far, and the rounds that are left if it waits.
pub record Read : Type 0 where
  pub bytes : List ℕ
  pub left : Option ℕ

abbrev pub prepend : ℕ → Read → Read
prepend c out = record out { bytes = c ∷ out.bytes }

-- The loop of `readFromFD` on STDIN over the answers of `getKeyboardCharacter`, EOF as `none`: the
-- bytes, and the answers that are left.
unfoldable pub read_keys : ℕ → List (Option ℕ) → List ℕ × List (Option ℕ)
read_keys zero keys = ([], keys)
read_keys (suc n) [] = ([], [])
read_keys (suc n) (none ∷ keys) = ([], keys)
read_keys (suc n) (some c ∷ keys) = let rest = read_keys n keys in ((c % 2 ^ 8) ∷ rest.0, rest.1)

-- The answer of a wait: whether the loop sleeps, with the state.
abbrev pub after_wait :
    {Heap R : Type 0}
    → (FileKernel Heap → R)
    → (FileKernel Heap → Option R)
    → FileKernel Heap
    → Option (Turn × SemKernel Heap)
    → Option R
after_wait stop go k none = none
after_wait stop go k (some (asleep, s)) = some (stop (with_sem s k))
after_wait stop go k (some (refused, s)) = go (with_sem s k)
after_wait stop go k (some (taken, s)) = go (with_sem s k)

-- The test after `semWait(readSem)`: a byte is read unless the stream is at its end.
abbrev pub has_byte : ℕ → Stream → Bool
has_byte fd s =
    not s.eof || (not (fd == stdin) && (not (s.writers == 0) || is_positive s.data_available))

module _ {Heap : Type 0} where
  -- The loop of `writeToFD` on STDOUT and STDERR.
  abbrev pub write_screen : ℕ → List ℕ → FileKernel Heap → FileKernel Heap
  write_screen fd cs k = record k { printed = k.printed ++ map (λ c. (fd, c)) cs }

  -- A newline ends the call; otherwise `more` is the rest of the loop.
  abbrev pub then_read :
      (FileKernel Heap → Option (Read × FileKernel Heap))
      → ℕ
      → FileKernel Heap
      → Option (Read × FileKernel Heap)
  then_read more c k = elim (c == b'\n') [
    | true ↦ some (record { bytes = c ∷ []; left = none }, k)
    | false ↦ elim (more k) [ none ↦ none | some (out, k') ↦ some (prepend c out, k') ]
  ]

  abbrev pub waits_at : ℕ → FileKernel Heap → Read × FileKernel Heap
  waits_at n k = (record { bytes = []; left = some n }, k)

  -- `null_foreground` is what is read where `getCurrentProcess` is NULL.
  abbrev pub is_foreground : ℕ → FileKernel Heap → Bool
  is_foreground null_foreground k =
      let flag : ℕ = elim k.sem.kernel.current_process [
        | none ↦ null_foreground
        | some i ↦ (k.sem.kernel.processes i).foreground
      ] in
      not (flag == 0)

module _ (A : Allocator) where
  open A use {Heap}

  abbrev pub post : ℕ → FileKernel Heap → FileKernel Heap
  post id k = with_sem (sem_post A id k.sem).1 k

  -- One byte, once `semWait(writeSem)` is over, whatever it answered.
  unfoldable pub write_byte : ℕ → ℕ → FileKernel Heap → FileKernel Heap
  write_byte a c k = post (k.streams a).read_sem (put_stream a (put_byte c (k.streams a)) k)

  -- A round of the loop once `semWait(readSem)` is over, whatever it answered.
  unfoldable pub read_byte :
      ℕ
      → ℕ
      → (FileKernel Heap → Option (Read × FileKernel Heap))
      → FileKernel Heap
      → Option (Read × FileKernel Heap)
  read_byte fd a more k =
      let s = k.streams a in
      let (c, s') = take_byte s in
      if has_byte fd s
      then then_read more c (post s.write_sem (put_stream a s' k))
      else some (record { bytes = []; left = none }, put_stream a (record s { eof = true }) k)

  -- At the end of the stream the reader passes its turn on first.
  abbrev pub offered : ℕ → FileKernel Heap → FileKernel Heap
  offered a k = if (k.streams a).eof then post (k.streams a).read_sem k else k

module _ (A : Allocator) (null_pid : ℕ) where
  open A use {Heap, alloc, free}

  -- The loop of `writeToFD` on a pipe over the bytes that are left, which it returns if it waits. The
  -- outer `none` is a switch that does not return.
  unfoldable pub write_bytes : ℕ → ℕ → List ℕ → FileKernel Heap → Option (List ℕ × FileKernel Heap)
  write_bytes rsp a [] k = some ([], k)
  write_bytes rsp a (c ∷ cs) k =
      after_wait (λ k'. (c ∷ cs, k')) (λ k'. write_bytes rsp a cs (write_byte A a c k')) k
        (sem_wait A null_pid rsp (k.streams a).write_sem k.sem)

  -- A writer that was woken: it tests the semaphore again.
  unfoldable pub resume_write : ℕ → ℕ → List ℕ → FileKernel Heap → Option (List ℕ × FileKernel Heap)
  resume_write rsp a [] k = some ([], k)
  resume_write rsp a (c ∷ cs) k =
      after_wait (λ k'. (c ∷ cs, k')) (λ k'. write_bytes rsp a cs (write_byte A a c k')) k
        (wait_turn A null_pid rsp (k.streams a).write_sem k.sem)

  unfoldable pub write_to_fd : ℕ → ℕ → List ℕ → FileKernel Heap → Option (List ℕ × FileKernel Heap)
  write_to_fd rsp fd cs k =
      let a = (k.fds fd).resource in
      if fd == stdout || fd == stderr
      then some ([], write_screen fd cs k)
      else write_bytes rsp a cs (put_stream a (record (k.streams a) { eof = false }) k)

  -- The loop of `readFromFD` on a pipe, with `n` bytes left to read.
  unfoldable pub read_bytes : ℕ → ℕ → ℕ → ℕ → FileKernel Heap → Option (Read × FileKernel Heap)
  read_bytes rsp fd a zero k = some (record { bytes = []; left = none }, k)
  read_bytes rsp fd a (suc n) k =
      let k1 = offered A a k in
      after_wait (waits_at (suc n)) (read_byte A fd a (λ k'. read_bytes rsp fd a n k')) k1
        (sem_wait A null_pid rsp (k1.streams a).read_sem k1.sem)

  -- A reader that was woken: it tests the semaphore again.
  unfoldable pub resume_read : ℕ → ℕ → ℕ → ℕ → FileKernel Heap → Option (Read × FileKernel Heap)
  resume_read rsp fd a zero k = some (record { bytes = []; left = none }, k)
  resume_read rsp fd a (suc n) k =
      after_wait (waits_at (suc n)) (read_byte A fd a (λ k'. read_bytes rsp fd a n k')) k
        (wait_turn A null_pid rsp (k.streams a).read_sem k.sem)

  -- `keys` are the answers of `getKeyboardCharacter`, of which the result holds those that are left.
  unfoldable pub read_from_fd :
      ℕ
      → ℕ
      → ℕ
      → ℕ
      → List (Option ℕ)
      → FileKernel Heap
      → Option (Read × List (Option ℕ) × FileKernel Heap)
  read_from_fd rsp null_foreground fd count keys k =
      let typed = read_keys count keys in
      if fd == stdin && not (is_foreground null_foreground k)
      then some (record { bytes = []; left = none }, keys, write_screen fd background_error k)
      else if fd == stdin
      then some (record { bytes = typed.0; left = none }, typed.1, k)
      else elim (read_bytes rsp fd (k.fds fd).resource count k) [
        | none ↦ none
        | some (out, k') ↦ some (out, keys, k')
      ]
