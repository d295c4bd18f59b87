-- ===== src/Files/Close.antt =====
-- Kernel/fds.c: `closeFD`, `setEOF`, `getReadPos` and `readFromFDAt`.
-- A descriptor and a position are the 32 bits of an `int`.
use tp2_sistemas_operativos.Prelude.{
  ℕ, zero, suc, ◌+◌, ◌-◌, ◌%◌, List, [], ◌∷◌, Option, none, some, Bool, true, false, not, ◌&&◌,
  ◌||◌, ◌==◌, if◌then◌else◌,
}
use tp2_sistemas_operativos.Memory.Interface.{Allocator}
use tp2_sistemas_operativos.Semaphore.{is_negative, signed_lt, sem_wait, sem_destroy}
use tp2_sistemas_operativos.Files.Buffer.{Stream, is_positive, dec, buffer_size}
use tp2_sistemas_operativos.Files.{
  FileKernel, FdMode, is_r, is_w, with_sem, with_heap, put_fd, put_stream, stdin, stdout, stderr,
  max_fds,
}
use tp2_sistemas_operativos.Files.Pipe.{post, after_wait}

-- The counts of a stream whose descriptor of this mode is closed.
unfoldable pub released : FdMode → Stream → Stream
released mode s =
    let s1 = if is_r mode then record s { readers = dec s.readers } else s in
    if is_w mode then record s1 { writers = dec s1.writers } else s1

-- Readers are left and no writer is.
abbrev pub is_drained : Stream → Bool
is_drained s = is_positive s.readers && not (is_positive s.writers)

abbrev pub is_unused : Stream → Bool
is_unused s = s.readers == 0 && s.writers == 0

-- What `readFromFDAt` comes to: it waits, or it answers with the bytes that it stored, -1 as `none`.
pub data ReadAt : Type 0 where
  waits : ReadAt
  answers : Option (List ℕ) → ReadAt

module _ {Heap : Type 0} where
  abbrev pub is_closed : ℕ → FileKernel Heap → Bool
  is_closed fd k = not (k.fds fd).is_open

  -- `fd < 0 || fd >= MAX_FDS || fd == STDOUT || fd == STDERR || !isOpen`, in the order of each function.
  abbrev pub has_no_stream : ℕ → FileKernel Heap → Bool
  has_no_stream fd k =
      is_negative fd || signed_lt (max_fds - 1) fd || fd == stdout || fd == stderr || is_closed fd k

  unfoldable pub get_read_pos : ℕ → FileKernel Heap → Option ℕ
  get_read_pos fd k =
      if has_no_stream fd k || is_w (k.fds fd).mode
      then none
      else some (k.streams (k.fds fd).resource).read_pos

  -- The end of `readFromFDAt`: a byte that stood at the read position is taken.
  unfoldable pub skip_read : ℕ → ℕ → FileKernel Heap → FileKernel Heap
  skip_read pos a k =
      let s = k.streams a in
      if pos == s.read_pos && is_positive s.data_available
      then put_stream a
          (record s {
            read_pos = (s.read_pos + 1) % buffer_size;
            data_available = dec s.data_available;
          })
          k
      else k

module _ (A : Allocator) where
  open A use {Heap, alloc, free}

  -- `n` rounds of `semPost`.
  unfoldable pub post_times : ℕ → ℕ → FileKernel Heap → FileKernel Heap
  post_times zero id k = k
  post_times (suc n) id k = post_times n id (post A id k)

  -- The end of the stream is told to every reader.
  unfoldable pub end_stream : ℕ → FileKernel Heap → FileKernel Heap
  end_stream a k =
      let s = k.streams a in
      post_times s.readers s.read_sem (put_stream a (record s { eof = true }) k)

  abbrev pub destroy : ℕ → FileKernel Heap → FileKernel Heap
  destroy id k = with_sem (sem_destroy A id k.sem).1 k

  unfoldable pub free_stream : ℕ → FileKernel Heap → FileKernel Heap
  free_stream a k =
      let s = k.streams a in
      let k1 =
        destroy s.write_sem (destroy s.read_sem (put_stream a (record s { eof = false }) k)) in
      with_heap (free a k1.sem.kernel.heap) k1

  -- The two steps of `closeFD` that look at the counts.
  unfoldable pub end_if_drained : ℕ → FileKernel Heap → FileKernel Heap
  end_if_drained a k = if is_drained (k.streams a) then end_stream a k else k

  unfoldable pub free_if_unused : ℕ → FileKernel Heap → FileKernel Heap
  free_if_unused a k = if is_unused (k.streams a) then free_stream a k else k

  abbrev pub mark_closed : ℕ → FileKernel Heap → FileKernel Heap
  mark_closed fd k = put_fd fd (record (k.fds fd) { is_open = false }) k

  -- A descriptor that is open and is none of the three that the kernel keeps.
  unfoldable pub close_end : ℕ → FileKernel Heap → FileKernel Heap
  close_end fd k =
      let a = (k.fds fd).resource in
      mark_closed fd (
        free_if_unused a
          (end_if_drained a (put_stream a (released (k.fds fd).mode (k.streams a)) k)))

  unfoldable pub close_fd : ℕ → FileKernel Heap → Option ℕ × FileKernel Heap
  close_fd fd k =
      let a = (k.fds fd).resource in
      if has_no_stream fd k
      then (none, k)
      else if fd == stdin
      then (some 0, put_stream a (record (k.streams a) { eof = false }) k)
      else (some 0, close_end fd k)

  unfoldable pub set_eof : ℕ → FileKernel Heap → Option ℕ × FileKernel Heap
  set_eof fd k =
      let a = (k.fds fd).resource in
      if has_no_stream fd k || is_r (k.fds fd).mode then (none, k) else (
        some 0,
        post A (k.streams a).read_sem (put_stream a (record (k.streams a) { eof = true }) k),
      )

module _ (A : Allocator) (null_pid : ℕ) where
  open A use {Heap, alloc, free}

  -- The byte is read again once the wait is over. `buffer[pos]` at a negative `pos` is outside of the
  -- buffer, and is read at those 32 bits.
  unfoldable pub read_at : ℕ → ℕ → ℕ → FileKernel Heap → Option (ReadAt × FileKernel Heap)
  unfolding skip_read
  read_at rsp pos a k =
      let s = k.streams a in
      if is_positive s.data_available && not (s.buffer pos == 0)
      then after_wait (λ k'. (waits, k'))
          (λ k'. some (answers (some ((k'.streams a).buffer pos ∷ [])), skip_read pos a k')) k
          (sem_wait A null_pid rsp s.read_sem k.sem)
      else some (answers (some []), skip_read pos a k)

  -- `fd` may be STDOUT or STDERR, which are open for writing only.
  unfoldable pub read_from_fd_at : ℕ → ℕ → ℕ → FileKernel Heap → Option (ReadAt × FileKernel Heap)
  unfolding read_at
  read_from_fd_at rsp fd pos k =
      if is_negative fd || signed_lt (max_fds - 1) fd || is_closed fd k || is_w (k.fds fd).mode
      then some (answers none, k)
      else if signed_lt (buffer_size - 1) pos
      then some (answers none, k)
      else read_at rsp pos (k.fds fd).resource k
