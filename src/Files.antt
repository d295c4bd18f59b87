-- ===== src/Files.antt =====
-- Kernel/fds.c: file descriptors and pipes.
-- `none` stands for a result of -1; a descriptor is the 32 bits of an `int`.
pub mod Buffer
pub mod Pipe
pub mod Close
pub mod Fifo
pub mod Flow
pub mod Line
pub mod Transfer
pub mod EndOfFile
pub mod Keeps
mod Tests
use tp2_sistemas_operativos.Prelude.{
  ℕ, zero, suc, ◌+◌, ◌-◌, ◌%◌, ◌^◌, List, [], ◌∷◌, ◌++◌, Option, none, some, Bool, true, false, not,
  ◌&&◌, ◌||◌, ltb, leb, ◌==◌, if◌then◌else◌, update,
}
use tp2_sistemas_operativos.Memory.Interface.{Allocator}
use tp2_sistemas_operativos.State.{Process, Kernel}
use tp2_sistemas_operativos.Number.{itoa}
use tp2_sistemas_operativos.Semaphore.{
  SemKernel, Turn, refused, asleep, taken, is_negative, sem_create, sem_post, sem_wait, wait_turn,
  sem_destroy,
}
use tp2_sistemas_operativos.Files.Buffer.{
  Stream, buffer_size, stream_size, is_positive, inc, dec, put_byte, take_byte,
}

abbrev pub max_fds : ℕ
max_fds = 1024

abbrev pub stdin : ℕ
stdin = 0

abbrev pub stdout : ℕ
stdout = 1

abbrev pub stderr : ℕ
stderr = 2

pub data FdMode : Type 0 where
  r w rw : FdMode

abbrev pub is_r : FdMode → Bool
is_r r = true
is_r _ = false

abbrev pub is_w : FdMode → Bool
is_w w = true
is_w _ = false

-- `resource` is the address of a stream.
pub record Fd : Type 0 where
  pub is_open : Bool
  pub resource : ℕ
  pub mode : FdMode

-- `printed` holds the bytes given to `printToFd`, with the descriptor of each.
pub record FileKernel (Heap : Type 0) : Type 0 where
  pub fds : ℕ → Fd
  pub streams : ℕ → Stream
  pub sem : SemKernel Heap
  pub printed : List (ℕ × ℕ)

module _ {Heap : Type 0} where
  abbrev pub put_fd : ℕ → Fd → FileKernel Heap → FileKernel Heap
  put_fd i x k = record k { fds = update k.fds i x }

  abbrev pub put_stream : ℕ → Stream → FileKernel Heap → FileKernel Heap
  put_stream a x k = record k { streams = update k.streams a x }

  abbrev pub with_sem : SemKernel Heap → FileKernel Heap → FileKernel Heap
  with_sem s k = record k { sem = s }

  abbrev pub kernel_of : FileKernel Heap → Kernel Heap
  kernel_of k = k.sem.kernel

  abbrev pub with_kernel : Kernel Heap → FileKernel Heap → FileKernel Heap
  with_kernel x k = record k { sem = record k.sem { kernel = x } }

  abbrev pub with_heap : Heap → FileKernel Heap → FileKernel Heap
  with_heap h k = record k { sem = record k.sem { kernel = record k.sem.kernel { heap = h } } }

  -- The first of the `n` descriptors from `i` on that is not open is opened.
  unfoldable pub available_from : ℕ → ℕ → FileKernel Heap → Option ℕ × FileKernel Heap
  available_from zero i k = (none, k)
  available_from (suc n) i k =
      let later = available_from n (i + 1) k in
      if (k.fds i).is_open
      then later
      else (some i, put_fd i (record (k.fds i) { is_open = true }) k)

  unfoldable pub get_available_fd : FileKernel Heap → Option ℕ × FileKernel Heap
  get_available_fd k = available_from (max_fds - 3) 3 k

-- The result of `semCreate` as an `int`.
abbrev pub sem_id : Option ℕ → ℕ
sem_id none = 2 ^ 32 - 1
sem_id (some id) = id

-- "/stdin_read" and "/stdin_write".
abbrev pub stdin_read : List ℕ
stdin_read = b'/' ∷ b's' ∷ b't' ∷ b'd' ∷ b'i' ∷ b'n' ∷ b'_' ∷ b'r' ∷ b'e' ∷ b'a' ∷ b'd' ∷ []

abbrev pub stdin_write : List ℕ
stdin_write = b'/' ∷ b's' ∷ b't' ∷ b'd' ∷ b'i' ∷ b'n' ∷ b'_' ∷ b'w' ∷ b'r' ∷ b'i' ∷ b't' ∷ b'e' ∷ []

module _ (A : Allocator) (null_pid : ℕ) where
  open A use {Heap, alloc, free}

  -- A fresh stream at the address `a`, with its two semaphores.
  unfoldable pub init_stream : ℕ → List ℕ → List ℕ → FileKernel Heap → FileKernel Heap
  init_stream a read_name write_name k =
      let (rs, s1) = sem_create A null_pid read_name 0 k.sem in
      let (ws, s2) = sem_create A null_pid write_name buffer_size s1 in
      put_stream a
        (record (k.streams a) {
          read_pos = 0;
          write_pos = 0;
          data_available = 0;
          eof = false;
          readers = 1;
          writers = 1;
          read_sem = sem_id rs;
          write_sem = sem_id ws;
        })
        (with_sem s2 k)

  unfoldable pub init_file_descriptors : FileKernel Heap → FileKernel Heap
  init_file_descriptors k =
      let (a, h) = alloc stream_size k.sem.kernel.heap in
      let blank : ℕ → Fd = λ i.
        if ltb i max_fds then record (k.fds i) { is_open = false; resource = 0 } else k.fds i in
      let fds =
        update
          (update (update blank stdin (record { is_open = true; resource = a; mode = rw })) stdout
            (record { is_open = true; resource = 0; mode = w }))
          stderr (record { is_open = true; resource = 0; mode = w }) in
      init_stream a stdin_read stdin_write (with_heap h (record k { fds = fds }))

  -- Both descriptors were found: the read end `fd1` and the write end `fd2`.
  unfoldable pub join_ends : ℕ → ℕ → ℕ × Heap → FileKernel Heap → FileKernel Heap
  unfolding init_stream
  join_ends fd1 fd2 (a, h) k =
      let opened =
        put_fd fd2 (record { is_open = true; resource = a; mode = w })
          (put_fd fd1 (record { is_open = true; resource = a; mode = r }) k) in
      init_stream a (itoa fd1) (itoa fd2) (with_heap h opened)

  -- Both are asked for before either answer is looked at.
  unfoldable pub pipe_ends :
      Option ℕ → Option ℕ × FileKernel Heap → Option (ℕ × ℕ) × FileKernel Heap
  unfolding join_ends
  pipe_ends none (second, k) = (none, k)
  pipe_ends (some fd1) (none, k) = (none, k)
  pipe_ends (some fd1) (some fd2, k) =
      (some (fd1, fd2), join_ends fd1 fd2 (alloc stream_size k.sem.kernel.heap) k)

  unfoldable pub create_pipe : FileKernel Heap → Option (ℕ × ℕ) × FileKernel Heap
  create_pipe k = let first = get_available_fd k in pipe_ends first.0 (get_available_fd first.1)
