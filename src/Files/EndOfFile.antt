-- ===== src/Files/EndOfFile.antt =====
-- Kernel/fds.c: `closeFD` of the last write end of a pipe ends the reads of its other end.
use tp2_sistemas_operativos.Prelude.{
  ℕ, zero, suc, ◌+◌, ◌%◌, ◌^◌, ◌≤◌, ◌<◌, ◌≡◌, ◌≢◌, refl, sym, ap, ◌∙◌, arith, List, [], Option,
  none, some, true, false, if◌then◌else◌, update, update_self, update_ne,
}
use tp2_sistemas_operativos.Memory.Interface.{Allocator}
use tp2_sistemas_operativos.Semaphore.{put_sem}
use tp2_sistemas_operativos.Semaphore.Wake.{posted, raised, wake_all-value}
use tp2_sistemas_operativos.Semaphore.Handover.{take_turn, wake_all-used}
use tp2_sistemas_operativos.Files.{FileKernel, w, stdin, with_sem, put_stream}
use tp2_sistemas_operativos.Files.Buffer.{Stream}
use tp2_sistemas_operativos.Files.Pipe.{Read, post, read_byte, read_bytes, read_from_fd}
use tp2_sistemas_operativos.Files.Line.{round, read_bytes-round}
use tp2_sistemas_operativos.Files.Transfer.{read_from_fd-pipe}
use tp2_sistemas_operativos.Files.Close.{
  close_fd, close_end, end_stream, end_if_drained, free_if_unused, mark_closed, post_times,
  released,
}

-- The stream once its last writer is gone.
abbrev pub ended : Stream → Stream
ended s = record s { writers = 0; eof = true }

module _ (A : Allocator) (null_pid : ℕ) where
  open A use {Heap}

  -- What `n` calls of `semPost` have done.
  record Posted (n id : ℕ) (k k' : FileKernel Heap) : Type 0 where
    used : (k'.sem.sems id).used ≡ true
    value : (k'.sem.sems id).value ≡ (k.sem.sems id).value + n
    streams : k'.streams ≡ k.streams
    fds : k'.fds ≡ k.fds

  post-Posted :
      (id : ℕ) (k : FileKernel Heap)
      → id < 500
      → (k.sem.sems id).used ≡ true
      → (k.sem.sems id).value + 1 < 2 ^ 32
      → Posted 1 id k (post A id k)
  post-Posted id k lo u h = rw (posted A id k.sem lo u) (record {
    used = wake_all-used A null_pid id (raised A id k.sem) ∙ ap (λ x. x.used) now ∙ u;
    value = omega (arith, wake_all-value A id (raised A id k.sem), ap (λ x. x.value) now);
    streams = refl;
    fds = refl;
  })
    where
      now :
          (raised A id k.sem).sems id
          ≡ record (k.sem.sems id) { value = ((k.sem.sems id).value + 1) % 2 ^ 32 }
      now = update_self k.sem.sems _ id

  post_times-Posted :
      (n id : ℕ) (k : FileKernel Heap)
      → id < 500
      → (k.sem.sems id).used ≡ true
      → (k.sem.sems id).value + n < 2 ^ 32
      → Posted n id k (post_times A n id k)
  unfolding post_times
  post_times-Posted zero id k lo u h = record {
    used = u;
    value = omega arith;
    streams = refl;
    fds = refl;
  }
  post_times-Posted (suc n) id k lo u h =
      let one = post-Posted id k lo u (omega arith) in
      let rest = post_times-Posted n id (post A id k) lo one.used (omega (arith, one.value)) in
      record {
        used = rest.used;
        value = omega (arith, rest.value, one.value);
        streams = rest.streams ∙ one.streams;
        fds = rest.fds ∙ one.fds;
      }

  -- The call of `closeFD` on the last write end, step by step.
  close_fd-open :
      (fd : ℕ) (k : FileKernel Heap)
      → 3 ≤ fd
      → fd < 1024
      → (k.fds fd).is_open ≡ true
      → close_fd A fd k ≡ (some 0, close_end A fd k)
  unfolding close_fd
  close_fd-open fd k h1 h2 o = ground arith

  released-last : (s : Stream) → s.writers ≡ 1 → released w s ≡ record s { writers = 0 }
  unfolding released
  released-last s e = ap (λ n. record s { writers = n }) (omega arith)

  -- The stream `s` at `a` has lost its last writer, and has readers.
  module _ (a : ℕ) (s : Stream) (e : s.writers ≡ 0) (r1 : 0 < s.readers)
      (r2 : s.readers < 2 ^ 31) where
    drained :
        (k : FileKernel Heap)
        → k.streams a ≡ s
        → end_if_drained A a k
          ≡ post_times A s.readers s.read_sem (put_stream a (record s { eof = true }) k)
    unfolding end_if_drained end_stream
    drained k at = rw (at, e) (ground arith)

    still_used : (k : FileKernel Heap) → k.streams a ≡ s → free_if_unused A a k ≡ k
    unfolding free_if_unused
    still_used k at = rw at (ground arith)

  -- What `closeFD` leaves behind.
  record IsEnded (fd : ℕ) (k k' : FileKernel Heap) : Type 0 where
    stream : k'.streams (k.fds fd).resource ≡ ended (k.streams (k.fds fd).resource)
    used : (k'.sem.sems (k.streams (k.fds fd).resource).read_sem).used ≡ true
    value :
        (k'.sem.sems (k.streams (k.fds fd).resource).read_sem).value
        ≡ (k.sem.sems (k.streams (k.fds fd).resource).read_sem).value
          + (k.streams (k.fds fd).resource).readers
    fds : k'.fds ≡ update k.fds fd (record (k.fds fd) { is_open = false })

  close_end-last :
      (fd : ℕ) (k : FileKernel Heap)
      → (k.fds fd).mode ≡ w
      → (k.streams (k.fds fd).resource).writers ≡ 1
      → 0 < (k.streams (k.fds fd).resource).readers
      → (k.streams (k.fds fd).resource).readers < 2 ^ 31
      → (k.streams (k.fds fd).resource).read_sem < 500
      → (k.sem.sems (k.streams (k.fds fd).resource).read_sem).used ≡ true
      → (k.sem.sems (k.streams (k.fds fd).resource).read_sem).value
          + (k.streams (k.fds fd).resource).readers
        < 2 ^ 32
      → IsEnded fd k (close_end A fd k)
  unfolding close_end
  close_end-last fd k m wr r1 r2 lo u h =
      let a = (k.fds fd).resource in
      let s = k.streams a in
      let k1 = put_stream a (released (k.fds fd).mode s) k in
      let at1 : k1.streams a ≡ record s { writers = 0 } =
        update_self k.streams _ a ∙ ap (λ b. released b s) m ∙ released-last s wr in
      let k2 = put_stream a (ended s) k1 in
      let out = post_times-Posted s.readers s.read_sem k2 lo u h in
      let at2 : (post_times A s.readers s.read_sem k2).streams a ≡ ended s =
        ap (λ f. f a) out.streams ∙ update_self k1.streams _ a in
      let whole : close_end A fd k ≡ mark_closed A fd (post_times A s.readers s.read_sem k2) =
        ap (mark_closed A fd) (
          ap (free_if_unused A a) (drained a (record s { writers = 0 }) refl r1 r2 k1 at1)
          ∙ still_used a (ended s) refl r1 r2 (post_times A s.readers s.read_sem k2) at2) in
      rw whole (record {
        stream = at2;
        used = out.used;
        value = out.value;
        fds = ap (λ f. update f fd (record (f fd) { is_open = false })) out.fds;
      })

  -- The test after the wait fails at the end of an empty stream.
  read_byte-ended :
      (fd a : ℕ) (more : FileKernel Heap → Option (Read × FileKernel Heap)) (k : FileKernel Heap)
      (s : Stream)
      → k.streams a ≡ s
      → s.eof ≡ true
      → s.writers ≡ 0
      → s.data_available ≡ 0
      → read_byte A fd a more k ≡ some (record { bytes = []; left = none }, put_stream a s k)
  unfolding read_byte
  read_byte-ended fd a more k s at e wr d = rw (at, e, wr, d) (ground arith)

  round-ended :
      (rsp fd a n : ℕ) (k : FileKernel Heap) (s : Stream)
      → k.streams a ≡ s
      → s.eof ≡ true
      → s.writers ≡ 0
      → s.data_available ≡ 0
      → s.read_sem < 500
      → (k.sem.sems s.read_sem).used ≡ true
      → (v : ℕ) → (k.sem.sems s.read_sem).value ≡ suc v
      → suc v < 2 ^ 32
      → round A null_pid rsp fd a n k
        ≡ some (
          record { bytes = []; left = none },
          put_stream a s (
              with_sem (put_sem s.read_sem (record (k.sem.sems s.read_sem) { value = v }) k.sem) k),
        )
  unfolding round
  round-ended rsp fd a n k s at e wr d lo u v val h =
      rw (at, take_turn A null_pid rsp s.read_sem v k.sem lo u val h)
        (read_byte-ended fd a _
          (with_sem (put_sem s.read_sem (record (k.sem.sems s.read_sem) { value = v }) k.sem) k) s
          at e wr d)

  -- A reader at the end of an empty stream.
  read_bytes-ended :
      (rsp fd a n : ℕ) (k : FileKernel Heap) (s : Stream)
      → k.streams a ≡ s
      → s.eof ≡ true
      → s.writers ≡ 0
      → s.data_available ≡ 0
      → s.read_sem < 500
      → (k.sem.sems s.read_sem).used ≡ true
      → (k.sem.sems s.read_sem).value + 1 < 2 ^ 32
      → (k' : FileKernel Heap) × (read_bytes A null_pid rsp fd a (suc n) k
          ≡ some (record { bytes = []; left = none }, k'))
        × (k'.streams a ≡ s)
  read_bytes-ended rsp fd a n k s at e wr d lo u h =
      let one = post-Posted s.read_sem k lo u h in
      let k1 = post A s.read_sem k in
      let at1 : k1.streams a ≡ s = ap (λ f. f a) one.streams ∙ at in
      let v = (k.sem.sems s.read_sem).value in
      let start : read_bytes A null_pid rsp fd a (suc n) k ≡ round A null_pid rsp fd a n k1 =
        read_bytes-round A null_pid rsp fd a n k
        ∙ ap (λ t. round A null_pid rsp fd a n (if t.eof then post A t.read_sem k else k)) at
        ∙ ap (λ b. round A null_pid rsp fd a n (if b then k1 else k)) e in
      (
        put_stream a s (
            with_sem (put_sem s.read_sem (record (k1.sem.sems s.read_sem) { value = v }) k1.sem)
              k1),
        start
            ∙ round-ended rsp fd a n k1 s at1 e wr d lo one.used v (omega (arith, one.value))
                (omega arith),
        update_self k1.streams s a,
      )

  -- Take a pipe that is empty, with one writer left and with readers, whose read semaphore is in use
  -- and has room to be raised once for each of them and once more. `closeFD` of the write end answers
  -- 0 and marks the descriptor as closed and the stream as ended. A `readFromFD` of at least one byte
  -- on the read end, which before had nothing to read, then answers with no byte and does not wait,
  -- and leaves the stream as `closeFD` left it, so that the next read ends too.
  pub read_from_fd-close_fd :
      (rsp null_foreground fd1 fd2 n : ℕ) (keys : List (Option ℕ)) (k : FileKernel Heap)
      → fd1 ≢ stdin
      → fd1 ≢ fd2
      → 3 ≤ fd2
      → fd2 < 1024
      → (k.fds fd2).is_open ≡ true
      → (k.fds fd2).mode ≡ w
      → (k.fds fd1).resource ≡ (k.fds fd2).resource
      → (k.streams (k.fds fd2).resource).data_available ≡ 0
      → (k.streams (k.fds fd2).resource).writers ≡ 1
      → 0 < (k.streams (k.fds fd2).resource).readers
      → (k.streams (k.fds fd2).resource).readers < 2 ^ 31
      → (k.streams (k.fds fd2).resource).read_sem < 500
      → (k.sem.sems (k.streams (k.fds fd2).resource).read_sem).used ≡ true
      → (k.sem.sems (k.streams (k.fds fd2).resource).read_sem).value
          + (k.streams (k.fds fd2).resource).readers
          + 1
        < 2 ^ 32
      → (k1 k2 : FileKernel Heap) × (close_fd A fd2 k ≡ (some 0, k1))
        × ((k1.fds fd2).is_open ≡ false)
        × (k1.streams (k.fds fd2).resource ≡ ended (k.streams (k.fds fd2).resource))
        × (read_from_fd A null_pid rsp null_foreground fd1 (suc n) keys k1
            ≡ some (record { bytes = []; left = none }, keys, k2))
        × (k2.streams (k.fds fd2).resource ≡ ended (k.streams (k.fds fd2).resource))
  read_from_fd-close_fd rsp null_foreground fd1 fd2 n keys k h0 ne h1 h2 o m same d wr r1 r2 lo u
        h =
      let a = (k.fds fd2).resource in
      let k1 = close_end A fd2 k in
      let out = close_end-last fd2 k m wr r1 r2 lo u (omega arith) in
      let (k2, run, at) =
        read_bytes-ended rsp fd1 a n k1 (ended (k.streams a)) out.stream refl refl d lo out.used
          (omega (arith, out.value)) in
      let end1 : (k1.fds fd1).resource ≡ a =
        ap (λ f. (f fd1).resource) out.fds
        ∙ ap (λ x. x.resource) (update_ne k.fds _ (λ e. ne (sym e)))
        ∙ same in
      (
        k1,
        k2,
        close_fd-open fd2 k h1 h2 o,
        ap (λ f. (f fd2).is_open) out.fds ∙ ap (λ x. x.is_open) (update_self k.fds _ fd2),
        out.stream,
        read_from_fd-pipe A null_pid rsp null_foreground fd1 (suc n) keys k1 k2 _ h0
            (ap (λ b. read_bytes A null_pid rsp fd1 b (suc n) k1) end1 ∙ run),
        at,
      )
