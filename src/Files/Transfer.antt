-- ===== src/Files/Transfer.antt =====
-- Kernel/fds.c: `readFromFD` on the read end of a pipe after `writeToFD` on its write end.
use tp2_sistemas_operativos.Prelude.{
  ℕ, ◌+◌, ◌%◌, ◌^◌, ◌≤◌, ◌≡◌, ◌≢◌, ap, ◌∙◌, arith, List, [], ◌++◌, map, Option, none, some, false,
  update_self, length,
}
use tp2_sistemas_operativos.Memory.Interface.{Allocator}
use tp2_sistemas_operativos.Files.{FileKernel, stdin, stdout, stderr, put_stream}
use tp2_sistemas_operativos.Files.Fifo.{unread}
use tp2_sistemas_operativos.Files.Pipe.{Read, write_bytes, write_to_fd, read_bytes, read_from_fd}
use tp2_sistemas_operativos.Files.Flow.{IsPipe, write_bytes-room}
use tp2_sistemas_operativos.Files.Line.{line, read_bytes-line}

module _ (A : Allocator) (null_pid : ℕ) where
  open A use {Heap}

  -- The state from which the bytes are written.
  abbrev reopened : ℕ → FileKernel Heap → FileKernel Heap
  reopened a k = put_stream a (record (k.streams a) { eof = false }) k

  reopened-IsPipe :
      (a : ℕ) (k : FileKernel Heap) → IsPipe A null_pid a k → IsPipe A null_pid a (reopened a k)
  reopened-IsPipe a k v =
      rw (update_self k.streams (record (k.streams a) { eof = false }) a) (record {
        sound = record { start = v.sound.start; room = v.sound.room; stop = v.sound.stop };
        reading = v.reading;
        writing = v.writing;
        apart = v.apart;
        read_used = v.read_used;
        write_used = v.write_used;
        counted = v.counted;
        free_room = v.free_room;
      })

  write_to_fd-pipe :
      (rsp fd : ℕ) (cs : List ℕ) (k : FileKernel Heap)
      → fd ≢ stdout
      → fd ≢ stderr
      → write_to_fd A null_pid rsp fd cs k
        ≡ write_bytes A null_pid rsp (k.fds fd).resource cs (reopened (k.fds fd).resource k)
  unfolding write_to_fd
  write_to_fd-pipe rsp fd cs k h1 h2 = ground arith

  pub read_from_fd-pipe :
      (rsp null_foreground fd count : ℕ) (keys : List (Option ℕ)) (k k' : FileKernel Heap)
      (out : Read)
      → fd ≢ stdin
      → read_bytes A null_pid rsp fd (k.fds fd).resource count k ≡ some (out, k')
      → read_from_fd A null_pid rsp null_foreground fd count keys k ≡ some (out, keys, k')
  unfolding read_from_fd
  read_from_fd-pipe rsp null_foreground fd count keys k k' out h run = ground arith

  -- Take a pipe whose semaphores count its bytes and its room, with room for all of `cs`, and two
  -- other descriptors that refer to it. `writeToFD` then writes all of `cs` with no wait. A
  -- `readFromFD` of at most `count` bytes after it answers with no wait too, if there are `count`
  -- bytes or a newline among them: it gives the bytes that were unread before and then those of
  -- `cs`, in this order, up to the count or the newline, and what is behind them stays in the pipe.
  pub read_from_fd-write_to_fd :
      (rsp null_foreground fd1 fd2 count : ℕ) (keys : List (Option ℕ)) (cs bs rest : List ℕ)
      (k : FileKernel Heap)
      → fd1 ≢ stdin
      → fd2 ≢ stdout
      → fd2 ≢ stderr
      → (k.fds fd1).resource ≡ (k.fds fd2).resource
      → IsPipe A null_pid (k.fds fd2).resource k
      → (k.streams (k.fds fd2).resource).data_available + length cs ≤ 2048
      → line count (unread (k.streams (k.fds fd2).resource) ++ map (λ c. c % 2 ^ 8) cs)
        ≡ some (bs, rest)
      → (k1 k2 : FileKernel Heap) × (write_to_fd A null_pid rsp fd2 cs k ≡ some ([], k1))
        × (read_from_fd A null_pid rsp null_foreground fd1 count keys k1
            ≡ some (record { bytes = bs; left = none }, keys, k2))
        × (unread (k2.streams (k.fds fd2).resource) ≡ rest)
        × IsPipe A null_pid (k.fds fd2).resource k2
  read_from_fd-write_to_fd rsp null_foreground fd1 fd2 count keys cs bs rest k h1 h2 h3 same v room
        l =
      let a = (k.fds fd2).resource in
      let at = update_self k.streams (record (k.streams a) { eof = false }) a in
      let (k1, run, grown, eof, fds, v1) =
        write_bytes-room A null_pid rsp a cs (reopened a k) (reopened-IsPipe a k v) (rw at room) in
      let (k2, run2, left_over, v2) =
        read_bytes-line A null_pid rsp fd1 a count k1 _ bs rest v1 (eof ∙ ap (λ s. s.eof) at)
          (grown ∙ ap (λ s. unread s ++ map (λ c. c % 2 ^ 8) cs) at) l in
      let end1 : (k1.fds fd1).resource ≡ a = ap (λ f. (f fd1).resource) fds ∙ same in
      (
        k1,
        k2,
        write_to_fd-pipe rsp fd2 cs k h2 h3 ∙ run,
        read_from_fd-pipe rsp null_foreground fd1 count keys k1 k2 _ h1
            (ap (λ b. read_bytes A null_pid rsp fd1 b count k1) end1 ∙ run2),
        left_over,
        v2,
      )
