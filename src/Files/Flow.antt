-- ===== src/Files/Flow.antt =====
-- Kernel/fds.c: what `writeToFD` and `readFromFD` do on a pipe that no one has to wait for.
use tp2_sistemas_operativos.Prelude.{
  ℕ, suc, ◌+◌, ◌-◌, ◌%◌, ◌^◌, ◌≤◌, ◌<◌, ◌≡◌, ◌≢◌, refl, sym, ap, ◌∙◌, arith, List, [], ◌∷◌, ◌++◌,
  map, Option, some, true, false, update_self, update_ne, length, append-nil, append_assoc,
}
use tp2_sistemas_operativos.Memory.Interface.{Allocator}
use tp2_sistemas_operativos.Semaphore.{Sem, SemKernel, wake_up, wake_all, sem_post, put_sem}
use tp2_sistemas_operativos.Semaphore.Wake.{posted, raised, wake_all-value}
use tp2_sistemas_operativos.Semaphore.Handover.{take_turn, wake_all-used}
use tp2_sistemas_operativos.Files.Buffer.{Stream, put_byte, take_byte}
use tp2_sistemas_operativos.Files.Fifo.{
  unread, IsSound, unread-put_byte, unread-take_byte, put_byte-count,
}
use tp2_sistemas_operativos.Files.{FileKernel, with_sem, put_stream}
use tp2_sistemas_operativos.Files.Pipe.{Read, post, write_byte, write_bytes, read_byte, then_read}

-- The semaphores of a stream count its bytes and the room that is left.
pub record IsLinked (s : Stream) (sems : ℕ → Sem) : Type 0 where
  pub sound : IsSound s
  pub reading : s.read_sem < 500
  pub writing : s.write_sem < 500
  pub apart : s.read_sem ≢ s.write_sem
  pub read_used : (sems s.read_sem).used ≡ true
  pub write_used : (sems s.write_sem).used ≡ true
  pub counted : (sems s.read_sem).value ≡ s.data_available
  pub free_room : (sems s.write_sem).value + s.data_available ≡ 2048

-- `sems'` comes from `sems` by a `semWait` on `i` that took its turn and a `semPost` on `j`.
record Moved (i j : ℕ) (sems sems' : ℕ → Sem) : Type 0 where
  used_i : (sems' i).used ≡ (sems i).used
  used_j : (sems' j).used ≡ (sems j).used
  fewer : (sems' i).value + 1 ≡ (sems i).value
  more : (sems' j).value ≡ ((sems j).value + 1) % 2 ^ 32

put_byte-IsLinked :
    (c : ℕ) (s : Stream) (sems sems' : ℕ → Sem)
    → IsLinked s sems
    → s.data_available < 2048
    → Moved s.write_sem s.read_sem sems sems'
    → IsLinked (put_byte c s) sems'
unfolding put_byte
put_byte-IsLinked c s sems sems' v h m = record {
  sound = (unread-put_byte c s v.sound h).1;
  reading = v.reading;
  writing = v.writing;
  apart = v.apart;
  read_used = m.used_j ∙ v.read_used;
  write_used = m.used_i ∙ v.write_used;
  counted = omega (arith, m.more, v.counted);
  free_room = omega (arith, m.fewer, v.free_room);
}

take_byte-IsLinked :
    (s : Stream) (sems sems' : ℕ → Sem)
    → IsLinked s sems
    → 0 < s.data_available
    → Moved s.read_sem s.write_sem sems sems'
    → IsLinked (take_byte s).1 sems'
unfolding take_byte
take_byte-IsLinked s sems sems' v h m = record {
  sound = (unread-take_byte s v.sound h).1;
  reading = v.reading;
  writing = v.writing;
  apart = v.apart;
  read_used = m.used_i ∙ v.read_used;
  write_used = m.used_j ∙ v.write_used;
  counted = omega (arith, m.fewer, v.counted);
  free_room = omega (arith, m.more, v.free_room);
}

module _ (A : Allocator) (null_pid : ℕ) where
  open A use {Heap}

  wake_all-other : (id j : ℕ) (s : SemKernel Heap) → id ≢ j → (wake_all A id s).sems j ≡ s.sems j
  unfolding wake_all wake_up
  wake_all-other id j s h = update_ne s.sems _ h

  -- The semaphores after a wait on `i` that took its turn.
  abbrev pub turned : ℕ → ℕ → SemKernel Heap → SemKernel Heap
  turned i v s = put_sem i (record (s.sems i) { value = v }) s

  wait_post-Moved :
      (i j v : ℕ) (s : SemKernel Heap)
      → j < 500
      → i ≢ j
      → (s.sems j).used ≡ true
      → (s.sems i).value ≡ suc v
      → Moved i j s.sems (sem_post A j (turned i v s)).1.sems
  wait_post-Moved i j v s lo ne u e = rw (posted A j (turned i v s) lo used) (record {
    used_i = ap (λ x. x.used) left;
    used_j = wake_all-used A null_pid j r ∙ ap (λ x. x.used) now ∙ used ∙ sym u;
    fewer = omega (arith, ap (λ x. x.value) left, e);
    more = wake_all-value A j r ∙ ap (λ x. x.value) now ∙ ap (λ x. (x.value + 1) % 2 ^ 32) same;
  })
    where
      r : SemKernel Heap
      r = raised A j (turned i v s)

      same : (turned i v s).sems j ≡ s.sems j
      same = update_ne s.sems _ ne

      used : ((turned i v s).sems j).used ≡ true
      used = ap (λ x. x.used) same ∙ u

      now :
          r.sems j
          ≡ record ((turned i v s).sems j) { value = (((turned i v s).sems j).value + 1) % 2 ^ 32 }
      now = update_self (turned i v s).sems _ j

      left : (wake_all A j r).sems i ≡ record (s.sems i) { value = v }
      left =
          wake_all-other j i r (λ e. ne (sym e))
          ∙ update_ne (turned i v s).sems _ (λ e. ne (sym e))
          ∙ update_self s.sems _ i

  -- A stream with its two semaphores.
  abbrev pub IsPipe : ℕ → FileKernel Heap → Type 0
  IsPipe a k = IsLinked (k.streams a) k.sem.sems

  -- The state once a byte was written to a pipe with room.
  abbrev after_write : ℕ → ℕ → FileKernel Heap → FileKernel Heap
  after_write a c k =
      let i = (k.streams a).write_sem in
      write_byte A a c (with_sem (turned i ((k.sem.sems i).value - 1) k.sem) k)

  write_byte-stream :
      (a c : ℕ) (k : FileKernel Heap) → (write_byte A a c k).streams a ≡ put_byte c (k.streams a)
  unfolding write_byte
  write_byte-stream a c k = update_self k.streams _ a

  write_byte-sems :
      (a c : ℕ) (k : FileKernel Heap)
      → (write_byte A a c k).sem ≡ (sem_post A (k.streams a).read_sem k.sem).1
  unfolding write_byte
  write_byte-sems a c k = refl

  write_byte-fds : (a c : ℕ) (k : FileKernel Heap) → (write_byte A a c k).fds ≡ k.fds
  unfolding write_byte
  write_byte-fds a c k = refl

  after_write-IsPipe :
      (a c : ℕ) (k : FileKernel Heap)
      → IsPipe a k
      → (k.streams a).data_available < 2048
      → IsPipe a (after_write a c k)
  after_write-IsPipe a c k v h =
      rw
        (
          write_byte-stream a c (with_sem (turned i ((k.sem.sems i).value - 1) k.sem) k),
          write_byte-sems a c (with_sem (turned i ((k.sem.sems i).value - 1) k.sem) k),
        )
        (put_byte-IsLinked c (k.streams a) k.sem.sems _ v h (
          wait_post-Moved i j ((k.sem.sems i).value - 1) k.sem v.reading (λ e. v.apart (sym e))
            v.read_used (omega (arith, v.free_room))))
    where
      i : ℕ
      i = (k.streams a).write_sem

      j : ℕ
      j = (k.streams a).read_sem

  -- The loop of `writeToFD` on a pipe with room for every byte.
  pub write_bytes-room :
      (rsp a : ℕ) (cs : List ℕ) (k : FileKernel Heap)
      → IsPipe a k
      → (k.streams a).data_available + length cs ≤ 2048
      → (k' : FileKernel Heap) × (write_bytes A null_pid rsp a cs k ≡ some ([], k'))
        × (unread (k'.streams a) ≡ unread (k.streams a) ++ map (λ c. c % 2 ^ 8) cs)
        × ((k'.streams a).eof ≡ (k.streams a).eof)
        × (k'.fds ≡ k.fds)
        × IsPipe a k'
  unfolding write_bytes
  write_bytes-room rsp a [] k v h = (k, refl, sym (append-nil _), refl, refl, v)
  write_bytes-room rsp a (c ∷ cs) k v h =
      let i = (k.streams a).write_sem in
      let next = after_write a c k in
      let at = write_byte-stream a c (with_sem (turned i ((k.sem.sems i).value - 1) k.sem) k) in
      let count = put_byte-count c (k.streams a) (omega arith) in
      let (k', run, grown, eof, fds, v') =
        write_bytes-room rsp a cs next (after_write-IsPipe a c k v (omega arith))
          (omega (arith, ap (λ s. s.data_available) at, count.0)) in
      (
        k',
        rw
            (take_turn A null_pid rsp i ((k.sem.sems i).value - 1) k.sem v.writing v.write_used
              (omega (arith, v.free_room)) (omega (arith, v.free_room)))
            run,
        grown
            ∙ ap (λ xs. xs ++ map (λ c. c % 2 ^ 8) cs)
                (ap unread at ∙ (unread-put_byte c (k.streams a) v.sound (omega arith)).0)
            ∙ append_assoc (unread (k.streams a)) (c % 2 ^ 8 ∷ []) (map (λ c. c % 2 ^ 8) cs),
        eof ∙ ap (λ s. s.eof) at ∙ count.1,
        fds ∙ write_byte-fds a c (with_sem (turned i ((k.sem.sems i).value - 1) k.sem) k),
        v',
      )

  -- The state once a byte was read from a pipe that is not empty.
  abbrev pub after_read : ℕ → FileKernel Heap → FileKernel Heap
  after_read a k =
      let i = (k.streams a).read_sem in
      let s = k.streams a in
      post A s.write_sem
        (put_stream a (take_byte s).1 (with_sem (turned i ((k.sem.sems i).value - 1) k.sem) k))

  pub after_read-IsPipe :
      (a : ℕ) (k : FileKernel Heap)
      → IsPipe a k
      → 0 < (k.streams a).data_available
      → IsPipe a (after_read a k)
  after_read-IsPipe a k v h = rw (update_self k.streams (take_byte (k.streams a)).1 a) (
      take_byte-IsLinked (k.streams a) k.sem.sems _ v h (
        wait_post-Moved (k.streams a).read_sem (k.streams a).write_sem
          ((k.sem.sems (k.streams a).read_sem).value - 1) k.sem v.writing v.apart v.write_used
          (omega (arith, v.counted))))

  -- The test of `readFromFD` passes on a stream whose `eof` is 0.
  pub read_byte-open :
      (fd a : ℕ) (more : FileKernel Heap → Option (Read × FileKernel Heap)) (k : FileKernel Heap)
      → (k.streams a).eof ≡ false
      → read_byte A fd a more k
        ≡ then_read more
            (take_byte (k.streams a)).0
            (post A (k.streams a).write_sem (put_stream a (take_byte (k.streams a)).1 k))
  unfolding read_byte
  read_byte-open fd a more k e = rw e refl
