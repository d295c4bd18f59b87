-- ===== src/Files/Line.antt =====
-- Kernel/fds.c: `readFromFD` on a pipe gives what `writeToFD` wrote, up to a newline.
use tp2_sistemas_operativos.Prelude.{
  ℕ, zero, suc, ◌-◌, ◌<◌, ◌≡◌, ◌⊎◌, refl, sym, ap, ◌∙◌, arith, List, [], ◌∷◌, Option, none, some,
  true, false, ◌==◌, if◌then◌else◌, update_self, length, Bool-cases, inl, inr,
}
use tp2_sistemas_operativos.Memory.Interface.{Allocator}
use tp2_sistemas_operativos.Semaphore.{sem_wait}
use tp2_sistemas_operativos.Files.{FileKernel, with_sem}
use tp2_sistemas_operativos.Semaphore.Handover.{take_turn}
use tp2_sistemas_operativos.Files.Buffer.{take_byte}
use tp2_sistemas_operativos.Files.Fifo.{unread, unread-take_byte, length-unread, take_byte-eof}
use tp2_sistemas_operativos.Files.Pipe.{
  Read, post, after_wait, waits_at, read_byte, read_bytes, then_read,
}
use tp2_sistemas_operativos.Files.Flow.{
  IsPipe, turned, after_read, after_read-IsPipe, read_byte-open,
}

-- The first `n` bytes, or those up to a newline, with the bytes behind them; `none` if there are less.
abbrev pub then_line : ℕ → List ℕ → Option (List ℕ × List ℕ) → Option (List ℕ × List ℕ)
then_line c xs more = elim (c == b'\n') [
  | true ↦ some (c ∷ [], xs)
  | false ↦ elim more [ none ↦ none | some (bs, rest) ↦ some (c ∷ bs, rest) ]
]

abbrev pub line : ℕ → List ℕ → Option (List ℕ × List ℕ)
line zero xs = some ([], xs)
line (suc n) [] = none
line (suc n) (c ∷ xs) = then_line c xs (line n xs)

line-cases :
    (c : ℕ) (xs : List ℕ) (more : Option (List ℕ × List ℕ)) (bs rest : List ℕ)
    → then_line c xs more ≡ some (bs, rest)
    → (((c == b'\n') ≡ true) × (bs ≡ c ∷ []) × (rest ≡ xs))
      ⊎ (((c == b'\n') ≡ false) × (bs' : List ℕ) × (more ≡ some (bs', rest)) × (bs ≡ c ∷ bs'))
line-cases c xs none bs rest h = elim (Bool-cases (c == b'\n')) [
  | inl e ↦ let w = rw (e, then_line) at h in inl (e, cc w, cc w)
  | inr e ↦ let w = rw (e, then_line) at h in absurd (cc w)
]
line-cases c xs (some (bs', rest')) bs rest h = elim (Bool-cases (c == b'\n')) [
  | inl e ↦ let w = rw (e, then_line) at h in inl (e, cc w, cc w)
  | inr e ↦ let w = rw (e, then_line) at h in inr (e, bs', cc w, cc w)
]

module _ {Heap : Type 0} where
  then_read-newline :
      (more : FileKernel Heap → Option (Read × FileKernel Heap)) (c : ℕ) (k : FileKernel Heap)
      → (c == b'\n') ≡ true
      → then_read more c k ≡ some (record { bytes = c ∷ []; left = none }, k)
  then_read-newline more c k h = rw (h, then_read) refl

  then_read-more :
      (more : FileKernel Heap → Option (Read × FileKernel Heap)) (c : ℕ) (k k' : FileKernel Heap)
      (bs : List ℕ)
      → (c == b'\n') ≡ false
      → more k ≡ some (record { bytes = bs; left = none }, k')
      → then_read more c k ≡ some (record { bytes = c ∷ bs; left = none }, k')
  then_read-more more c k k' bs h run = rw (h, then_read, run) refl

module _ (A : Allocator) (null_pid : ℕ) where
  open A use {Heap}

  -- A round of the loop once the reader has passed its turn on.
  unfoldable pub round : (rsp fd a n : ℕ) → FileKernel Heap → Option (Read × FileKernel Heap)
  round rsp fd a n k =
      after_wait (waits_at (suc n)) (read_byte A fd a (λ k'. read_bytes A null_pid rsp fd a n k')) k
        (sem_wait A null_pid rsp (k.streams a).read_sem k.sem)

  pub read_bytes-round :
      (rsp fd a n : ℕ) (k : FileKernel Heap)
      → read_bytes A null_pid rsp fd a (suc n) k
        ≡ round rsp fd a n (if (k.streams a).eof then post A (k.streams a).read_sem k else k)
  unfolding read_bytes round
  read_bytes-round rsp fd a n k = refl

  round-full :
      (rsp fd a n : ℕ) (k : FileKernel Heap)
      → IsPipe A null_pid a k
      → (k.streams a).eof ≡ false
      → 0 < (k.streams a).data_available
      → round rsp fd a n k
        ≡ then_read
            (λ k'. read_bytes A null_pid rsp fd a n k')
            (take_byte (k.streams a)).0
            (after_read A null_pid a k)
  unfolding round
  round-full rsp fd a n k v e h =
      rw
        (take_turn A null_pid rsp i ((k.sem.sems i).value - 1) k.sem v.reading v.read_used
          (omega (arith, v.counted)) (omega (arith, v.counted, v.sound.room)))
        (read_byte-open A null_pid fd a (λ k'. read_bytes A null_pid rsp fd a n k')
          (with_sem (turned A null_pid i ((k.sem.sems i).value - 1) k.sem) k) e)
    where
      i : ℕ
      i = (k.streams a).read_sem

  after_read-stream :
      (a : ℕ) (k : FileKernel Heap)
      → (after_read A null_pid a k).streams a ≡ (take_byte (k.streams a)).1
  after_read-stream a k = update_self k.streams _ a

  -- What the loop of `readFromFD` does with the bytes `xs` of a pipe that has enough of them.
  abbrev pub Reads : ℕ → ℕ → ℕ → ℕ → FileKernel Heap → List ℕ → List ℕ → Type 0
  Reads rsp fd a n k bs rest =
      (k' : FileKernel Heap) × (read_bytes A null_pid rsp fd a n k
        ≡ some (record { bytes = bs; left = none }, k'))
      × (unread (k'.streams a) ≡ rest)
      × IsPipe A null_pid a k'

  read_bytes-zero :
      (rsp fd a : ℕ) (k : FileKernel Heap)
      → read_bytes A null_pid rsp fd a 0 k ≡ some (record { bytes = []; left = none }, k)
  unfolding read_bytes
  read_bytes-zero rsp fd a k = refl

  pub read_bytes-line :
      (rsp fd a n : ℕ) (k : FileKernel Heap) (xs bs rest : List ℕ)
      → IsPipe A null_pid a k
      → (k.streams a).eof ≡ false
      → unread (k.streams a) ≡ xs
      → line n xs ≡ some (bs, rest)
      → Reads rsp fd a n k bs rest
  read_bytes-line rsp fd a zero k xs bs rest v e u l = (
    k,
    read_bytes-zero rsp fd a k ∙ ap (λ ys. some (record { bytes = ys; left = none }, k)) (cc l),
    u ∙ cc l,
    v,
  )
  read_bytes-line rsp fd a (suc n) k [] bs rest v e u l = absurd (cc l)
  read_bytes-line rsp fd a (suc n) k (c ∷ xs) bs rest v e u l =
      let s = k.streams a in
      let full : 0 < s.data_available = omega (arith, length-unread s, ap length u) in
      let taken = unread-take_byte s v.sound full in
      let first : c ≡ (take_byte s).0 = cc (u, taken.0) in
      let others : unread ((after_read A null_pid a k).streams a) ≡ xs =
        ap unread (after_read-stream a k) ∙ cc (u, taken.0) in
      let next = after_read A null_pid a k in
      let more = λ (k' : FileKernel Heap). read_bytes A null_pid rsp fd a n k' in
      let start : read_bytes A null_pid rsp fd a (suc n) k ≡ then_read more c next =
        read_bytes-round rsp fd a n k
        ∙ ap (λ b. round rsp fd a n (if b then post A (k.streams a).read_sem k else k)) e
        ∙ round-full rsp fd a n k v e full
        ∙ ap (λ b. then_read more b next) (sym first) in
      let still : IsPipe A null_pid a next = after_read-IsPipe A null_pid a k v full in
      elim (line-cases c xs (line n xs) bs rest l) [
        | inl (nl, one, left_over) ↦ (
          next,
          start
              ∙ then_read-newline more c next nl
              ∙ ap (λ ys. some (record { bytes = ys; left = none }, next)) (sym one),
          others ∙ sym left_over,
          still,
        )
        | inr (other, bs', found, both) ↦
            let (k', run, remains, v') =
              read_bytes-line rsp fd a n next xs bs' rest still
                (ap (λ t. t.eof) (after_read-stream a k) ∙ take_byte-eof s ∙ e) others found in
            (
              k',
              start
                  ∙ then_read-more more c next k' bs' other run
                  ∙ ap (λ ys. some (record { bytes = ys; left = none }, k')) (sym both),
              remains,
              v',
            )
      ]
