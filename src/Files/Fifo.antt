-- ===== src/Files/Fifo.antt =====
-- The buffer of a pipe, `Stream` of Kernel/include/fds.h, as a bounded queue of bytes.
use tp2_sistemas_operativos.Prelude.{
  bytes_from, IsSize, bytes_from-update, length-bytes_from, ℕ, suc, ◌+◌, ◌%◌, ◌^◌, ◌≤◌, ◌<◌, ◌≡◌,
  refl, ap, ap₂, ◌∙◌, arith, List, [], ◌∷◌, ◌++◌, update, length,
}
use tp2_sistemas_operativos.Files.Buffer.{Stream, put_byte, take_byte, inc, dec}

pipe-IsSize : IsSize 2048
pipe-IsSize = record {
  below = λ x. omega arith;
  start = λ pos h. omega arith;
  further = λ pos n. omega arith;
  apart = λ pos n h m e. absurd (omega arith);
}

-- What was written and not yet read, the oldest byte first.
abbrev pub unread : Stream → List ℕ
unread s = bytes_from 2048 s.buffer s.read_pos s.data_available

-- The positions fit to the count of the bytes.
pub record IsSound (s : Stream) : Type 0 where
  pub start : s.read_pos < 2048
  pub room : s.data_available ≤ 2048
  pub stop : s.write_pos ≡ (s.read_pos + s.data_available) % 2048

-- A byte into a buffer that is not full comes behind those that are unread.
pub unread-put_byte :
    (c : ℕ) (s : Stream)
    → IsSound s
    → s.data_available < 2048
    → (unread (put_byte c s) ≡ unread s ++ (c % 2 ^ 8) ∷ []) × IsSound (put_byte c s)
unfolding put_byte
unread-put_byte c s v h =
    let grown : inc s.data_available ≡ suc s.data_available = omega (arith, v.room) in
    (
      ap₂ (λ w n. bytes_from 2048 (update s.buffer w (c % 2 ^ 8)) s.read_pos n) v.stop grown
          ∙ bytes_from-update 2048 s.buffer (c % 2 ^ 8) s.read_pos s.data_available pipe-IsSize
              v.start h,
      record { start = v.start; room = omega (arith, v.room); stop = omega (arith, v.stop) },
    )

-- A byte out of a buffer that is not empty is the oldest one.
pub unread-take_byte :
    (s : Stream)
    → IsSound s
    → 0 < s.data_available
    → (unread s ≡ (take_byte s).0 ∷ unread (take_byte s).1) × IsSound (take_byte s).1
unfolding take_byte
unread-take_byte s v h =
    let shrunk : s.data_available ≡ suc (dec s.data_available) = omega (arith, v.room) in
    (
      ap (bytes_from 2048 s.buffer s.read_pos) shrunk,
      record { start = omega arith; room = omega (arith, v.room); stop = omega (arith, v.stop) },
    )

pub put_byte-count :
    (c : ℕ) (s : Stream)
    → s.data_available < 2048
    → ((put_byte c s).data_available ≡ suc s.data_available) × ((put_byte c s).eof ≡ s.eof)
unfolding put_byte
put_byte-count c s h = (omega arith, refl)

pub length-unread : (s : Stream) → length (unread s) ≡ s.data_available
length-unread s = length-bytes_from 2048 s.buffer s.read_pos s.data_available

pub take_byte-eof : (s : Stream) → (take_byte s).1.eof ≡ s.eof
unfolding take_byte
take_byte-eof s = refl
