-- ===== src/Files/Buffer.antt =====
-- The buffer of a pipe, `Stream` of Kernel/include/fds.h.
-- `int` fields are their 32 bits; `eof` is a flag.
use tp2_sistemas_operativos.Prelude.{ℕ, ◌+◌, ◌-◌, ◌%◌, ◌^◌, Bool, ◌&&◌, ltb, update}

abbrev pub buffer_size : ℕ
buffer_size = 2048

-- `sizeof(Stream)`.
abbrev pub stream_size : ℕ
stream_size = 2080

pub record Stream : Type 0 where
  pub buffer : ℕ → ℕ
  pub read_pos : ℕ
  pub write_pos : ℕ
  pub data_available : ℕ
  pub eof : Bool
  pub readers : ℕ
  pub writers : ℕ
  pub read_sem : ℕ
  pub write_sem : ℕ

-- `x > 0`, `x + 1` and `x - 1` on `int`.
abbrev pub is_positive : ℕ → Bool
is_positive x = ltb 0 x && ltb x (2 ^ 31)

abbrev pub inc : ℕ → ℕ
inc x = (x + 1) % 2 ^ 32

abbrev pub dec : ℕ → ℕ
dec x = (x + 2 ^ 32 - 1) % 2 ^ 32

-- One byte into the buffer, as in the loop of `writeToFD`.
unfoldable pub put_byte : ℕ → Stream → Stream
put_byte c s = record s {
  buffer = update s.buffer s.write_pos (c % 2 ^ 8);
  write_pos = (s.write_pos + 1) % buffer_size;
  data_available = inc s.data_available;
}

-- One byte out of it, as in the loop of `readFromFD`.
unfoldable pub take_byte : Stream → ℕ × Stream
take_byte s = (
  s.buffer s.read_pos,
  record s { read_pos = (s.read_pos + 1) % buffer_size; data_available = dec s.data_available },
)
