-- ===== src/Keyboard/Fifo.antt =====
-- Kernel/drivers/keyboard.c: the characters that were typed and not yet read.
use tp2_sistemas_operativos.Prelude.{
  bytes_from, IsSize, bytes_from-update, ==_iff, ℕ, suc, ◌+◌, ◌%◌, ◌<◌, ◌≡◌, ◌↔◌, refl, ap, ap₂,
  ◌∙◌, arith, List, [], ◌∷◌, ◌++◌, Bool, true, false, ◌==◌, update,
}
use tp2_sistemas_operativos.Keyboard.{Keyboard, buffer_is_full, is_empty, sub_mod, add_char}
use tp2_sistemas_operativos.Keyboard.Handler.{take_char}

key-IsSize : IsSize 1024
key-IsSize = record {
  below = λ x. omega arith;
  start = λ pos h. omega arith;
  further = λ pos n. omega arith;
  apart = λ pos n h m e. absurd (omega arith);
}

-- Both positions lie in the buffer.
pub record IsSound (k : Keyboard) : Type 0 where
  pub write : k.to_write < 1024
  pub read : k.to_read < 1024

abbrev pub count : Keyboard → ℕ
count k = sub_mod k.to_write k.to_read

-- The oldest character first.
abbrev pub unread : Keyboard → List ℕ
unread k = bytes_from 1024 k.buffer k.to_read (count k)

-- The test for a full buffer holds at one pair of positions only: nothing was read since the buffer
-- was last emptied or went round, and 1023 characters were written. With the positions anywhere else
-- a full buffer is not noticed.
pub buffer_is_full_iff :
    (k : Keyboard) → IsSound k → (buffer_is_full k ≡ true) ↔ ((k.to_read ≡ 0) × (k.to_write ≡ 1023))
unfolding buffer_is_full
buffer_is_full_iff k v = (λ h. ground arith, λ h. ground arith)

pub add_char-positions :
    (c : ℕ) (show : Bool) (k : Keyboard)
    → ((add_char c show k).buffer ≡ update k.buffer k.to_write c)
      × ((add_char c show k).to_write ≡ (k.to_write + 1) % 1024)
      × ((add_char c show k).to_read ≡ k.to_read)
unfolding add_char
add_char-positions c true k = (refl, refl, refl)
add_char-positions c false k = (refl, refl, refl)

-- Where the next character goes.
write_position : (k : Keyboard) → IsSound k → k.to_write ≡ (k.to_read + count k) % 1024
write_position k v = ground arith

-- A character into a buffer with less than 1023 of them comes behind those that are unread.
pub unread-add_char :
    (c : ℕ) (show : Bool) (k : Keyboard)
    → IsSound k
    → count k < 1023
    → unread (add_char c show k) ≡ unread k ++ c ∷ []
unread-add_char c show k v h =
    let now = add_char-positions c show k in
    let grown : sub_mod ((k.to_write + 1) % 1024) k.to_read ≡ suc (count k) = ground arith in
    ap (λ b. bytes_from 1024 b (add_char c show k).to_read (count (add_char c show k))) now.0
    ∙ ap₂ (λ w r. bytes_from 1024 (update k.buffer k.to_write c) r (sub_mod w r)) now.1 now.2
    ∙ ap₂ (λ w n. bytes_from 1024 (update k.buffer w c) k.to_read n) (write_position k v) grown
    ∙ bytes_from-update 1024 k.buffer c k.to_read (count k) key-IsSize v.read (omega arith)

-- The character that is read is the oldest one.
pub unread-take_char :
    (k : Keyboard) → IsSound k → 0 < count k → unread k ≡ (take_char k).0 ∷ unread (take_char k).1
unfolding take_char
unread-take_char k v h =
    let shrunk : count k ≡ suc (sub_mod k.to_write ((k.to_read + 1) % 1024)) = ground arith in
    ap (bytes_from 1024 k.buffer k.to_read) shrunk

-- A character typed when 1023 are unread, which the test for a full buffer does not notice unless the
-- positions are 0 and 1023, makes the buffer look empty: everything that was typed is lost.
pub add_char_lost :
    (c : ℕ) (show : Bool) (k : Keyboard)
    → IsSound k
    → count k ≡ 1023
    → ((buffer_is_full k ≡ true) ↔ (k.to_read ≡ 0)) × (is_empty (add_char c show k) ≡ true)
add_char_lost c show k v h =
    let now = add_char-positions c show k in
    let full = buffer_is_full_iff k v in
    (
      (λ e. (full.0 e).0, λ e. full.1 (e, ground arith)),
      ap₂ ◌==◌ now.1 now.2 ∙ (==_iff _ _).1 (ground arith),
    )
