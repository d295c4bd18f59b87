-- ===== src/Keyboard.antt =====
-- Kernel/drivers/keyboard.c: the buffer of typed characters and the keys with a function.
-- A character is its byte, so that EOF is 255. `screen` lists what was asked of the drivers for the
-- text on the screen, and the calls of registered functions.
pub mod Codes
pub mod Handler
pub mod Fifo
pub mod Typing
pub mod Reading
mod Tests
use tp2_sistemas_operativos.Prelude.{
  ℕ, zero, suc, ◌+◌, ◌-◌, ◌%◌, List, [], ◌∷◌, ◌++◌, Option, none, some, Bool, true, false, not,
  ◌&&◌, ◌||◌, ltb, leb, ◌==◌, if◌then◌else◌, update,
}

abbrev pub buffer_size : ℕ
buffer_size = 1024

abbrev pub eof : ℕ
eof = 255

-- A call of `putChar`, `clearPreviousCharacter`, `print`, or of the function `fn` for a key.
pub data Shown : Type 0 where
  put_char : ℕ → Shown
  clear_previous_character : Shown
  print : List ℕ → Shown
  call : (fn scancode : ℕ) → Shown

-- The three bits of `keyboard_options`.
pub record Options : Type 0 where
  pub show_buffer_while_typing : Bool
  pub await_return_key : Bool
  pub modify_buffer : Bool

pub record RegisteredKey : Type 0 where
  pub registered_from_kernel : ℕ
  pub fn : ℕ

pub record Keyboard : Type 0 where
  pub shift_key_pressed : Bool
  pub caps_lock_key_pressed : Bool
  pub control_key_pressed : Bool
  pub buffer : ℕ → ℕ
  pub to_write : ℕ
  pub to_read : ℕ
  pub keyboard_options : Options
  pub keyboard_semaphore : Option ℕ
  pub key_fn_map : ℕ → RegisteredKey
  pub screen : List Shown

abbrev pub show : Shown → Keyboard → Keyboard
show e k = record k { screen = k.screen ++ e ∷ [] }

-- `(to_write - to_read) % BUFFER_SIZE == BUFFER_SIZE - 1`, on `int`: the remainder of a negative
-- difference is not positive.
unfoldable pub buffer_is_full : Keyboard → Bool
buffer_is_full k =
    if ltb k.to_write k.to_read
    then false
    else (k.to_write - k.to_read) % buffer_size == buffer_size - 1

abbrev pub is_empty : Keyboard → Bool
is_empty k = k.to_write == k.to_read

-- `SUB_MOD(a, b, BUFFER_SIZE)`.
abbrev pub sub_mod : ℕ → ℕ → ℕ
sub_mod a b = if ltb a b then buffer_size - b + a else a - b

abbrev pub last_char : Keyboard → ℕ
last_char k = k.buffer (sub_mod k.to_write 1)

-- A character other than a tabulator.
unfoldable pub add_char : ℕ → Bool → Keyboard → Keyboard
add_char c show_output k =
    let k1 = record k {
      buffer = update k.buffer k.to_write c;
      to_write = (k.to_write + 1) % buffer_size;
    } in
    if show_output then show (put_char c) k1 else k1

-- `at_tab_stop` is whether the column that fonts.c keeps is at a tab stop, as a function of what was
-- shown.
module _ (at_tab_stop : List Shown → Bool) where
  -- The rounds of a tabulator, `none` when the fuel runs out: with no tab stop and no full buffer the
  -- loop does not end.
  unfoldable pub add_blanks : ℕ → Bool → Keyboard → Option Keyboard
  unfolding add_char
  add_blanks zero show_output k = none
  add_blanks (suc fuel) show_output k =
      let k1 = add_char b' ' show_output k in
      let rest = add_blanks fuel show_output k1 in
      if not (buffer_is_full k1) && not (at_tab_stop k1.screen) then rest else some k1

  unfoldable pub add_char_to_buffer : ℕ → ℕ → Bool → Keyboard → Option Keyboard
  unfolding add_char
  add_char_to_buffer fuel c show_output k =
      if c == b'\t' then add_blanks fuel show_output k else some (add_char c show_output k)

-- The last character is dropped. The result is how many there were.
unfoldable pub clear_buffer : Keyboard → ℕ × Keyboard
clear_buffer k =
    let n = sub_mod k.to_write k.to_read in
    if n == 0
    then (0, k)
    else (n, show clear_previous_character (record k { to_write = sub_mod k.to_write 1 }))

-- `while (clearBuffer() != 0);` with fuel: the buffer holds less than its size.
unfoldable pub clear_all : ℕ → Keyboard → Option Keyboard
unfolding clear_buffer
clear_all zero k = none
clear_all (suc fuel) k =
    let (n, k1) = clear_buffer k in let rest = clear_all fuel k1 in if n == 0 then some k1 else rest

-- IS_KEYCODE: from ESCAPE_KEY to F12_KEY.
abbrev pub is_keycode : ℕ → Bool
is_keycode c = leb 1 c && leb c 0x58

abbrev pub between : ℕ → ℕ → ℕ → Bool
between lo hi c = leb lo c && leb c hi

unfoldable pub is_printable : ℕ → Bool → Bool
is_printable c shift =
    is_keycode c
    && (between 0x02 0x0D c
        || between 0x0F 0x1C c
        || between 0x1E 0x29 c
        || between 0x2B 0x35 c
        || c == 0x37
        || c == 0x39
        || (shift && between 0x47 0x53 c)
        || c == 0x4A
        || c == 0x4E
        || c == 0x56)

unfoldable pub to_upper : ℕ → ℕ
to_upper c = if between b'a' b'z' c then c - b'a' + b'A' else c

-- A function registered by the kernel replaces any other.
unfoldable pub register_special_key : ℕ → ℕ → ℕ → Keyboard → Bool × Keyboard
register_special_key scancode fn from_kernel k =
    let entry = k.key_fn_map (scancode - 1) in
    if is_keycode scancode && (not (from_kernel == 0) || entry.fn == 0)
    then (
      true,
      record k {
        key_fn_map =
            update k.key_fn_map (scancode - 1)
              (record { registered_from_kernel = from_kernel; fn = fn });
      },
    )
    else (false, k)

-- The entries of the loops of the next two functions, ESCAPE_KEY to F12_KEY - 1, that are not the
-- kernel's.
abbrev pub is_swapped : Keyboard → ℕ → Bool
is_swapped k i = leb 1 i && ltb i 0x58 && (k.key_fn_map i).registered_from_kernel == 0

unfoldable pub clear_key_fn_map_non_kernel : (ℕ → ℕ) → Keyboard → (ℕ → ℕ) × Keyboard
clear_key_fn_map_non_kernel map k = (
  λ i. if is_swapped k i then (k.key_fn_map i).fn else map i,
  record k {
    key_fn_map = λ i. if is_swapped k i then record (k.key_fn_map i) { fn = 0 } else k.key_fn_map i;
  },
)

unfoldable pub restore_key_fn_map_non_kernel : (ℕ → ℕ) → Keyboard → Keyboard
restore_key_fn_map_non_kernel map k = record k {
  key_fn_map =
      λ i. if is_swapped k i then record (k.key_fn_map i) { fn = map i } else k.key_fn_map i;
}
