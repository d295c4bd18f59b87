-- ===== src/Keyboard/Tests.antt =====
-- A keyboard with "ab" typed at the end of the buffer, shift held down, and one with 1023 characters.
use tp2_sistemas_operativos.Prelude.{
  ℕ, suc, ◌≤◌, ◌≡◌, ◌≢◌, ◌↔◌, refl, arith, [], ◌∷◌, some, true, false, ◌==◌, if◌then◌else◌,
}
use tp2_sistemas_operativos.Fixtures.{bump, kernel, no_stream}
use tp2_sistemas_operativos.Files.{r}
use tp2_sistemas_operativos.Keyboard.{
  Keyboard, buffer_is_full, is_empty, add_char, clear_buffer, is_printable,
}
use tp2_sistemas_operativos.Keyboard.Codes.{character}
use tp2_sistemas_operativos.Keyboard.Handler.{
  KeyKernel, got, keyboard_handler, get_keyboard_character, typed,
}
use tp2_sistemas_operativos.Keyboard.Fifo.{unread, add_char_lost, IsSound}
use tp2_sistemas_operativos.Keyboard.Typing.{keyboard_handler_types}
use tp2_sistemas_operativos.Keyboard.Reading.{get_keyboard_character_lem}

abbrev keyboard : ℕ → ℕ → Keyboard
keyboard write read = record {
  shift_key_pressed = true;
  caps_lock_key_pressed = false;
  control_key_pressed = false;
  buffer = λ i. if i == 1023 then b'a' else b'b';
  to_write = write;
  to_read = read;
  keyboard_options = record {
    show_buffer_while_typing = true;
    await_return_key = false;
    modify_buffer = true;
  };
  keyboard_semaphore = some 3;
  key_fn_map = λ i. record { registered_from_kernel = 0; fn = 0 };
  screen = [];
}

abbrev state : KeyKernel ℕ
state = record {
  keys = keyboard 1 1023;
  fds = λ i. record { is_open = false; resource = 0; mode = r };
  streams = λ a. no_stream;
  printed = [];
  sem = record {
    sems = λ i. record {
      value = 0;
      used = true;
      waiting = some (64, []);
      opened_by = λ j. 0;
      name = λ j. 0;
    };
    kernel = kernel;
  };
}

sound : (write read : ℕ) → suc write ≤ 1024 → suc read ≤ 1024 → IsSound (keyboard write read)
sound write read h k = record { write = h; read = k }

two_unread : unread (keyboard 1 1023) ≡ b'a' ∷ b'b' ∷ []
two_unread = refl

upper_case : character 0x1E true ≡ b'A'
unfolding character
upper_case = refl

one_dropped : (clear_buffer (keyboard 1 1023)).0 ≡ 2
unfolding clear_buffer
one_dropped = refl

add_char_lost_example :
    ((buffer_is_full (keyboard 9 10) ≡ true) ↔ (◌≡◌ {A = ℕ} 10 0))
    × (is_empty (add_char b'x' true (keyboard 9 10)) ≡ true)
add_char_lost_example =
    add_char_lost b'x' true (keyboard 9 10) (sound 9 10 (omega arith) (omega arith)) refl

printable : is_printable 0x1E true ≡ true
unfolding is_printable
printable = refl

letter : typed 0x1E state.keys ≡ b'A'
unfolding character
letter = refl

no_other : (n : ℕ) → n ≢ b'A' → typed 0x1E state.keys ≢ n
no_other n h e = h (omega (arith, letter, e))

keyboard_handler_types_example :
    (s' : KeyKernel ℕ) × (keyboard_handler bump (λ shown. true) 7000 16 0x1E state ≡ some s')
    × (unread s'.keys ≡ b'a' ∷ b'b' ∷ typed 0x1E state.keys ∷ [])
keyboard_handler_types_example =
    keyboard_handler_types bump (λ shown. true) 7000 16 0x1E state
      (sound 1 1023 (omega arith) (omega arith)) (omega arith) refl refl printable
      (no_other 9 (λ e. absurd (omega arith))) (no_other 0x1C (λ e. absurd (omega arith)))
      (no_other 0x0F (λ e. absurd (omega arith)))

get_keyboard_character_example :
    (s' : KeyKernel ℕ) × (get_keyboard_character bump 0 7000 5 state.keys.keyboard_options state
      ≡ some (got b'a', s'))
    × (unread s'.keys ≡ b'b' ∷ [])
    × (s'.keys.keyboard_options.modify_buffer ≡ false)
get_keyboard_character_example =
    get_keyboard_character_lem bump 0 7000 4 b'a' state.keys.keyboard_options (b'b' ∷ []) state
      (sound 1 1023 (omega arith) (omega arith)) refl refl
