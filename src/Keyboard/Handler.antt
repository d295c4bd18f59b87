-- ===== src/Keyboard/Handler.antt =====
-- Kernel/drivers/keyboard.c: the keyboard interrupt and `getKeyboardCharacter`.
use tp2_sistemas_operativos.Prelude.{
  ℕ, zero, suc, ◌+◌, ◌-◌, ◌%◌, List, [], ◌∷◌, ◌++◌, Option, none, some, Bool, true, false, not,
  ◌&&◌, ◌||◌, ltb, ◌==◌, if◌then◌else◌, codes,
}
use tp2_sistemas_operativos.Memory.Interface.{Allocator}
use tp2_sistemas_operativos.Process.Table.{get_terminal_foreground_process}
use tp2_sistemas_operativos.Process.Exit.{kill}
use tp2_sistemas_operativos.Scheduler.Block.{is_current}
use tp2_sistemas_operativos.Semaphore.{
  SemKernel, Turn, refused, asleep, taken, sem_create, sem_post, sem_wait,
}
use tp2_sistemas_operativos.Files.{FileKernel, Fd}
use tp2_sistemas_operativos.Files.Buffer.{Stream}
use tp2_sistemas_operativos.Keyboard.Codes.{character}
use tp2_sistemas_operativos.Keyboard.{
  Keyboard, Options, Shown, print, call, clear_previous_character, show, eof, buffer_size,
  buffer_is_full, is_empty, sub_mod, last_char, add_char, add_char_to_buffer, clear_all, is_keycode,
  is_printable, to_upper,
}

pub record KeyKernel (Heap : Type 0) : Type 0 where
  pub keys : Keyboard
  pub fds : ℕ → Fd
  pub streams : ℕ → Stream
  pub sem : SemKernel Heap
  pub printed : List (ℕ × ℕ)

-- What a round of the loop of `getKeyboardCharacter` comes to: a character, a wait for the semaphore,
-- or the halt of a kernel whose semaphore was not created.
pub data Got : Type 0 where
  got : ℕ → Got
  waits : Got
  halts : Got

-- "keyboard_input", and the message of a missing semaphore.
abbrev pub semaphore_name : List ℕ
semaphore_name = codes "keyboard_input"

abbrev pub no_semaphore : List ℕ
no_semaphore =
    codes "Error: keyboard_semaphore no est" ++ (0xC3 ∷ 0xA1 ∷ codes " inicializado" ++ b'\n' ∷ [])

module _ {Heap : Type 0} where
  abbrev pub with_keys : Keyboard → KeyKernel Heap → KeyKernel Heap
  with_keys k s = record s { keys = k }

  abbrev pub with_sem : SemKernel Heap → KeyKernel Heap → KeyKernel Heap
  with_sem x s = record s { sem = x }

  -- What the descriptors see of the state.
  abbrev pub files_of : KeyKernel Heap → FileKernel Heap
  files_of s = record { fds = s.fds; streams = s.streams; sem = s.sem; printed = s.printed }

  abbrev pub with_files : FileKernel Heap → KeyKernel Heap → KeyKernel Heap
  with_files f s = record s { fds = f.fds; streams = f.streams; sem = f.sem; printed = f.printed }

-- The test of the loop of `getKeyboardCharacter` fails: there is a character, and the last one ends a
-- line if one is awaited.
abbrev pub is_ready : Keyboard → Bool
is_ready k =
    not (is_empty k)
    && (not k.keyboard_options.await_return_key || last_char k == b'\n' || last_char k == eof)

module _ {Heap : Type 0} where
  abbrev pub goes_on : Option (KeyKernel Heap) → Option (Bool × KeyKernel Heap)
  goes_on none = none
  goes_on (some s) = some (true, s)

-- The oldest character, with all options cleared.
unfoldable pub take_char : Keyboard → ℕ × Keyboard
take_char k = (
  k.buffer k.to_read,
  record k {
    keyboard_options = record {
      show_buffer_while_typing = false;
      await_return_key = false;
      modify_buffer = false;
    };
    to_read = (k.to_read + 1) % buffer_size;
  },
)

-- Shift, control and caps lock.
unfoldable pub set_modifier : ℕ → Bool → Keyboard → Keyboard
set_modifier make pressed k =
    if make == 0x2A || make == 0x36
    then record k { shift_key_pressed = pressed }
    else if make == 0x1D
    then record k { control_key_pressed = pressed }
    else if make == 0x3A && pressed
    then record k { caps_lock_key_pressed = not k.caps_lock_key_pressed }
    else k

-- The byte of a key with the modifiers.
abbrev pub typed : ℕ → Keyboard → ℕ
typed scancode k =
    let c = character scancode k.shift_key_pressed in
    if k.caps_lock_key_pressed then to_upper c else c

-- RETURN and TAB have their own code in the table.
abbrev pub translated : ℕ → ℕ
translated c = if c == 0x1C then b'\n' else if c == 0x0F then b'\t' else c

-- A second newline in a row is not taken.
abbrev pub repeats_newline : ℕ → Keyboard → Bool
repeats_newline c k = c == 0x1C && not (is_empty k) && last_char k == b'\n'

-- The function that is registered for the key.
unfoldable pub call_registered : ℕ → Keyboard → Keyboard
call_registered scancode k =
    let fn = (k.key_fn_map (scancode - 1)).fn in if fn == 0 then k else show (call fn scancode) k

module _ {Heap : Type 0} where
  -- The function of the key is called unless the handler ended before.
  abbrev pub end_press : ℕ → Option (Bool × KeyKernel Heap) → Option (KeyKernel Heap)
  end_press scancode none = none
  end_press scancode (some (true, s)) = some (with_keys (call_registered scancode s.keys) s)
  end_press scancode (some (false, s)) = some s

module _ (A : Allocator) where
  open A use {Heap}

  abbrev pub post : KeyKernel Heap → KeyKernel Heap
  post s = elim s.keys.keyboard_semaphore [
    | none ↦ s
    | some id ↦ with_sem (sem_post A id s.sem).1 s
  ]

  abbrev pub stored : KeyKernel Heap → Option Keyboard → Option (KeyKernel Heap)
  stored s none = none
  stored s (some k) = some (post (with_keys k s))

module _ (A : Allocator) (null_pid : ℕ) where
  open A use {Heap}

  unfoldable pub init_keyboard : KeyKernel Heap → KeyKernel Heap
  init_keyboard s =
      let (id, sem) = sem_create A null_pid semaphore_name 0 s.sem in
      record s { keys = record s.keys { keyboard_semaphore = id }; sem = sem }

  -- After a wait: `again` is the next test of the loop.
  abbrev pub after_turn :
      (KeyKernel Heap → Option (Got × KeyKernel Heap))
      → KeyKernel Heap
      → Option (Turn × SemKernel Heap)
      → Option (Got × KeyKernel Heap)
  after_turn again s none = none
  after_turn again s (some (asleep, sem)) = some (waits, with_sem sem s)
  after_turn again s (some (refused, sem)) = again (with_sem sem s)
  after_turn again s (some (taken, sem)) = again (with_sem sem s)

  -- The loop. A round that does not end it takes one from the semaphore, so that its value and one
  -- more are enough fuel; a semaphore that is not in use would make it spin, and `none` is the end
  -- of the fuel or a switch that does not return.
  unfoldable pub get_loop : ℕ → ℕ → KeyKernel Heap → Option (Got × KeyKernel Heap)
  get_loop rsp zero s = none
  get_loop rsp (suc fuel) s = elim (is_ready s.keys) [
    | true ↦ some (got (take_char s.keys).0, with_keys (take_char s.keys).1 s)
    | false ↦ elim s.keys.keyboard_semaphore [
      | none ↦ some (halts, with_keys (show (print no_semaphore) s.keys) s)
      | some id ↦ after_turn (λ s'. get_loop rsp fuel s') s (sem_wait A null_pid rsp id s.sem)
    ]
  ]

  unfoldable pub get_keyboard_character :
      ℕ → ℕ → Options → KeyKernel Heap → Option (Got × KeyKernel Heap)
  get_keyboard_character rsp fuel ops s =
      get_loop rsp fuel
        (with_keys (record s.keys { keyboard_options = record ops { modify_buffer = true } }) s)

module _ (A : Allocator) (at_tab_stop : List Shown → Bool) where
  open A use {Heap}

  -- A process that kills itself loses the processor, and the rest is not done.
  unfoldable pub after_kill :
      Bool → KeyKernel Heap → Option (Option ℕ × FileKernel Heap) → Option (KeyKernel Heap)
  after_kill current s none = none
  after_kill true s (some (out, f)) = some (with_files f s)
  after_kill false s (some (out, f)) = elim (clear_all (suc buffer_size) s.keys) [
    | none ↦ none
    | some keys ↦ some (with_keys keys (with_files f s))
  ]

  unfoldable pub handle_ctrl_c : ℕ → KeyKernel Heap → Option (KeyKernel Heap)
  unfolding after_kill
  handle_ctrl_c rsp s = elim (get_terminal_foreground_process s.sem.kernel) [
    | none ↦ some s
    | some i ↦
        let pid = (s.sem.kernel.processes i).pid in
        after_kill (is_current pid s.sem.kernel)
          (with_keys (show (print (b'^' ∷ b'C' ∷ b'\n' ∷ [])) s.keys) s)
          (kill A rsp pid (files_of s))
  ]

  unfoldable pub handle_ctrl_d : KeyKernel Heap → KeyKernel Heap
  handle_ctrl_d s =
      let k = s.keys in
      if is_empty k
      then post A (with_keys (add_char eof false k) s)
      else post A (post A (with_keys (add_char eof false (add_char b'\n' true k)) s))

  -- A key that stands for a character: into the buffer, with a unit for the semaphore.
  unfoldable pub type_char : ℕ → ℕ → KeyKernel Heap → Option (KeyKernel Heap)
  type_char fuel c s = stored A s (
      add_char_to_buffer at_tab_stop fuel c s.keys.keyboard_options.show_buffer_while_typing s.keys)

  -- What a key does to the buffer while a character is read. The second result is whether the handler
  -- goes on.
  unfoldable pub edit_buffer : ℕ → ℕ → KeyKernel Heap → Option (Bool × KeyKernel Heap)
  edit_buffer fuel scancode s =
      let k = s.keys in
      let c = typed scancode k in
      if is_printable scancode k.shift_key_pressed
      then (if repeats_newline c k
          then some (false, s)
          else goes_on (type_char fuel (translated c) s))
      else if c == 0x0E && not (is_empty k)
      then some (
        true,
        with_keys (show clear_previous_character (record k { to_write = sub_mod k.to_write 1 })) s,
      )
      else some (true, s)

  -- The end of the handler, for a key that was pressed.
  unfoldable pub press : ℕ → ℕ → KeyKernel Heap → Option (KeyKernel Heap)
  press fuel scancode s =
      if s.keys.keyboard_options.modify_buffer
      then end_press scancode (edit_buffer fuel scancode s)
      else some (with_keys (call_registered scancode s.keys) s)

  -- The handler once the modifiers are set: `control` is whether control is held down.
  abbrev pub dispatch : ℕ → ℕ → ℕ → ℕ → Bool → Bool → KeyKernel Heap → Option (KeyKernel Heap)
  dispatch rsp fuel scancode make pressed control s =
      if control && pressed && make == 0x2E
      then handle_ctrl_c rsp s
      else if control && pressed && make == 0x20
      then some (handle_ctrl_d s)
      else if pressed && is_keycode scancode
      then press fuel scancode s
      else some s

  abbrev pub after_modifiers :
      ℕ → ℕ → ℕ → ℕ → Bool → Keyboard → KeyKernel Heap → Option (KeyKernel Heap)
  after_modifiers rsp fuel scancode make pressed k s =
      dispatch rsp fuel scancode make pressed k.control_key_pressed (with_keys k s)

  -- The scan code is what the controller of the keyboard gives; a full buffer is emptied.
  unfoldable pub keyboard_handler : ℕ → ℕ → ℕ → KeyKernel Heap → Option (KeyKernel Heap)
  keyboard_handler rsp fuel scancode s =
      let pressed = ltb scancode 0x80 in
      let make = scancode % 0x80 in
      if buffer_is_full s.keys
      then some (with_keys (record s.keys { to_write = 0; to_read = 0 }) s)
      else after_modifiers rsp fuel scancode make pressed (set_modifier make pressed s.keys) s
