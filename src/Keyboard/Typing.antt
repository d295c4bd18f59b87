-- ===== src/Keyboard/Typing.antt =====
-- Kernel/drivers/keyboard.c: a key that stands for a character, from the interrupt to the reader.
use tp2_sistemas_operativos.Prelude.{
  ℕ, ◌-◌, ◌%◌, ◌<◌, ◌≡◌, ◌≢◌, refl, ap, ap₂, ◌∙◌, arith, List, [], ◌∷◌, ◌++◌, some, Bool, true,
  false, ltb, ◌==◌, ==_ne, if◌then◌else◌, Bool-cases, inl, inr,
}
use tp2_sistemas_operativos.Memory.Interface.{Allocator}
use tp2_sistemas_operativos.Keyboard.{
  Keyboard, Shown, add_blanks, buffer_is_full, add_char, add_char_to_buffer, is_printable,
  is_keycode,
}
use tp2_sistemas_operativos.Keyboard.Handler.{
  KeyKernel, with_keys, post, typed, translated, set_modifier, call_registered, type_char,
  edit_buffer, press, keyboard_handler, stored, goes_on, end_press, repeats_newline, dispatch,
  after_modifiers,
}
use tp2_sistemas_operativos.Keyboard.Fifo.{
  IsSound, count, unread, buffer_is_full_iff, unread-add_char,
}

-- No printable key is a modifier.
printable_key :
    (c : ℕ) (shift : Bool)
    → is_printable c shift ≡ true
    → (c < 0x80) × (is_keycode c ≡ true) × (c ≢ 0x2A) × (c ≢ 0x36) × (c ≢ 0x1D) × (c ≢ 0x3A)
unfolding is_printable
printable_key c true h = ground arith
printable_key c false h = ground arith

same_modifiers :
    (c : ℕ) (pressed : Bool) (k : Keyboard)
    → c ≢ 0x2A
    → c ≢ 0x36
    → c ≢ 0x1D
    → c ≢ 0x3A
    → set_modifier c pressed k ≡ k
unfolding set_modifier
same_modifiers c pressed k h1 h2 h3 h4 =
    rw (==_ne c 0x2A h1, ==_ne c 0x36 h2, ==_ne c 0x1D h3, ==_ne c 0x3A h4) refl

call_registered-unread :
    (c : ℕ) (k : Keyboard)
    → (unread (call_registered c k) ≡ unread k) × (count (call_registered c k) ≡ count k)
unfolding call_registered
call_registered-unread c k = elim (Bool-cases ((k.key_fn_map (c - 1)).fn == 0)) [
  | inl e ↦ rw e (refl, refl)
  | inr e ↦ rw e (refl, refl)
]

full_count : (k : Keyboard) → k.to_read ≡ 0 → k.to_write ≡ 1023 → count k < 1023 → ⊥
full_count k r w h = ground arith

not_full : (k : Keyboard) → IsSound k → count k < 1023 → buffer_is_full k ≡ false
not_full k v h = elim (Bool-cases (buffer_is_full k)) [
  | inl e ↦ let at = (buffer_is_full_iff k v).0 e in absurd (full_count k at.0 at.1 h)
  | inr e ↦ e
]

module _ (A : Allocator) where
  open A use {Heap}

  post-keys : (s : KeyKernel Heap) → (post A s).keys ≡ s.keys
  post-keys s = ground arith

module _ (A : Allocator) (at_tab_stop : List Shown → Bool) where
  open A use {Heap}

  add_char_to_buffer-plain :
      (fuel c : ℕ) (show : Bool) (k : Keyboard)
      → c ≢ 9
      → add_char_to_buffer at_tab_stop fuel c show k ≡ some (add_char c show k)
  unfolding add_char_to_buffer
  add_char_to_buffer-plain fuel c show k h =
      ap (λ t. if t then add_blanks at_tab_stop fuel show k else some (add_char c show k))
        (==_ne c 9 h)

  -- The state once a character is in the buffer.
  abbrev after_char : ℕ → KeyKernel Heap → KeyKernel Heap
  after_char c s =
      post A (with_keys (add_char c s.keys.keyboard_options.show_buffer_while_typing s.keys) s)

  type_char-plain :
      (fuel c : ℕ) (s : KeyKernel Heap)
      → c ≢ 9
      → type_char A at_tab_stop fuel c s ≡ some (after_char c s)
  unfolding type_char
  type_char-plain fuel c s h =
      ap (stored A s)
        (add_char_to_buffer-plain fuel c s.keys.keyboard_options.show_buffer_while_typing s.keys h)

  edit_buffer-plain :
      (fuel scancode : ℕ) (s : KeyKernel Heap)
      → is_printable scancode s.keys.shift_key_pressed ≡ true
      → typed scancode s.keys ≢ 9
      → typed scancode s.keys ≢ 0x1C
      → typed scancode s.keys ≢ 0x0F
      → edit_buffer A at_tab_stop fuel scancode s
        ≡ some (true, after_char (typed scancode s.keys) s)
  unfolding edit_buffer
  edit_buffer-plain fuel scancode s p h1 h2 h3 =
      let c = typed scancode s.keys in
      let same : translated c ≡ c = rw (==_ne c 0x1C h2, ==_ne c 0x0F h3) refl in
      let no_repeat : repeats_newline c s.keys ≡ false = rw (==_ne c 0x1C h2) refl in
      rw (p, no_repeat)
        (ap (λ d. goes_on (type_char A at_tab_stop fuel d s)) same
          ∙ ap goes_on (type_char-plain fuel c s h1))

  press-plain :
      (fuel scancode : ℕ) (s : KeyKernel Heap)
      → s.keys.keyboard_options.modify_buffer ≡ true
      → is_printable scancode s.keys.shift_key_pressed ≡ true
      → typed scancode s.keys ≢ 9
      → typed scancode s.keys ≢ 0x1C
      → typed scancode s.keys ≢ 0x0F
      → press A at_tab_stop fuel scancode s
        ≡ some (
            with_keys
              (call_registered scancode (after_char (typed scancode s.keys) s).keys)
              (after_char (typed scancode s.keys) s))
  unfolding press
  press-plain fuel scancode s m p h1 h2 h3 =
      ap
        (λ t.
          if t
          then end_press scancode (edit_buffer A at_tab_stop fuel scancode s)
          else some (with_keys (call_registered scancode s.keys) s))
        m
      ∙ ap (end_press scancode) (edit_buffer-plain fuel scancode s p h1 h2 h3)

  handler-press :
      (rsp fuel scancode : ℕ) (s : KeyKernel Heap)
      → IsSound s.keys
      → count s.keys < 1023
      → s.keys.control_key_pressed ≡ false
      → is_printable scancode s.keys.shift_key_pressed ≡ true
      → keyboard_handler A at_tab_stop rsp fuel scancode s ≡ press A at_tab_stop fuel scancode s
  unfolding keyboard_handler
  handler-press rsp fuel scancode s v room ctrl p =
      let (small, code, n1, n2, n3, n4) = printable_key scancode s.keys.shift_key_pressed p in
      let make : scancode % 0x80 ≡ scancode = omega arith in
      let down : ltb scancode 0x80 ≡ true = ground arith in
      let roomy : buffer_is_full s.keys ≡ false = not_full s.keys v room in
      let mods : set_modifier scancode true s.keys ≡ s.keys =
        same_modifiers scancode true s.keys n1 n2 n3 n4 in
      let go = λ (make : ℕ) (pressed : Bool) (k : Keyboard).
        after_modifiers A at_tab_stop rsp fuel scancode make pressed k s in
      ap
        (λ t.
          if t
          then some (with_keys (record s.keys { to_write = 0; to_read = 0 }) s)
          else go (scancode % 0x80) (ltb scancode 0x80)
              (set_modifier (scancode % 0x80) (ltb scancode 0x80) s.keys))
        roomy
      ∙ ap₂ (λ m d. go m d (set_modifier m d s.keys)) make down
      ∙ ap (go scancode true) mods
      ∙ ap (λ c. dispatch A at_tab_stop rsp fuel scancode scancode true c s) ctrl
      ∙ ap (λ t. if t then press A at_tab_stop fuel scancode s else some s) code

  -- The interrupt of a key that was pressed, stands for a character other than RETURN and TAB, with
  -- control not held down, while a character is asked for and less than 1023 are unread: the
  -- handler puts the key's character, by shift and caps lock, behind those that are unread.
  pub keyboard_handler_types :
      (rsp fuel scancode : ℕ) (s : KeyKernel Heap)
      → IsSound s.keys
      → count s.keys < 1023
      → s.keys.control_key_pressed ≡ false
      → s.keys.keyboard_options.modify_buffer ≡ true
      → is_printable scancode s.keys.shift_key_pressed ≡ true
      → typed scancode s.keys ≢ 9
      → typed scancode s.keys ≢ 0x1C
      → typed scancode s.keys ≢ 0x0F
      → (s' : KeyKernel Heap) × (keyboard_handler A at_tab_stop rsp fuel scancode s ≡ some s')
        × (unread s'.keys ≡ unread s.keys ++ typed scancode s.keys ∷ [])
  keyboard_handler_types rsp fuel scancode s v room ctrl m p h1 h2 h3 =
      let c = typed scancode s.keys in
      let k1 = add_char c s.keys.keyboard_options.show_buffer_while_typing s.keys in
      let kept : (after_char c s).keys ≡ k1 = post-keys A (with_keys k1 s) in
      (
        with_keys (call_registered scancode (after_char c s).keys) (after_char c s),
        handler-press rsp fuel scancode s v room ctrl p ∙ press-plain fuel scancode s m p h1 h2 h3,
        (call_registered-unread scancode (after_char c s).keys).0
            ∙ ap unread kept
            ∙ unread-add_char c s.keys.keyboard_options.show_buffer_while_typing s.keys v room,
      )
