-- ===== src/Keyboard/Reading.antt =====
-- Kernel/drivers/keyboard.c: `getKeyboardCharacter` where a character is ready.
use tp2_sistemas_operativos.Prelude.{
  ℕ, suc, ◌<◌, ◌≡◌, refl, ap, ◌∙◌, arith, List, ◌∷◌, some, Bool, true, false, not, ◌&&◌,
}
use tp2_sistemas_operativos.Memory.Interface.{Allocator}
use tp2_sistemas_operativos.Keyboard.{Keyboard, Options, is_empty}
use tp2_sistemas_operativos.Keyboard.Handler.{
  KeyKernel, got, with_keys, take_char, get_loop, get_keyboard_character, is_ready,
}
use tp2_sistemas_operativos.Keyboard.Fifo.{IsSound, count, unread, unread-take_char}

and-not : (a b : Bool) → (not a && b) ≡ true → a ≡ false
and-not true b h = cc
and-not false b h = refl

not_empty : (k : Keyboard) → IsSound k → is_empty k ≡ false → 0 < count k
not_empty k v h = ground arith

ready_count : (k : Keyboard) → IsSound k → is_ready k ≡ true → 0 < count k
ready_count k v h = not_empty k v (and-not (is_empty k) _ h)

take_char-off : (k : Keyboard) → (take_char k).1.keyboard_options.modify_buffer ≡ false
unfolding take_char
take_char-off k = refl

module _ (A : Allocator) (null_pid : ℕ) where
  open A use {Heap}

  get_loop-ready :
      (rsp fuel : ℕ) (s : KeyKernel Heap)
      → is_ready s.keys ≡ true
      → get_loop A null_pid rsp (suc fuel) s
        ≡ some (got (take_char s.keys).0, with_keys (take_char s.keys).1 s)
  unfolding get_loop
  get_loop-ready rsp fuel s h = rw (h, get_loop) refl

  -- The keyboard while a character is asked for.
  abbrev pub asked : Options → Keyboard → Keyboard
  asked ops k = record k { keyboard_options = record ops { modify_buffer = true } }

  -- `getKeyboardCharacter`, where something was typed and, if a line is asked for, the last character
  -- is a newline or EOF, answers at once with the oldest character; the others stay, in their
  -- order, and no key is stored any more until the next call.
  pub get_keyboard_character_lem :
      (rsp fuel c : ℕ) (ops : Options) (rest : List ℕ) (s : KeyKernel Heap)
      → IsSound s.keys
      → is_ready (asked ops s.keys) ≡ true
      → unread s.keys ≡ c ∷ rest
      → (s' : KeyKernel Heap) × (get_keyboard_character A null_pid rsp (suc fuel) ops s
          ≡ some (got c, s'))
        × (unread s'.keys ≡ rest)
        × (s'.keys.keyboard_options.modify_buffer ≡ false)
  unfolding get_keyboard_character
  get_keyboard_character_lem rsp fuel c ops rest s v ready u =
      let k = asked ops s.keys in
      let w : IsSound k = record { write = v.write; read = v.read } in
      let taken = unread-take_char k w (ready_count k w ready) in
      let first : (take_char k).0 ≡ c = cc (u, taken) in
      (
        with_keys (take_char k).1 s,
        get_loop-ready rsp fuel (with_keys k s) ready
            ∙ ap (λ d. some (got d, with_keys (take_char k).1 s)) first,
        cc (u, taken),
        take_char-off k,
      )
