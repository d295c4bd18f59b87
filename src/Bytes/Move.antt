-- ===== src/Bytes/Move.antt =====
-- What `memmove` of Userland/libc/string.c and `memset` of Kernel/lib.c leave in memory.
use tp2_sistemas_operativos.Prelude.{
  ℕ, zero, suc, ◌+◌, ◌-◌, ◌*◌, ◌/◌, Bool-cases, ◌%◌, ◌^◌, ◌≤◌, ◌<◌, ◌≡◌, ◌⊎◌, inl, inr, sym, ap,
  ◌∙◌, arith, ◌&&◌, ◌||◌, ltb, leb, ◌==◌, if◌then◌else◌, update,
}
use tp2_sistemas_operativos.Bytes.{
  Bytes, copy_forward, copy_backward, memmove, memset, memset_from, memcpy, copy_words, copy_word,
}

-- The bytes from `lo` up to `hi` are those that stood at `s` on, and all others are as they were.
abbrev pub moved : ℕ → ℕ → ℕ → ℕ → Bytes → Bytes
moved d s lo hi mem a = if leb (d + lo) a && ltb a (d + hi) then mem (s + (a - d)) else mem a

forward_lem :
    (n i d s : ℕ) (mem : Bytes) (a : ℕ)
    → (d < s) ⊎ (s + (i + n) ≤ d)
    → copy_forward n i d s mem a ≡ moved d s i (i + n) mem a
unfolding copy_forward
forward_lem zero i d s mem a h = ground arith
forward_lem (suc n) i d s mem a h =
    forward_lem n (i + 1) d s (update mem (d + i) (mem (s + i))) a (grind arith) ∙ grind arith

backward_lem :
    (n d s : ℕ) (mem : Bytes) (a : ℕ) → s < d → copy_backward n d s mem a ≡ moved d s 0 n mem a
unfolding copy_backward
backward_lem zero d s mem a h = ground arith
backward_lem (suc n) d s mem a h =
    backward_lem n d s (update mem (d + n) (mem (s + n))) a h ∙ grind arith

word_byte :
    (d s : ℕ) (mem : Bytes) (b : ℕ)
    → copy_word d s mem b ≡ (if leb d b && ltb b (d + 4) then mem (s + (b - d)) else mem b)
word_byte d s mem b = grind arith

word_outside : (d s : ℕ) (mem : Bytes) (b : ℕ) → (b < d) ⊎ (d + 4 ≤ b) → copy_word d s mem b ≡ mem b
word_outside d s mem b h = word_byte d s mem b ∙ ground arith

moved_word :
    (n d s : ℕ) (mem : Bytes) (a : ℕ)
    → (d + 4 ≤ s) ⊎ (s + 4 * suc n ≤ d)
    → moved (d + 4) (s + 4) 0 (4 * n) (copy_word d s mem) a ≡ moved d s 0 (4 * suc n) mem a
moved_word n d s mem a h = elim (Bool-cases (leb (d + 4 + 0) a && ltb a (d + 4 + 4 * n))) [
  | inl e ↦ rw e (
      word_outside d s mem (s + 4 + (a - (d + 4))) (far h (ground arith) (ground arith))
      ∙ ap mem (from (ground arith))
      ∙ sym (into (ground arith) (ground arith)))
  | inr e ↦ rw e (word_byte d s mem a ∙ ground arith)
]
  where
    far :
        (d + 4 ≤ s) ⊎ (s + 4 * suc n ≤ d)
        → d + 4 ≤ a
        → a < d + 4 + 4 * n
        → (s + 4 + (a - (d + 4)) < d) ⊎ (d + 4 ≤ s + 4 + (a - (d + 4)))
    far (inl l) x y = inr (omega arith)
    far (inr g) x y = inl (omega arith)

    from : d + 4 ≤ a → s + 4 + (a - (d + 4)) ≡ s + (a - d)
    from x = omega arith

    into : d + 4 ≤ a → a < d + 4 + 4 * n → moved d s 0 (4 * suc n) mem a ≡ mem (s + (a - d))
    into x y = ground arith

words_lem :
    (n d s : ℕ) (mem : Bytes) (a : ℕ)
    → (d + 4 ≤ s) ⊎ (s + 4 * n ≤ d)
    → copy_words n d s mem a ≡ moved d s 0 (4 * n) mem a
unfolding copy_words
words_lem zero d s mem a h = ground arith
words_lem (suc n) d s mem a h =
    words_lem n (d + 4) (s + 4) (copy_word d s mem) a (grind arith) ∙ moved_word n d s mem a h

-- `memmove` leaves at the destination what stood at the source before, also where the two overlap,
-- and changes nothing else.
pub memmove_lem : (d s n : ℕ) (mem : Bytes) (a : ℕ) → memmove d s n mem a ≡ moved d s 0 n mem a
unfolding memmove
memmove_lem d s n mem a = elim (Bool-cases (d == s || n == 0)) [
  | inl e ↦ rw e (grind arith)
  | inr e ↦ rw e (elim (Bool-cases (ltb d s)) [
    | inl l ↦ rw l (
        forward_lem n 0 d s mem a (inl (ground arith))
        ∙ ap (λ k. moved d s 0 k mem a) (omega arith))
    | inr g ↦ rw g (backward_lem n d s mem a (ground arith))
  ])
]

words_none :
    (n d s : ℕ) (mem : Bytes) (a : ℕ) → n ≡ 0 → copy_words (n / 4) d s mem a ≡ moved d s 0 n mem a
unfolding copy_words
words_none n d s mem a e = rw e (ground arith)

-- `memcpy` leaves at the destination what stood at the source before and changes nothing else,
-- where the two do not overlap, whether it copies by words or by bytes.
pub memcpy_lem :
    (d s n : ℕ) (mem : Bytes) (a : ℕ)
    → (d + n ≤ s) ⊎ (s + n ≤ d)
    → memcpy d s n mem a ≡ moved d s 0 n mem a
unfolding memcpy
memcpy_lem d s n mem a h = elim (Bool-cases (d % 4 == 0 && s % 4 == 0 && n % 4 == 0)) [
  | inl e ↦ rw e (elim (Bool-cases (n == 0)) [
    | inl z ↦ words_none n d s mem a (ground arith)
    | inr p ↦
        words_lem (n / 4) d s mem a (grind arith) ∙ ap (λ k. moved d s 0 k mem a) (grind arith)
  ])
  | inr e ↦
      rw e (forward_lem n 0 d s mem a (grind arith) ∙ ap (λ k. moved d s 0 k mem a) (omega arith))
]

memset_from_lem :
    (n d c : ℕ) (mem : Bytes) (a : ℕ)
    → memset_from n d c mem a ≡ (if leb d a && ltb a (d + n) then c else mem a)
unfolding memset_from
memset_from_lem zero d c mem a = ground arith
memset_from_lem (suc n) d c mem a = memset_from_lem n d c (update mem (d + n) c) a ∙ ground arith

-- `memset` writes the low byte of the value to every address of the range and to no other.
pub memset_lem :
    (d c n : ℕ) (mem : Bytes) (a : ℕ)
    → memset d c n mem a ≡ (if leb d a && ltb a (d + n) then c % 2 ^ 8 else mem a)
unfolding memset
memset_lem d c n mem a = memset_from_lem n d (c % 2 ^ 8) mem a
