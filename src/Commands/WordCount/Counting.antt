-- ===== src/Commands/WordCount/Counting.antt =====
-- Userland/Shell/commands.c: what wc counts.
use tp2_sistemas_operativos.Prelude.{
  ℕ, zero, suc, ◌+◌, ◌^◌, ◌<◌, ◌≤◌, ◌≡◌, refl, sym, ap, subst, ◌∙◌, arith, List, [], ◌∷◌, ◌++◌,
  append_assoc, append-nil, Option, some, Bool, not, true, false, ◌||◌, ◌==◌, ==_iff, if◌then◌else◌,
  length, codes,
}
use native.Mathlib.Nat.{add_assoc}
use tp2_sistemas_operativos.Calls.{Prog, ret, ◌>>=◌, Request, Answer}
use tp2_sistemas_operativos.Strings.Contents.{int_to_string}
use tp2_sistemas_operativos.Commands.Run.{Outcome, run}
use tp2_sistemas_operativos.Commands.Vowels.{run-bind}
use tp2_sistemas_operativos.Commands.WordCount.{
  Shown, nothing, Counts, no_counts, end_word, count_byte, wc_loop, wc_print, wc_counted, wc_read,
  option_words, show, wc_wrapper,
}

abbrev is_separator : ℕ → Bool
is_separator c = c == b'\n' || c == b' ' || c == b'\t' || c == b'\r'

abbrev pub newlines : List ℕ → ℕ
newlines [] = 0
newlines (c ∷ s) = (if c == b'\n' then 1 else 0) + newlines s

-- The words that begin in the text: a byte of a word behind a separator, or at the start.
abbrev pub starts : Bool → List ℕ → ℕ
starts inside [] = 0
starts inside (c ∷ s) =
    let blank = starts false s in
    let letter = (if inside then 0 else 1) + starts true s in
    if is_separator c then blank else letter

-- The counts after a text.
abbrev count : List ℕ → Counts → Counts
count [] n = n
count (c ∷ s) n = count s (count_byte c n)

starts-le : (inside : Bool) (s : List ℕ) → starts inside s ≤ length s
starts-le inside [] = omega arith
starts-le inside (c ∷ s) = ground (arith, starts-le false s, starts-le true s)

newlines-le : (s : List ℕ) → newlines s ≤ length s
newlines-le [] = omega arith
newlines-le (c ∷ s) = ground (arith, newlines-le s)

byte_lem :
    (c : ℕ) (n : Counts) (k : ℕ)
    → n.lines + suc k + 1 < 2 ^ 32
    → n.words + suc k + 1 < 2 ^ 32
    → n.chars + suc k + 1 < 2 ^ 32
    → ((count_byte c n).lines ≡ n.lines + (if c == b'\n' then 1 else 0))
      × ((count_byte c n).chars ≡ n.chars + 1)
      × ((count_byte c n).words
          ≡ n.words + (if is_separator c then if n.in_word then 1 else 0 else 0))
      × ((count_byte c n).in_word ≡ not (is_separator c))
unfolding count_byte
byte_lem c n k hl hw hc = ground arith

bit-le : (b : Bool) → (if b then 1 else 0) ≤ 1
bit-le true = omega arith
bit-le false = omega arith

bit2-le : (a b : Bool) → (if a then if b then 1 else 0 else 0) ≤ 1
bit2-le true b = bit-le b
bit2-le false b = omega arith

words_step :
    (sep inw miw : Bool) (w mw w' : ℕ) (f : Bool → ℕ)
    → miw ≡ not sep
    → mw ≡ w + (if sep then if inw then 1 else 0 else 0)
    → w' ≡ mw + (if miw then 1 else 0) + f miw
    → w' ≡ w + (if inw then 1 else 0) + (if sep then f false else (if inw then 0 else 1) + f true)
words_step true true miw w mw w' f e h k =
    let k' : w' ≡ mw + 0 + f false = subst (λ b. w' ≡ mw + (if b then 1 else 0) + f b) e k in
    omega (arith, h, k')
words_step true false miw w mw w' f e h k =
    let k' : w' ≡ mw + 0 + f false = subst (λ b. w' ≡ mw + (if b then 1 else 0) + f b) e k in
    omega (arith, h, k')
words_step false true miw w mw w' f e h k =
    let k' : w' ≡ mw + 1 + f true = subst (λ b. w' ≡ mw + (if b then 1 else 0) + f b) e k in
    omega (arith, h, k')
words_step false false miw w mw w' f e h k =
    let k' : w' ≡ mw + 1 + f true = subst (λ b. w' ≡ mw + (if b then 1 else 0) + f b) e k in
    omega (arith, h, k')

-- The counts at the end, the word that the text ends in included.
count_lem :
    (s : List ℕ) (n : Counts)
    → n.lines + length s + 1 < 2 ^ 32
    → n.words + length s + 1 < 2 ^ 32
    → n.chars + length s + 1 < 2 ^ 32
    → ((count s n).lines ≡ n.lines + newlines s)
      × ((end_word (count s n)).words ≡ n.words + (if n.in_word then 1 else 0) + starts n.in_word s)
      × ((count s n).chars ≡ n.chars + length s)
count_lem [] n hl hw hc = ground arith
count_lem (c ∷ s) n hl hw hc =
    let (l, ch, w, inside) = byte_lem c n (length s) hl hw hc in
    let (il, iw, ic) =
      count_lem s (count_byte c n) (omega (arith, l, bit-le (c == b'\n')))
        (omega (arith, w, bit2-le (is_separator c) n.in_word)) (omega (arith, ch)) in
    (
      il
          ∙ ap (λ x. x + newlines s) l
          ∙ add_assoc n.lines (if c == b'\n' then 1 else 0) (newlines s),
      words_step (is_separator c) n.in_word (count_byte c n).in_word n.words (count_byte c n).words
          (end_word (count s (count_byte c n))).words (λ b. starts b s) inside w iw,
      omega (arith, ic, ch),
    )

-- What is written of a count.
abbrev pub part : Bool → ℕ → List ℕ → List ℕ
part false n name = []
part true n name = int_to_string n ++ name

-- What wc leaves, from the three counts.
abbrev pub written : Shown → ℕ × ℕ → ℕ → ℕ → ℕ → Outcome (Option ℕ)
written o fds lines words chars = record {
  result = some 0;
  input = [];
  output =
      (part (o.lines || o.all) lines (codes " lineas\n")
        ++ part (o.words || o.all) words (codes " palabras\n"))
      ++ part (o.chars || o.all) chars (codes " caracteres\n");
  closed = fds.0 ∷ fds.1 ∷ [];
}

same_written :
    (o : Shown) (fds : ℕ × ℕ) {l w c l' w' c' : ℕ}
    → l ≡ l'
    → w ≡ w'
    → c ≡ c'
    → written o fds l w c ≡ written o fds l' w' c'
same_written o fds {l} {w} {c} {l'} {w'} {c'} e f g =
    ap (λ x. written o fds x w c) e
    ∙ ap (λ x. written o fds l' x c) f
    ∙ ap (λ x. written o fds l' w' x) g

end_word-keeps : (n : Counts) → ((end_word n).lines ≡ n.lines) × ((end_word n).chars ≡ n.chars)
end_word-keeps n = ground arith

module _ (env : (r : Request) → Answer r) (fds : ℕ × ℕ) where
  wc_loop-run :
      (fuel : ℕ) (input output closed : List ℕ) (n : Counts)
      → length input < fuel
      → run env fds input output closed (wc_loop fuel fds n)
        ≡ record { result = some (count input n); input = []; output = output; closed = closed }
  unfolding wc_loop run
  wc_loop-run zero input output closed n lt = absurd (omega arith)
  wc_loop-run (suc fuel) [] output closed n lt = rw ((==_iff fds.0 fds.0).1 refl) refl
  wc_loop-run (suc fuel) (c ∷ s) output closed n lt =
      rw ((==_iff fds.0 fds.0).1 refl)
        (wc_loop-run fuel s output closed (count_byte c n) (omega arith))

  show-run :
      {A : Type 0} (b : Bool) (n : ℕ) (name input output closed : List ℕ) (p : Prog A)
      → run env fds input output closed (show b fds.1 n name >>= λ _. p)
        ≡ run env fds input (output ++ part b n name) closed p
  unfolding show run
  show-run false n name input output closed p =
      ap (λ o. run env fds input o closed p) (sym (append-nil output))
  show-run true n name input output closed p =
      ap
        (λ b.
          run env fds input
            (if b
              then (if b then output ++ int_to_string n else output) ++ name
              else if b
              then output ++ int_to_string n
              else output)
            closed p)
        ((==_iff fds.1 fds.1).1 refl)
      ∙ ap (λ o. run env fds input o closed p) (append_assoc output (int_to_string n) name)

  wc_print-run :
      (o : Shown) (n : Counts)
      → run env fds [] [] [] (wc_print o fds n) ≡ written o fds n.lines n.words n.chars
  unfolding wc_print run
  wc_print-run o n =
      show-run (o.lines || o.all) n.lines (codes " lineas\n") [] [] [] _
      ∙ show-run (o.words || o.all) n.words (codes " palabras\n") [] _ [] _
      ∙ show-run (o.chars || o.all) n.chars (codes " caracteres\n") [] _ [] _

-- wc with valid options ends with status 0, as fuel beyond the length of the input is enough, has
-- read all of it and closes both descriptors. Of an input of less than 2^31 bytes it writes, as
-- far as the options `o` ask for them, the number of newlines, of words that begin in it, and of bytes.
pub wc_wrapper_lem :
    (env : (r : Request) → Answer r) (fds stale : ℕ × ℕ) (fuel : ℕ) (name : List ℕ)
    (args : List (List ℕ)) (o : Shown) (input : List ℕ)
    → option_words args nothing ≡ ret (some o)
    → length input < fuel
    → length input < 2 ^ 31
    → run env fds input [] [] (wc_wrapper fuel stale (name ∷ args))
      ≡ written o fds (newlines input) (starts false input) (length input)
unfolding wc_wrapper wc_read wc_counted run
wc_wrapper_lem env fds stale fuel name args o input valid lt small =
    let (l, w, c) = count_lem input no_counts (omega arith) (omega arith) (omega arith) in
    ap (λ p. run env fds input [] [] (p >>= wc_read fuel stale)) valid
    ∙ run-bind env fds input [] [] (wc_loop fuel fds no_counts) (wc_counted o fds)
    ∙ ap (λ r. run env fds r.input r.output r.closed (wc_counted o fds r.result))
        (wc_loop-run env fds fuel input [] [] no_counts lt)
    ∙ wc_print-run env fds o (end_word (count input no_counts))
    ∙ same_written o fds {l' = newlines input} {w' = starts false input} {c' = length input}
        (omega (arith, (end_word-keeps (count input no_counts)).0, l)) (omega (arith, w))
        (omega (arith, (end_word-keeps (count input no_counts)).1, c))
