-- ===== src/Shell/Arguments/Fields.antt =====
-- Userland/Shell/shell.c: parse_arguments against a reference split of the line at its spaces.
use tp2_sistemas_operativos.Prelude.{
  ℕ, zero, suc, ◌+◌, ◌<◌, ◌≡◌, refl, sym, ap, subst, ◌∙◌, arith, List, [], ◌∷◌, ◌++◌, append_assoc,
  append-nil, none, some, ◌==◌, ==_ne, if◌then◌else◌, length, take, Bool-cases, inl, inr, ◌⊎◌,
  update, update_self, update_ne,
}
use tp2_sistemas_operativos.Strings.Laws.{Holds}
use tp2_sistemas_operativos.Strings.Token.{Tokens, strtok}
use tp2_sistemas_operativos.Strings.Token.Scan.{
  first_word, behind_word, stop, scan-Holds, Holds-agree, stop_after, stop_keeps,
  length-behind_word,
}
use tp2_sistemas_operativos.Shell.Arguments.{space, max_args, collect, parse_arguments}

abbrev cons_head : ℕ → List (List ℕ) → List (List ℕ)
cons_head c [] = (c ∷ []) ∷ []
cons_head c (w ∷ ws) = (c ∷ w) ∷ ws

abbrev unless_end : List ℕ → List (List ℕ) → List (List ℕ)
unless_end [] ws = []
unless_end (c ∷ s) ws = ws

-- The line cut at every space: two spaces have an empty word between them, and a space at the end
-- has none behind it.
abbrev pub fields : List ℕ → List (List ℕ)
fields [] = [] ∷ []
fields (c ∷ s) =
    let same = cons_head c (fields s) in if c == b' ' then [] ∷ unless_end s (fields s) else same

-- Each pointer of the list is that of a string.
abbrev pub Strings : (ℕ → ℕ) → List ℕ → List (List ℕ) → Type 0
Strings m [] [] = Unit
Strings m (p ∷ ps) (w ∷ ws) = Holds m p w × Strings m ps ws
Strings m _ _ = ⊥

fields-first :
    (s : List ℕ) → fields s ≡ first_word s ∷ unless_end (behind_word s) (fields (behind_word s))
fields-first [] = refl
fields-first (c ∷ s) = elim (Bool-cases (c == b' ')) [
  | inl e ↦ rw e refl
  | inr e ↦ rw (e, fields-first s) refl
]

-- What the scan leaves: the word, cut off by a NUL, and the text behind it.
stop-first :
    (m : ℕ → ℕ) (q : ℕ) (s : List ℕ) → Holds m q s → Holds (stop m q s).bytes q (first_word s)
stop-first m q [] h = h
stop-first m q (c ∷ s) h = elim (Bool-cases (c == b' ')) [
  | inl e ↦ rw e (update_self m 0 q)
  | inr e ↦
      rw e (stop_keeps m (q + 1) s q (omega arith) ∙ h.0, h.1, h.2, stop-first m (q + 1) s h.3)
]

stop-behind :
    (m : ℕ → ℕ) (q : ℕ) (s : List ℕ)
    → Holds m q s
    → Holds (stop m q s).bytes (stop m q s).last (behind_word s)
stop-behind m q [] h = h
stop-behind m q (c ∷ s) h = elim (Bool-cases (c == b' ')) [
  | inl e ↦ rw e (
      Holds-agree m (update m q 0) (q + 1) s
        (λ x l u. update_ne m 0 {i = q} {j = x} (λ z. absurd (omega (arith, z)))) h.3)
  | inr e ↦ rw e (stop-behind m (q + 1) s h.3)
]

-- What the loop collects from the state `t`, in which `r` is left to read.
abbrev Collects : ℕ → ℕ → List ℕ → Tokens → List ℕ → Type 0
Collects fuel room argv t r =
    (ptrs : List ℕ) × (u : Tokens) × (collect fuel room argv (strtok fuel none space t)
      ≡ some (argv ++ ptrs, u))
    × Strings u.bytes ptrs (take room (unless_end r (fields r)))
    × ((x : ℕ) → (x < t.last) ⊎ (r ≡ []) → u.bytes x ≡ t.bytes x)

Collects-end :
    (fuel room : ℕ) (argv : List ℕ) (t : Tokens)
    → Holds t.bytes t.last []
    → Collects fuel room argv t []
unfolding collect strtok
Collects-end fuel zero argv t h = ([], t, rw (h, append-nil argv) refl, tt, λ x _. refl)
Collects-end fuel (suc room) argv t h = ([], t, rw (h, append-nil argv) refl, tt, λ x _. refl)

next_token :
    (fuel : ℕ) (t : Tokens) (c : ℕ) (s : List ℕ)
    → length (c ∷ s) < fuel
    → Holds t.bytes t.last (c ∷ s)
    → strtok fuel none space t ≡ some (some t.last, stop t.bytes t.last (c ∷ s))
unfolding strtok
next_token fuel t c s lt h =
    rw (h.0, ==_ne c 0 (λ z. absurd (omega (arith, h.1, z))))
      (scan-Holds fuel t.last t.last t.bytes (c ∷ s) lt h)

-- The first of the words stays a string while the others are cut off.
first_stays :
    (t u : Tokens) (q : ℕ) (m : ℕ → ℕ) (s : List ℕ)
    → Holds m q s
    → ((x : ℕ) → (x < (stop m q s).last) ⊎ (behind_word s ≡ []) → u.bytes x ≡ (stop m q s).bytes x)
    → Holds u.bytes q (first_word s)
first_stays t u q m s h kept =
    Holds-agree (stop m q s).bytes u.bytes q (first_word s)
      (λ x l r. kept x (elim (stop_after m q s) [ inl z ↦ inr z | inr lt ↦ inl (omega arith) ]))
      (stop-first m q s h)

stop_untouched :
    (m : ℕ → ℕ) (q c : ℕ) (s : List ℕ) (x : ℕ)
    → (x < q) ⊎ ((c ∷ s) ≡ [])
    → (stop m q (c ∷ s)).bytes x ≡ m x
stop_untouched m q c s x (inl lt) = stop_keeps m q (c ∷ s) x lt
stop_untouched m q c s x (inr e) = absurd (cc e)

stop_further : (m : ℕ → ℕ) (q c : ℕ) (s : List ℕ) → q < (stop m q (c ∷ s)).last
stop_further m q c [] = ground arith
stop_further m q c (d ∷ s) = ground (arith, stop_further m (q + 1) d s)

-- One round, from what the rounds behind it collect.
Collects-next :
    (fuel room : ℕ) (argv : List ℕ) (t : Tokens) (c : ℕ) (s : List ℕ)
    → length (c ∷ s) < fuel
    → Holds t.bytes t.last (c ∷ s)
    → Collects fuel room (argv ++ t.last ∷ []) (stop t.bytes t.last (c ∷ s)) (behind_word (c ∷ s))
    → Collects fuel (suc room) argv t (c ∷ s)
Collects-next fuel room argv t c s lt h (ptrs, u, run, words, kept) = (
  t.last ∷ ptrs,
  u,
  rw (next_token fuel t c s lt h)
      (unfold collect in run ∙ ap (λ l. some (l, u)) (append_assoc argv (t.last ∷ []) ptrs)),
  subst (λ f. Strings u.bytes (t.last ∷ ptrs) (take (suc room) f)) (sym (fields-first (c ∷ s)))
      (first_stays t u t.last t.bytes (c ∷ s) h kept, words),
  λ x e.
      kept x (elim e [
        | inl lt ↦ inl (omega (arith, stop_further t.bytes t.last c s))
        | inr z ↦ absurd (cc z)
      ])
      ∙ stop_untouched t.bytes t.last c s x e,
)

collects :
    (fuel room : ℕ) (argv : List ℕ) (t : Tokens) (r : List ℕ)
    → length r < fuel
    → Holds t.bytes t.last r
    → Collects fuel room argv t r
collects fuel room argv t [] lt h = Collects-end fuel room argv t h
collects fuel zero argv t (c ∷ s) lt h = (
  [],
  stop t.bytes t.last (c ∷ s),
  rw (next_token fuel t c s lt h, append-nil argv) (unfold collect in refl),
  tt,
  stop_untouched t.bytes t.last c s,
)
collects fuel (suc room) argv t (c ∷ s) lt h = Collects-next fuel room argv t c s lt h (
    collects fuel room (argv ++ t.last ∷ []) (stop t.bytes t.last (c ∷ s)) (behind_word (c ∷ s))
      (omega (arith, length-behind_word (c ∷ s))) (stop-behind t.bytes t.last (c ∷ s) h))

-- A line in memory is taken apart into its words, of which the first 64 are kept: each entry of
-- `argv` is the address of a string, the words are those of the line in their order, and fuel beyond
-- the length of the line is enough.
pub parse_arguments_lem :
    (fuel p : ℕ) (t : Tokens) (line : List ℕ)
    → length line < fuel
    → Holds t.bytes p line
    → (argv : List ℕ) × (u : Tokens) × (parse_arguments fuel p t ≡ some (argv, u))
      × Strings u.bytes argv (take max_args (fields line))
unfolding parse_arguments strtok
parse_arguments_lem fuel p t line lt h =
    let m = t.bytes in
    let (ptrs, u, run, words, kept) =
      collects fuel 63 (p ∷ []) (stop m p line) (behind_word line)
        (omega (arith, length-behind_word line)) (stop-behind m p line h) in
    (
      p ∷ ptrs,
      u,
      rw (scan-Holds fuel p p m line lt h) (unfold collect in run),
      subst (λ f. Strings u.bytes (p ∷ ptrs) (take max_args f)) (sym (fields-first line))
          (first_stays t u p m line h kept, words),
    )
