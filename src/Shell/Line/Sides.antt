-- ===== src/Shell/Line/Sides.antt =====
-- Userland/Shell/shell.c: what parse_pipe_command makes of a line.
use tp2_sistemas_operativos.Prelude.{
  ℕ, zero, suc, ◌≤◌, ◌≡◌, ◌≢◌, ◌⊎◌, refl, sym, ap, ap₂, subst, ◌∙◌, arith, List, [], ◌∷◌, ◌++◌,
  append_assoc, append-nil, Option, none, some, true, false, ◌==◌, ==_iff, ==_ne, All, All-append,
  length, get_or, take, drop, Bool-cases, inl, inr,
}
use tp2_sistemas_operativos.Shell.Line.{
  is_blank, trim_length, trim_end, trim_start, pipe_position, one_more, PipeResult, no_pipe,
  invalid, both, validated, parsed_at, parse_pipe_command,
}

abbrev Blank : ℕ → Type 0
Blank c = is_blank c ≡ true

abbrev NotPipe : ℕ → Type 0
NotPipe c = c ≢ b'|'

-- A text that begins, or ends, with something other than a blank.
abbrev pub Starts : List ℕ → Type 0
Starts [] = ⊥
Starts (c ∷ s) = is_blank c ≡ false

abbrev pub Ends : List ℕ → Type 0
Ends s = (t : List ℕ) × (c : ℕ) × (s ≡ t ++ c ∷ []) × (is_blank c ≡ false)

-- What the result says of the line.
abbrev pub Means : List ℕ → PipeResult → Type 0
Means s no_pipe = All NotPipe s
Means s invalid =
    (l : List ℕ) × (r : List ℕ) × (s ≡ l ++ b'|' ∷ r) × All NotPipe l × (All Blank l ⊎ All Blank r)
Means s (both left right) =
    (b : List ℕ) × (d : List ℕ) × (s ≡ (left ++ b) ++ b'|' ∷ (d ++ right))
    × All NotPipe (left ++ b)
    × All Blank b
    × All Blank d
    × Ends left
    × Starts right

-- The first bar, if there is one.
abbrev Bar : List ℕ → Option ℕ → Type 0
Bar s o =
    ((o ≡ none) × All NotPipe s)
    ⊎ ((l : List ℕ) × (r : List ℕ) × (o ≡ some (length l)) × (s ≡ l ++ b'|' ∷ r) × All NotPipe l)

Bar-further : (c : ℕ) (s : List ℕ) → NotPipe c → (o : Option ℕ) → Bar s o → Bar (c ∷ s) (one_more o)
Bar-further c s ne o (inl (e, h)) = inl (ap one_more e, (ne, h))
Bar-further c s ne o (inr (l, r, e, eq, h)) =
    inr (c ∷ l, r, ap one_more e, ap (λ t. c ∷ t) eq, (ne, h))

pipe_position-Bar : (s : List ℕ) → Bar s (pipe_position s)
unfolding pipe_position
pipe_position-Bar [] = inl (refl, tt)
pipe_position-Bar (c ∷ s) = elim (Bool-cases (c == b'|')) [
  | inl e ↦ rw e (inr ([], s, refl, ap (λ x. x ∷ s) ((==_iff c b'|').0 e), tt))
  | inr e ↦ rw e (
      Bar-further c s (λ z. absurd (cc ((==_iff c b'|').1 z, e))) (pipe_position s)
        (pipe_position-Bar s))
]

take-append : (l r : List ℕ) → take (length l) (l ++ r) ≡ l
take-append [] r = refl
take-append (c ∷ l) r = ap (λ t. c ∷ t) (take-append l r)

drop-append : (l : List ℕ) (c : ℕ) (r : List ℕ) → drop (suc (length l)) (l ++ c ∷ r) ≡ r
drop-append [] c r = refl
drop-append (d ∷ l) c r = drop-append l c r

take-suc : (n : ℕ) (s : List ℕ) → suc n ≤ length s → take (suc n) s ≡ take n s ++ get_or s n 0 ∷ []
take-suc n [] lt = absurd (omega arith)
take-suc zero (c ∷ s) lt = refl
take-suc (suc n) (c ∷ s) lt = ap (λ t. c ∷ t) (take-suc n s (omega arith))

take-all : (s : List ℕ) → take (length s) s ≡ s
take-all [] = refl
take-all (c ∷ s) = ap (λ t. c ∷ t) (take-all s)

-- A text in front of blanks, which has none at its end.
abbrev Front : List ℕ → List ℕ → Type 0
Front s left = (b : List ℕ) × (s ≡ left ++ b) × All Blank b × ((left ≡ []) ⊎ Ends left)

trim_length-Front :
    (n : ℕ) (s : List ℕ) → n ≤ length s → Front (take n s) (take (trim_length n s) s)
unfolding trim_length
trim_length-Front zero s h = ([], refl, tt, inl refl)
trim_length-Front (suc n) s h = elim (Bool-cases (is_blank (get_or s n 0))) [
  | inl e ↦
      let (b, eq, blank, ends) = trim_length-Front n s (omega arith) in
      rw e (
        b ++ get_or s n 0 ∷ [],
        take-suc n s h
            ∙ ap (λ t. t ++ get_or s n 0 ∷ []) eq
            ∙ append_assoc (take (trim_length n s) s) b (get_or s n 0 ∷ []),
        All-append Blank b (get_or s n 0 ∷ []) blank (e, tt),
        ends,
      )
  | inr e ↦
      rw e
        ([], sym (append-nil (take (suc n) s)), tt, inr (take n s, get_or s n 0, take-suc n s h, e))
]

trim_end-Front : (s : List ℕ) → Front s (trim_end (length s) s)
unfolding trim_end
trim_end-Front s =
    subst (λ t. Front t (take (trim_length (length s) s) s)) (take-all s)
      (trim_length-Front (length s) s (omega arith))

abbrev Back : List ℕ → List ℕ → Type 0
Back s right = (d : List ℕ) × (s ≡ d ++ right) × All Blank d × ((right ≡ []) ⊎ Starts right)

trim_start-Back : (s : List ℕ) → Back s (trim_start s)
unfolding trim_start
trim_start-Back [] = ([], refl, tt, inl refl)
trim_start-Back (c ∷ s) = elim (Bool-cases (is_blank c)) [
  | inl e ↦
      let (d, eq, blank, starts) = trim_start-Back s in
      rw e (c ∷ d, ap (λ t. c ∷ t) eq, (e, blank), starts)
  | inr e ↦ rw e ([], refl, tt, inr e)
]

-- The two sides as they are trimmed, and the test that neither is empty.
validated-Means :
    (l r left right : List ℕ)
    → All NotPipe l
    → Front l left
    → Back r right
    → Means (l ++ b'|' ∷ r) (validated left right)
validated-Means l r [] right free (b, eq, blank, e) back =
    (l, r, refl, free, inl (subst (λ t. All Blank t) (sym eq) blank))
validated-Means l r (c ∷ left) [] free front (d, eq, blank, e) =
    rw (==_ne (suc (length left)) 0 (λ z. absurd (omega (arith, z))))
      (l, r, refl, free, inr (subst (λ t. All Blank t) (sym (eq ∙ append-nil d)) blank))
validated-Means l r (c ∷ left) (x ∷ right) free (b, eq, blank, e) (d, eq', blank', e') =
    rw
      (
        ==_ne (suc (length left)) 0 (λ z. absurd (omega (arith, z))),
        ==_ne (suc (length right)) 0 (λ z. absurd (omega (arith, z))),
      )
      (
        b,
        d,
        ap₂ (λ s t. s ++ b'|' ∷ t) eq eq',
        subst (λ t. All NotPipe t) eq free,
        blank,
        blank',
        elim e [ inl z ↦ absurd (cc z) | inr h ↦ h ],
        elim e' [ inl z ↦ absurd (cc z) | inr h ↦ h ],
      )

-- Every line has one of three results. 0: it holds no bar. -1: it is cut at its first bar, and one
-- of the sides holds blanks only. 1: it is the left command, blanks, its first bar, blanks and the
-- right command, where the left command does not end and the right one does not begin with a blank.
pub parse_pipe_command_lem : (s : List ℕ) → Means s (parse_pipe_command s)
unfolding parse_pipe_command
parse_pipe_command_lem s = elim (pipe_position-Bar s) [
  | inl (e, free) ↦ subst (λ o. Means s (parsed_at s o)) (sym e) free
  | inr (l, r, e, eq, free) ↦
      subst (λ o. Means s (parsed_at s o)) (sym e)
        (subst (λ t. Means t (parsed_at t (some (length l)))) (sym eq)
          (subst
            (λ t. Means (l ++ b'|' ∷ r) (
              validated (trim_end (length l) t)
                (trim_start (drop (suc (length l)) (l ++ b'|' ∷ r)))))
            (sym (take-append l (b'|' ∷ r)))
            (subst (λ t. Means (l ++ b'|' ∷ r) (validated (trim_end (length l) l) (trim_start t)))
              (sym (drop-append l b'|' r))
              (validated-Means l r (trim_end (length l) l) (trim_start r) free (trim_end-Front l)
                (trim_start-Back r)))))
]
