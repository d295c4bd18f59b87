-- ===== src/Stdio/Laws.antt =====
-- What `vfprintf` of Userland/libc/stdio.c prints, and that `vsscanf` reads it back.
use tp2_sistemas_operativos.Prelude.{
  ℕ, zero, suc, ◌+◌, ◌-◌, ◌*◌, ◌%◌, ◌^◌, ◌<◌, ◌≡◌, ◌≢◌, inl, inr, refl, sym, ap, subst, ◌∙◌, arith,
  List, [], ◌∷◌, some, Bool, true, false, Bool-cases, leb, ==_ne, if◌then◌else◌, length, All,
  append-nil,
}
use tp2_sistemas_operativos.Number.{uint_to_base}
use tp2_sistemas_operativos.Number.Value.{
  IsDecimal, high_first, uint_to_base-value, uint_to_base-IsDecimal, digit_value, uint_to_base-cons,
}
use tp2_sistemas_operativos.Stdio.Ansi.{Event, put}
use tp2_sistemas_operativos.Stdio.Print.{
  Arg, num, vfprintf, puts, print_int, padded, is_digit, pad_char, negated, Flags, parse_width,
  print_number,
}
use tp2_sistemas_operativos.Stdio.Scan.{int, scan_digits, scan_int, vsscanf, then_store}

-- A byte that stands for itself in a format.
abbrev pub IsPlain : ℕ → Type 0
IsPlain c = (c ≢ 27) × (c ≢ b'%')

plain_step :
    (fuel c : ℕ) (cs : List ℕ) (args : List Arg) (es : List Event)
    → IsPlain c
    → vfprintf fuel cs args ≡ some es
    → vfprintf (suc fuel) (c ∷ cs) args ≡ some (put c ∷ es)
unfolding vfprintf
plain_step fuel c cs args es h e = rw (==_ne c 27 h.0, ==_ne c b'%' h.1, e)

-- A format with no escape character and no `%` is printed as it stands, whatever the arguments are.
pub vfprintf-plain :
    (cs : List ℕ) (args : List Arg) (fuel : ℕ)
    → All IsPlain cs
    → length cs < fuel
    → vfprintf fuel cs args ≡ some (puts cs)
vfprintf-plain cs args zero h l = absurd (omega arith)
vfprintf-plain [] args (suc fuel) h l = unfold vfprintf in refl
vfprintf-plain (c ∷ cs) args (suc fuel) h l =
    plain_step fuel c cs args (puts cs) h.0 (vfprintf-plain cs args fuel h.1 (omega arith))

high_first-congruent :
    (a b : ℕ) (cs : List ℕ)
    → a % 2 ^ 32 ≡ b % 2 ^ 32
    → high_first 10 a cs % 2 ^ 32 ≡ high_first 10 b cs % 2 ^ 32
high_first-congruent a b [] e = e
high_first-congruent a b (c ∷ cs) e =
    high_first-congruent (a * 10 + digit_value c) (b * 10 + digit_value c) cs (omega arith)

decimal_digit : (c : ℕ) → IsDecimal c → is_digit c ≡ true
decimal_digit c h = ground arith

scan_step :
    (acc : ℕ) (any : Bool) (c : ℕ) (cs : List ℕ)
    → IsDecimal c
    → scan_digits acc any (c ∷ cs) ≡ scan_digits ((acc * 10 + (c - b'0')) % 2 ^ 32) true cs
unfolding scan_digits
scan_step acc any c cs h = ground arith

scan_end : (acc : ℕ) (any : Bool) → scan_digits acc any [] ≡ (acc, any, [])
unfolding scan_digits
scan_end acc any = refl

-- Digits up to the end of the buffer are read to their value on 32 bits.
scanned :
    (acc : ℕ) (any : Bool) (c : ℕ) (cs : List ℕ)
    → All IsDecimal (c ∷ cs)
    → scan_digits acc any (c ∷ cs) ≡ (high_first 10 acc (c ∷ cs) % 2 ^ 32, true, [])
scanned acc any c [] h =
    scan_step acc any c [] h.0
    ∙ scan_end ((acc * 10 + (c - b'0')) % 2 ^ 32) true
    ∙ ap (λ v. (v, true, [])) (low c h.0)
  where
    low :
        (c : ℕ)
        → IsDecimal c
        → (acc * 10 + (c - b'0')) % 2 ^ 32 ≡ (acc * 10 + digit_value c) % 2 ^ 32
    low c h = ground arith
scanned acc any c (d ∷ ds) h =
    scan_step acc any c (d ∷ ds) h.0
    ∙ scanned ((acc * 10 + (c - b'0')) % 2 ^ 32) true d ds h.1
    ∙ ap (λ v. (v, true, []))
        (high_first-congruent ((acc * 10 + (c - b'0')) % 2 ^ 32) (acc * 10 + digit_value c) (d ∷ ds)
          (low c h.0))
  where
    low :
        (c : ℕ)
        → IsDecimal c
        → (acc * 10 + (c - b'0')) % 2 ^ 32 % 2 ^ 32 ≡ (acc * 10 + digit_value c) % 2 ^ 32
    low c h = ground arith

-- The digits that are printed for `v` are read as `v`.
scanned_uint : (v : ℕ) → v < 2 ^ 32 → scan_digits 0 false (uint_to_base v 10) ≡ (v, true, [])
scanned_uint v h =
    let (d, ds, e) = uint_to_base-cons v 10 in
    ap (scan_digits 0 false) e
    ∙ scanned 0 false d ds (subst (All IsDecimal) e (uint_to_base-IsDecimal v))
    ∙ ap (λ cs. (high_first 10 0 cs % 2 ^ 32, true, [])) (sym e)
    ∙ ap (λ n. (n % 2 ^ 32, true, []))
        (uint_to_base-value v 10 (omega arith) (omega arith) (omega arith))
    ∙ ap (λ n. (n, true, [])) (omega arith)

-- The text of the `int` with the bits `v`.
abbrev pub decimal : ℕ → List ℕ
decimal v = if leb (2 ^ 31) v then b'-' ∷ uint_to_base (2 ^ 32 - v) 10 else uint_to_base v 10

one_int : (cs : List ℕ) → vsscanf (b'%' ∷ b'd' ∷ []) cs ≡ then_store (scan_int cs).0 (some ([], 0))
unfolding vsscanf
one_int cs = refl

scan_negative :
    (cs : List ℕ) (v : ℕ)
    → scan_digits 0 false cs ≡ (v, true, [])
    → scan_int (b'-' ∷ cs) ≡ (some (int ((2 ^ 32 - v) % 2 ^ 32), 1), [])
unfolding scan_int
scan_negative cs v e = rw e refl

scan_positive :
    (c : ℕ) (cs : List ℕ) (v : ℕ)
    → IsDecimal c
    → scan_digits 0 false (c ∷ cs) ≡ (v, true, [])
    → scan_int (c ∷ cs) ≡ (some (int v, 1), [])
unfolding scan_int
scan_positive c cs v h e = rw (==_ne c b'-' (omega arith), decimal_digit c h, e) refl

-- The text is read back.
scan_decimal : (v : ℕ) → v < 2 ^ 32 → v ≢ 2 ^ 31 → scan_int (decimal v) ≡ (some (int v, 1), [])
scan_decimal v h d = elim (Bool-cases (leb (2 ^ 31) v)) [
  | inl e ↦ rw e (
      scan_negative (uint_to_base (2 ^ 32 - v) 10) (2 ^ 32 - v)
        (scanned_uint (2 ^ 32 - v) (ground arith))
      ∙ ap (λ n. (some (int n, 1), [])) (ground arith))
  | inr e ↦ rw e (
      let (c, cs, q) = uint_to_base-cons v 10 in
      ap scan_int q
      ∙ scan_positive c cs v (subst (All IsDecimal) q (uint_to_base-IsDecimal v)).0
          (sym (ap (scan_digits 0 false) q) ∙ scanned_uint v h))
]

unpadded : (f : Flags) (pad len : ℕ) (body : List Event) → padded f pad 0 len body ≡ body
unfolding padded
unpadded f pad len body = ground arith

printed_int : (f : Flags) (v : ℕ) → v < 2 ^ 32 → v ≢ 2 ^ 31 → print_int f 0 v ≡ puts (decimal v)
unfolding print_int
printed_int f v h d = elim (Bool-cases (leb (2 ^ 31) v)) [
  | inl e ↦ rw e (
      ap (λ es. put b'-' ∷ es) (unpadded f (pad_char f) _ _)
      ∙ ap (λ n. put b'-' ∷ puts (uint_to_base n 10)) (magnitude e))
  | inr e ↦ rw e (unpadded f (pad_char f) _ _)
]
  where
    magnitude : leb (2 ^ 31) v ≡ true → negated v ≡ 2 ^ 32 - v
    magnitude e = ground arith

print_decimal :
    (v fuel : ℕ)
    → v < 2 ^ 32
    → v ≢ 2 ^ 31
    → vfprintf (suc (suc fuel)) (b'%' ∷ b'd' ∷ []) (num v ∷ []) ≡ some (puts (decimal v))
unfolding vfprintf parse_width print_number
print_decimal v fuel h d =
    ap (λ es. some es) (append-nil _ ∙ ap (print_int _ 0) low ∙ printed_int _ v h d)
  where
    low : v % 2 ^ 32 ≡ v
    low = omega arith

-- `sscanf` with `%d` reads back what `printf` with `%d` prints, for every `int` but -2^31.
pub vsscanf-vfprintf :
    (v fuel : ℕ)
    → v < 2 ^ 32
    → v ≢ 2 ^ 31
    → (vfprintf (suc (suc fuel)) (b'%' ∷ b'd' ∷ []) (num v ∷ []) ≡ some (puts (decimal v)))
      × (vsscanf (b'%' ∷ b'd' ∷ []) (decimal v) ≡ some (int v ∷ [], 1))
vsscanf-vfprintf v fuel h d = (
  print_decimal v fuel h d,
  one_int (decimal v) ∙ ap (λ r. then_store r.0 (some ([], 0))) (scan_decimal v h d),
)
