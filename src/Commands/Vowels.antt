-- ===== src/Commands/Vowels.antt =====
-- Userland/Shell/commands.c: what cat and filter write.
use tp2_sistemas_operativos.Prelude.{
  ℕ, zero, suc, ◌<◌, ◌≡◌, refl, sym, ap, ◌∙◌, arith, List, [], ◌∷◌, ◌++◌, append_assoc, append-nil,
  some, Bool, Bool-cases, inl, inr, true, false, ◌==◌, ==_iff, if◌then◌else◌, length,
}
use tp2_sistemas_operativos.Calls.{
  Prog, ret, call, ◌>>=◌, close_fd, write, Request, Answer, sys_get_fd, sys_read_byte, sys_write,
  sys_close,
}
use tp2_sistemas_operativos.Commands.{
  is_vowel, finish, filter_loop, filter_wrapper, cat_loop, cat_wrapper,
}
use tp2_sistemas_operativos.Commands.Run.{Outcome, run, head?, tail_of}

-- The text without its vowels.
abbrev pub consonants : List ℕ → List ℕ
consonants [] = []
consonants (c ∷ s) = let rest = c ∷ consonants s in if is_vowel c then consonants s else rest

module _ (env : (r : Request) → Answer r) (fds : ℕ × ℕ) where
  abbrev ended : List ℕ → List ℕ → Outcome Bool
  ended output closed = record { result = true; input = []; output = output; closed = closed }

  pub run-bind :
      {A B : Type 0} (input output closed : List ℕ) (p : Prog A) (f : A → Prog B)
      → run env fds input output closed (p >>= f) ≡ (
          let o = run env fds input output closed p in
          run env fds o.input o.output o.closed (f o.result))
  unfolding run
  run-bind input output closed (ret a) f = refl
  run-bind input output closed (call sys_get_fd k) f = run-bind input output closed (k (some fds)) f
  run-bind input output closed (call (sys_read_byte fd) k) f = elim (Bool-cases (fd == fds.0)) [
    | inl e ↦ rw e (run-bind (tail_of input) output closed (k (head? input)) f)
    | inr e ↦ rw e (run-bind input output closed (k (env (sys_read_byte fd))) f)
  ]
  run-bind input output closed (call (sys_write fd bytes) k) f =
      run-bind input (if fd == fds.1 then output ++ bytes else output) closed (k (length bytes)) f
  run-bind input output closed (call (sys_close fd) k) f =
      run-bind input output (closed ++ fd ∷ []) (k (env (sys_close fd))) f
  run-bind input output closed (call r k) f = run-bind input output closed (k (env r)) f

  -- A byte that is read, from what the rounds behind it do with any output.
  filter_byte-run :
      (fuel c : ℕ) (s output closed : List ℕ) (b : Bool)
      → ((o : List ℕ)
          → run env fds s o closed (filter_loop fuel fds) ≡ ended (o ++ consonants s) closed)
      → run env fds s output closed
          ((if b then ret 0 else write fds.1 (c ∷ [])) >>= λ _. filter_loop fuel fds)
        ≡ ended (output ++ (if b then consonants s else c ∷ consonants s)) closed
  unfolding run
  filter_byte-run fuel c s output closed true ih = ih output
  filter_byte-run fuel c s output closed false ih =
      ap (λ b. run env fds s (if b then output ++ c ∷ [] else output) closed (filter_loop fuel fds))
        ((==_iff fds.1 fds.1).1 refl)
      ∙ ih (output ++ c ∷ [])
      ∙ ap (λ o. ended o closed) (append_assoc output (c ∷ []) (consonants s))

  filter_loop-run :
      (fuel : ℕ) (input output closed : List ℕ)
      → length input < fuel
      → run env fds input output closed (filter_loop fuel fds)
        ≡ ended (output ++ consonants input) closed
  unfolding filter_loop run
  filter_loop-run zero input output closed lt = absurd (omega arith)
  filter_loop-run (suc fuel) [] output closed lt =
      rw ((==_iff fds.0 fds.0).1 refl) (ap (λ o. ended o closed) (sym (append-nil output)))
  filter_loop-run (suc fuel) (c ∷ s) output closed lt = rw ((==_iff fds.0 fds.0).1 refl) (
      filter_byte-run fuel c s output closed (is_vowel c)
        (λ o. filter_loop-run fuel s o closed (omega arith)))

  cat_loop-run :
      (fuel : ℕ) (input output closed : List ℕ)
      → length input < fuel
      → run env fds input output closed (cat_loop fuel fds) ≡ ended (output ++ input) closed
  unfolding cat_loop run
  cat_loop-run zero input output closed lt = absurd (omega arith)
  cat_loop-run (suc fuel) [] output closed lt =
      rw ((==_iff fds.0 fds.0).1 refl) (ap (λ o. ended o closed) (sym (append-nil output)))
  cat_loop-run (suc fuel) (c ∷ s) output closed lt =
      rw ((==_iff fds.0 fds.0).1 refl, (==_iff fds.1 fds.1).1 refl)
        (cat_loop-run fuel s (output ++ c ∷ []) closed (omega arith)
          ∙ ap (λ o. ended o closed) (append_assoc output (c ∷ []) s))

  filter_wrapper-run :
      (fuel : ℕ) (stale : ℕ × ℕ) (input : List ℕ)
      → length input < fuel
      → run env fds input [] [] (filter_wrapper fuel stale) ≡ record {
        result = some 0;
        input = [];
        output = consonants input;
        closed = fds.0 ∷ fds.1 ∷ [];
      }
  unfolding filter_wrapper run
  filter_wrapper-run fuel stale input lt =
      run-bind input [] [] (filter_loop fuel fds) _
      ∙ ap
          (λ o.
            run env fds o.input o.output o.closed
              (finish o.result (close_fd fds.0 >>= λ _. close_fd fds.1 >>= λ _. ret (some 0))))
          (filter_loop-run fuel input [] [] lt)

  cat_wrapper-run :
      (fuel : ℕ) (stale : ℕ × ℕ) (input : List ℕ)
      → length input < fuel
      → run env fds input [] [] (cat_wrapper fuel stale)
        ≡ record { result = some 0; input = []; output = input; closed = fds.1 ∷ [] }
  unfolding cat_wrapper run
  cat_wrapper-run fuel stale input lt =
      run-bind input [] [] (cat_loop fuel fds) _
      ∙ ap
          (λ o.
            run env fds o.input o.output o.closed
              (finish o.result (close_fd fds.1 >>= λ _. ret (some 0))))
          (cat_loop-run fuel input [] [] lt)

-- In the pipe `cat | filter`, where the right program reads what the left one writes, both end with
-- status 0 as fuel beyond the length of the input is enough for each, every byte is read, the output
-- is the input without its vowels, and of their descriptors the left program closes its output only
-- and the right one both.
pub cat_filter :
    (env : (r : Request) → Answer r) (left right stale : ℕ × ℕ) (fuel : ℕ) (input : List ℕ)
    → length input < fuel
    → let first = run env left input [] [] (cat_wrapper fuel stale) in
      let second = run env right first.output [] [] (filter_wrapper fuel stale) in
      (first ≡ record { result = some 0; input = []; output = input; closed = left.1 ∷ [] })
      × (second ≡ record {
        result = some 0;
        input = [];
        output = consonants input;
        closed = right.0 ∷ right.1 ∷ [];
      })
cat_filter env left right stale fuel input lt =
    let first = cat_wrapper-run env left fuel stale input lt in
    (
      first,
      ap (λ o. run env right o.output [] [] (filter_wrapper fuel stale)) first
          ∙ filter_wrapper-run env right fuel stale input lt,
    )
