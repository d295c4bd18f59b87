-- ===== src/Process/Table/Free.antt =====
-- `getFreeProcess` of Kernel/process/process.c.
use tp2_sistemas_operativos.Prelude.{
  ℕ, zero, suc, ◌+◌, ◌≤◌, ◌<◌, ◌≡◌, ◌⊎◌, inl, inr, refl, subst, ◌∙◌, arith, Option, none, some,
  true, false, Bool-cases,
}
use tp2_sistemas_operativos.State.{Kernel, state_of, is_exited}
use tp2_sistemas_operativos.Process.Table.{free_from, get_free_process}

first_or_later : (i j : ℕ) → i ≤ j → (i ≡ j) ⊎ (i + 1 ≤ j)
first_or_later i j h = grind arith

extended : (P : ℕ → Type 0) (i : ℕ) (j : ℕ) → P i → (i + 1 ≤ j → P j) → i ≤ j → P j
extended P i j now after h = elim (first_or_later i j h) [ inl e ↦ subst P e now | inr l ↦ after l ]

module _ {Heap : Type 0} where
  -- The least EXITED entry from `i` up to `end`.
  pub record LeastFree (i end : ℕ) (k : Kernel Heap) (out : Option ℕ) : Type 0 where
    pub slot : ℕ
    pub answer : out ≡ some slot
    pub low : i ≤ slot
    pub high : slot < end
    pub free : is_exited (state_of k slot) ≡ true
    pub least : (j : ℕ) → i ≤ j → j < slot → is_exited (state_of k j) ≡ false

  -- Every entry from `i` up to `end` is in use.
  pub record NoneFree (i end : ℕ) (k : Kernel Heap) (out : Option ℕ) : Type 0 where
    pub answer : out ≡ none
    pub used : (j : ℕ) → i ≤ j → j < end → is_exited (state_of k j) ≡ false

  here :
      (n i : ℕ) (k : Kernel Heap) → is_exited (state_of k i) ≡ true → free_from (suc n) i k ≡ some i
  unfolding free_from
  here n i k e = rw e

  later :
      (n i : ℕ) (k : Kernel Heap)
      → is_exited (state_of k i) ≡ false
      → free_from (suc n) i k ≡ free_from n (i + 1) k
  unfolding free_from
  later n i k e = rw e

  free_from_lem :
      (n i : ℕ) (k : Kernel Heap)
      → LeastFree i (i + n) k (free_from n i k) ⊎ NoneFree i (i + n) k (free_from n i k)
  unfolding free_from
  free_from_lem zero i k = inr (record { answer = refl; used = λ j l h. absurd (omega arith) })
  free_from_lem (suc n) i k = elim (Bool-cases (is_exited (state_of k i))) [
    | inl e ↦ inl (record {
      slot = i;
      answer = here n i k e;
      low = omega arith;
      high = omega arith;
      free = e;
      least = λ j l h. absurd (omega arith);
    })
    | inr e ↦ elim (free_from_lem n (i + 1) k) [
      | inl f ↦ inl (record {
        slot = f.slot;
        answer = later n i k e ∙ f.answer;
        low = omega (arith, f.low);
        high = omega (arith, f.high);
        free = f.free;
        least =
            λ j l h. extended (λ m. is_exited (state_of k m) ≡ false) i j e (λ m. f.least j m h) l;
      })
      | inr f ↦ inr (record {
        answer = later n i k e ∙ f.answer;
        used = λ j l h.
            extended (λ m. is_exited (state_of k m) ≡ false) i j e (λ m. f.used j m (omega arith))
              l;
      })
    ]
  ]

  -- `getFreeProcess` returns the least EXITED entry of the table, or -1 if all 100 are in use.
  pub get_free_process_lem :
      (k : Kernel Heap)
      → LeastFree 0 100 k (get_free_process k) ⊎ NoneFree 0 100 k (get_free_process k)
  unfolding get_free_process
  get_free_process_lem k = free_from_lem 100 0 k
