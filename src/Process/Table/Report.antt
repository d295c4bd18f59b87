-- ===== src/Process/Table/Report.antt =====
-- `getProcessesCount` and `getProcessesInformation` of Kernel/process/process.c.
use tp2_sistemas_operativos.Prelude.{
  ℕ, zero, suc, ◌+◌, ◌*◌, ◌<◌, ◌≡◌, ◌≢◌, refl, sym, ap, ◌∙◌, arith, List, [], ◌∷◌, ◌++◌, map,
  append_assoc, Option, none, some, true, false, Bool-cases, length, ltb, ==_ne, if◌then◌else◌,
  length-append, inl, inr,
}
use tp2_sistemas_operativos.Memory.Interface.{Allocator}
use tp2_sistemas_operativos.State.{Process, Kernel, state_of, is_exited}
use tp2_sistemas_operativos.Process.Table.{
  count_from, get_processes_count, Entry, markers, write_entry, copy_from,
  get_processes_information, filled,
}

-- The marker at the end of `done` is written over.
write_entry-append :
    (done : List Entry) (p : Process) (es : List Entry)
    → write_entry (length done) p (done ++ (none ∷ es)) ≡ (done ++ (some p ∷ [])) ++ es
unfolding write_entry
write_entry-append [] p es = refl
write_entry-append (e ∷ done) p es = ap (λ r. e ∷ r) (write_entry-append done p es)

abbrev pub listed : List Process → List Entry
listed = map (λ p. some p)

module _ {Heap : Type 0} where
  -- The entries in use among the `n` from `i` on, in their order.
  unfoldable pub active_from : ℕ → ℕ → Kernel Heap → List Process
  active_from zero i k = []
  active_from (suc n) i k =
      let rest = active_from n (i + 1) k in
      if is_exited (state_of k i) then rest else k.processes i ∷ rest

  active_exited :
      (n i : ℕ) (k : Kernel Heap)
      → is_exited (state_of k i) ≡ true
      → active_from (suc n) i k ≡ active_from n (i + 1) k
  unfolding active_from
  active_exited n i k e = rw e

  active_used :
      (n i : ℕ) (k : Kernel Heap)
      → is_exited (state_of k i) ≡ false
      → active_from (suc n) i k ≡ k.processes i ∷ active_from n (i + 1) k
  unfolding active_from
  active_used n i k e = rw e

  active_none : (i : ℕ) (k : Kernel Heap) → active_from 0 i k ≡ []
  unfolding active_from
  active_none i k = refl

  count_from_lem :
      (n i count : ℕ) (k : Kernel Heap)
      → count_from n i count k ≡ count + length (active_from n i k)
  unfolding count_from active_from
  count_from_lem zero i count k = omega arith
  count_from_lem (suc n) i count k = elim (Bool-cases (is_exited (state_of k i))) [
    | inl e ↦ rw e (omega (arith, count_from_lem n (i + 1) count k))
    | inr e ↦ rw e (omega (arith, count_from_lem n (i + 1) (count + 1) k))
  ]

  copy_full :
      (n i index count : ℕ) (k : Kernel Heap) (ans : List Entry)
      → ltb index count ≡ false
      → copy_from n i index count k ans ≡ ans
  unfolding copy_from
  copy_full zero i index count k ans e = refl
  copy_full (suc n) i index count k ans e = rw e

  step_exited :
      (n i index count : ℕ) (k : Kernel Heap) (ans : List Entry)
      → is_exited (state_of k i) ≡ true
      → copy_from (suc n) i index count k ans ≡ copy_from n (i + 1) index count k ans
  unfolding copy_from
  step_exited n i index count k ans e = elim (Bool-cases (ltb index count)) [
    | inl h ↦ rw (e, h)
    | inr h ↦ rw h (sym (copy_full n (i + 1) index count k ans h))
  ]

  step_active :
      (n i index count : ℕ) (k : Kernel Heap) (ans : List Entry)
      → is_exited (state_of k i) ≡ false
      → index < count
      → copy_from (suc n) i index count k ans
        ≡ copy_from n (i + 1) (index + 1) count k (write_entry index (k.processes i) ans)
  unfolding copy_from
  step_active n i index count k ans e h = ground arith

  copied_one :
      (n i count m : ℕ) (k : Kernel Heap) (done : List Entry)
      → is_exited (state_of k i) ≡ false
      → length done < count
      → copy_from (suc n) i (length done) count k (done ++ markers (suc (suc m)))
        ≡ copy_from n
            (i + 1)
            (length (done ++ (some (k.processes i) ∷ [])))
            count
            k
            ((done ++ (some (k.processes i) ∷ [])) ++ markers (suc m))
  unfolding markers
  copied_one n i count m k done x h =
      step_active n i (length done) count k (done ++ markers (suc (suc m))) x h
      ∙ ap (copy_from n (i + 1) (length done + 1) count k)
          (write_entry-append done (k.processes i) (markers (suc m)))
      ∙ ap
          (λ l.
            copy_from n (i + 1) l count k
              ((done ++ (some (k.processes i) ∷ [])) ++ markers (suc m)))
          (sym (length-append done (some (k.processes i) ∷ [])))

  copy_none :
      (i count : ℕ) (k : Kernel Heap) (done : List Entry)
      → copy_from 0 i (length done) count k (done ++ markers 1) ≡ done ++ (none ∷ [])
  unfolding copy_from markers
  copy_none i count k done = refl

  -- The array while the loop is at entry `i` and has copied `done`.
  copy_from_lem :
      (n i count : ℕ) (k : Kernel Heap) (done : List Entry)
      → count ≡ length done + length (active_from n i k)
      → copy_from n i (length done) count k (done ++ markers (suc (length (active_from n i k))))
        ≡ done ++ (listed (active_from n i k) ++ (none ∷ []))
  copy_from_lem zero i count k done e = rw (active_none i k) (copy_none i count k done)
  copy_from_lem (suc n) i count k done e = elim (Bool-cases (is_exited (state_of k i))) [
    | inl x ↦ rw (active_exited n i k x) (
        step_exited n i (length done) count k _ x
        ∙ copy_from_lem n (i + 1) count k done (omega (arith, ap length (active_exited n i k x))))
    | inr x ↦ rw (active_used n i k x) (
        copied_one n i count (length (active_from n (i + 1) k)) k done x
          (omega (arith, ap length (active_used n i k x)))
        ∙ copy_from_lem n (i + 1) count k (done ++ (some (k.processes i) ∷ [])) (
            omega (
              arith,
              ap length (active_used n i k x),
              length-append done (some (k.processes i) ∷ []),
            ))
        ∙ append_assoc done (some (k.processes i) ∷ []) _)
  ]

  unfoldable pub active : Kernel Heap → List Process
  active k = active_from 100 0 k

  -- `getProcessesCount` is the number of the entries in use.
  pub get_processes_count_lem : (k : Kernel Heap) → get_processes_count k ≡ length (active k)
  unfolding get_processes_count active
  get_processes_count_lem k = omega (arith, count_from_lem 100 0 0 k)

  copied :
      (k : Kernel Heap)
      → copy_from 100 0 0 (get_processes_count k) k (markers (get_processes_count k + 1))
        ≡ listed (active k) ++ (none ∷ [])
  unfolding active
  copied k =
      ap (λ n. copy_from 100 0 0 (get_processes_count k) k (markers n)) same
      ∙ copy_from_lem 100 0 (get_processes_count k) k [] (omega (arith, get_processes_count_lem k))
    where
      same : get_processes_count k + 1 ≡ suc (length (active k))
      same = omega (arith, get_processes_count_lem k)

module _ (A : Allocator) where
  open A use {Heap, alloc}

  filled_room :
      (count : ℕ) (k : Kernel Heap) (r : ℕ × Heap)
      → r.0 ≢ 0
      → filled A count k r ≡ (some (r.0, copy_from 100 0 0 count k (markers (count + 1))), r.1)
  unfolding filled
  filled_room count k (p, h) e = rw (==_ne p 0 e)

  asked :
      (k : Kernel Heap)
      → get_processes_information A k
        ≡ filled A (get_processes_count k) k (alloc ((get_processes_count k + 1) * 128) k.heap)
  unfolding get_processes_information
  asked k = refl

  -- Where the heap has room, `getProcessesInformation` returns a copy of every process in use, in the
  -- order of the table and each once, with the marker behind the last one; it asks the heap for 128
  -- bytes for each of them and the marker.
  pub get_processes_information_lem :
      (k : Kernel Heap)
      → (alloc ((length (active k) + 1) * 128) k.heap).0 ≢ 0
      → get_processes_information A k ≡ (
        some ((alloc ((length (active k) + 1) * 128) k.heap).0, listed (active k) ++ (none ∷ [])),
        (alloc ((length (active k) + 1) * 128) k.heap).1,
      )
  get_processes_information_lem k room =
      asked k
      ∙ ap (λ c. filled A (get_processes_count k) k (alloc ((c + 1) * 128) k.heap))
          (get_processes_count_lem k)
      ∙ filled_room (get_processes_count k) k _ room
      ∙ ap {B = Option (ℕ × List Entry) × Heap}
          (λ es. (
            some ((alloc ((length (active k) + 1) * 128) k.heap).0, es),
            (alloc ((length (active k) + 1) * 128) k.heap).1,
          ))
          (copied k)
