-- ===== src/Scheduler/Block/Keeps.antt =====
-- Which entries of the table `schedule` and `unblockProcess` of Kernel/process/scheduler.c leave alone.
use tp2_sistemas_operativos.Prelude.{
  ℕ, ◌≡◌, inl, inr, sym, ap, ◌∙◌, none, some, true, false, Bool-cases, Option-cases, update_ne, ltb,
  ◌||◌,
}
use tp2_sistemas_operativos.Memory.Interface.{Allocator}
use tp2_sistemas_operativos.State.{ready, Kernel, state_of, is_blocked, put_state}
use tp2_sistemas_operativos.Scheduler.Ready.{schedule, put_ready, get_process}
use tp2_sistemas_operativos.Scheduler.Block.{unblock_process}

module _ (A : Allocator) where
  open A use {Heap}

  pub schedule_keeps :
      (i j : ℕ) (k : Kernel Heap) → (schedule A (some i) k).processes j ≡ k.processes j
  unfolding schedule put_ready
  schedule_keeps i j k =
      elim (Bool-cases (ltb (k.processes i).priority 1 || ltb 5 (k.processes i).priority)) [
        | inl e ↦ rw e
        | inr e ↦ rw e
      ]

  pub unblock_none :
      (pid : ℕ) (k : Kernel Heap) → get_process pid k ≡ none → (unblock_process A pid k).1 ≡ k
  unfolding unblock_process
  unblock_none pid k e = rw (e, unblock_process)

  pub unblock_other :
      (pid i : ℕ) (k : Kernel Heap)
      → get_process pid k ≡ some i
      → is_blocked (state_of k i) ≡ false
      → (unblock_process A pid k).1 ≡ k
  unfolding unblock_process
  unblock_other pid i k e b = rw (e, unblock_process) (rw b)

  pub unblock_blocked :
      (pid i : ℕ) (k : Kernel Heap)
      → get_process pid k ≡ some i
      → is_blocked (state_of k i) ≡ true
      → (unblock_process A pid k).1 ≡ schedule A (some i) (put_state i ready k)
  unfolding unblock_process
  unblock_blocked pid i k e b = rw (e, unblock_process) (rw b)

  -- `unblockProcess` changes no entry of a process that is not BLOCKED.
  pub unblock_keeps :
      (pid j : ℕ) (k : Kernel Heap)
      → is_blocked (state_of k j) ≡ false
      → (unblock_process A pid k).1.processes j ≡ k.processes j
  unblock_keeps pid j k b = elim (Option-cases (get_process pid k)) [
    | inl e ↦ ap (λ s. s.processes j) (unblock_none pid k e)
    | inr (i, e) ↦ elim (Bool-cases (is_blocked (state_of k i))) [
      | inr f ↦ ap (λ s. s.processes j) (unblock_other pid i k e f)
      | inl f ↦
          ap (λ s. s.processes j) (unblock_blocked pid i k e f)
          ∙ schedule_keeps i j (put_state i ready k)
          ∙ update_ne k.processes _
              (λ q. absurd (differ (sym f ∙ ap (λ n. is_blocked (state_of k n)) q ∙ b)))
    ]
  ]
    where
      differ : true ≡ false → ⊥
      differ q = cc q
