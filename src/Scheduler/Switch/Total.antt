-- ===== src/Scheduler/Switch/Total.antt =====
-- `switchContext` of Kernel/process/scheduler.c always returns, and what it leaves running.
use tp2_sistemas_operativos.Prelude.{
  ℕ, zero, suc, ◌-◌, ◌<◌, ◌≡◌, ◌⊎◌, inl, inr, refl, sym, ap, ◌∙◌, arith, List, ◌∷◌, Option, none,
  some, true, false, not, ◌&&◌, update_self, Bool-cases, ltb, subst,
}
use tp2_sistemas_operativos.Memory.Interface.{Allocator}
use tp2_sistemas_operativos.Queue.{Node, is_empty}
use tp2_sistemas_operativos.State.{
  Kernel, put_queue, ProcessState, ready, running, blocked, exited, state_of,
}
use tp2_sistemas_operativos.Scheduler.Ready.{unschedule, schedule}
use tp2_sistemas_operativos.Scheduler.Ready.Choice.{unschedule_lem}
use tp2_sistemas_operativos.Scheduler.Aging.{apply_aging}
use tp2_sistemas_operativos.Scheduler.Switch.{
  waiting, pick, is_stopped, resume, start, clear_yield, choose_next, default_quantum, switch_from,
  switch_context, switch_for, first_switch, suspend,
}

module _ (A : Allocator) where
  open A use {Heap, free}

  -- Taking an entry out of one of the five queues leaves one entry less.
  waiting-taken :
      (i h a x h2 : ℕ) (ns : List Node) (k : Kernel Heap) (heap : Heap)
      → i < 5
      → k.queues i ≡ some (h, (a, x) ∷ ns)
      → waiting k ≡ suc (waiting (put_queue i (some (h2, ns)) heap k))
  waiting-taken zero h a x h2 ns k heap lt e = rw e (omega arith)
  waiting-taken (suc zero) h a x h2 ns k heap lt e = rw e (omega arith)
  waiting-taken (suc (suc zero)) h a x h2 ns k heap lt e = rw e (omega arith)
  waiting-taken (suc (suc (suc zero))) h a x h2 ns k heap lt e = rw e (omega arith)
  waiting-taken (suc (suc (suc (suc zero)))) h a x h2 ns k heap lt e = rw e (omega arith)
  waiting-taken (suc (suc (suc (suc (suc i))))) h a x h2 ns k heap lt e = absurd (omega arith)

  -- Entries of stopped processes are dropped one after the other.
  pub data Drops (k : Kernel Heap) : Kernel Heap → Type 0 where
    here : Drops k k
    drop :
        {k1 k2 : Kernel Heap} (pcb : ℕ)
        → Drops k k1
        → unschedule A k1 ≡ (some pcb, k2)
        → is_stopped (state_of k2 pcb) ≡ true
        → Drops k k2

  -- The choice from `k`: the first entry, after the dropped ones, of a process that is not stopped.
  pub record Picked (k : Kernel Heap) (next : Option ℕ) (k' : Kernel Heap) : Type 0 where
    pub before : Kernel Heap
    pub drops : Drops k before
    pub taken : unschedule A before ≡ (next, k')
    pub runnable : (pcb : ℕ) → next ≡ some pcb → is_stopped (state_of k' pcb) ≡ false

  pick-none :
      (fuel : ℕ) (k k' : Kernel Heap)
      → unschedule A k ≡ (none, k')
      → pick A (suc fuel) k ≡ some (none, k')
  unfolding pick
  pick-none fuel k k' e = rw (e, pick)

  pick_stopped :
      (fuel pcb : ℕ) (k k' : Kernel Heap)
      → unschedule A k ≡ (some pcb, k')
      → is_stopped (state_of k' pcb) ≡ true
      → pick A (suc fuel) k ≡ pick A fuel k'
  unfolding pick
  pick_stopped fuel pcb k k' e s = rw (e, pick) (rw s)

  pick_runs :
      (fuel pcb : ℕ) (k k' : Kernel Heap)
      → unschedule A k ≡ (some pcb, k')
      → is_stopped (state_of k' pcb) ≡ false
      → pick A (suc fuel) k ≡ some (some pcb, k')
  unfolding pick
  pick_runs fuel pcb k k' e s = rw (e, pick) (rw s)

  same : (a b : ℕ) → some a ≡ some b → a ≡ b
  same a b e = ground arith

  pick_from :
      (fuel : ℕ) (k0 k : Kernel Heap)
      → Drops k0 k
      → waiting k < fuel
      → (next : Option ℕ) × (k' : Kernel Heap) × (pick A fuel k ≡ some (next, k'))
        × Picked k0 next k'
  pick_from zero k0 k d h = absurd (omega arith)
  pick_from (suc fuel) k0 k d h = elim (unschedule_lem A k) [
    | inl idle ↦ (
      none,
      k,
      pick-none fuel k k idle.answer,
      record { before = k; drops = d; taken = idle.answer; runnable = λ pcb e. cc e },
    )
    | inr c ↦
        let k' = put_queue c.index (some (c.header, c.rest)) (free c.cell k.heap) k in
        elim (Bool-cases (is_stopped (state_of k' c.pcb))) [
          | inl stopped ↦
              let (next, k2, e, p) = pick_from fuel k0 k' (drop c.pcb d c.answer stopped) (
                omega (
                  arith,
                  waiting-taken c.index c.header c.cell c.pcb c.header c.rest k (free c.cell k.heap)
                      c.below c.held,
                )) in
              (next, k2, pick_stopped fuel c.pcb k k' c.answer stopped ∙ e, p)
          | inr runs ↦ (
            some c.pcb,
            k',
            pick_runs fuel c.pcb k k' c.answer runs,
            record {
              before = k;
              drops = d;
              taken = c.answer;
              runnable = λ pcb e. rw (← same c.pcb pcb e) runs;
            },
          )
        ]
  ]

  pick_total :
      (k : Kernel Heap)
      → (next : Option ℕ) × (k' : Kernel Heap) × (pick A (suc (waiting k)) k ≡ some (next, k'))
        × Picked k next k'
  pick_total k = pick_from (suc (waiting k)) k k here (omega arith)

  -- A process has the processor: it is RUNNING with a full quantum and a cleared aging counter, and
  -- execution goes on at its stack pointer.
  pub record NowRunning (k : Kernel Heap) (out : ℕ × Kernel Heap) : Type 0 where
    pub pcb : ℕ
    pub current : out.1.current_process ≡ some pcb
    pub state : state_of out.1 pcb ≡ running
    pub aging : (out.1.processes pcb).aging_counter ≡ 0
    pub quantum : out.1.quantums_left ≡ default_quantum
    pub stack : out.0 ≡ (out.1.processes pcb).stack_end
    pub yielded : (k.current_process ≡ none → ⊥) → out.1.is_yield ≡ false

  -- No process is ready: every queue is empty, no process is current, and execution goes on where it was.
  pub record NoneReady (rsp : ℕ) (out : ℕ × Kernel Heap) : Type 0 where
    pub current : out.1.current_process ≡ none
    pub stack : out.0 ≡ rsp
    pub empty : (j : ℕ) → j < 5 → is_empty (out.1.queues j) ≡ true

  -- The running process keeps the processor for one more tick of its quantum.
  pub record Kept (rsp : ℕ) (k : Kernel Heap) (out : ℕ × Kernel Heap) : Type 0 where
    pub pcb : ℕ
    pub current : k.current_process ≡ some pcb
    pub state : state_of k pcb ≡ running
    pub left : 0 < k.quantums_left
    pub not_yielded : k.is_yield ≡ false
    pub answer : out ≡ (rsp, record k { quantums_left = k.quantums_left - 1 })

  started :
      (k : Kernel Heap) (pcb : ℕ) (k' : Kernel Heap)
      → ((k.current_process ≡ none → ⊥) → k'.is_yield ≡ false)
      → NowRunning k ((k'.processes pcb).stack_end, start pcb k')
  unfolding start
  started k pcb k' y = record {
    pcb = pcb;
    current = refl;
    state = ap (λ p. p.state) (update_self k'.processes _ pcb);
    aging = ap (λ p. p.aging_counter) (update_self k'.processes _ pcb);
    quantum = refl;
    stack = sym (ap (λ p. p.stack_end) (update_self k'.processes _ pcb));
    yielded = y;
  }

  none_taken :
      (k k' : Kernel Heap)
      → unschedule A k ≡ (none, k')
      → (j : ℕ) → j < 5
      → is_empty (k'.queues j) ≡ true
  none_taken k k' e j h = elim (unschedule_lem A k) [
    | inl idle ↦
        subst (λ s. is_empty (s.queues j) ≡ true) (ap (λ o. o.1) (sym idle.answer ∙ e))
          (idle.empty j h)
    | inr c ↦ absurd (mismatch c.pcb (ap (λ o. o.0) (sym c.answer ∙ e)))
  ]
    where
      mismatch : (a : ℕ) → ◌≡◌ {A = Option ℕ} (some a) none → ⊥
      mismatch a q = cc q

  -- What `choose_next` returns.
  chosen :
      (rsp : ℕ) (k0 k : Kernel Heap)
      → (out : ℕ × Kernel Heap) × (choose_next A rsp k ≡ some out)
        × (NowRunning k0 out ⊎ NoneReady rsp out)
  unfolding choose_next resume clear_yield
  chosen rsp k0 k = go (pick_total (apply_aging A k))
    where
      go :
          (next : Option ℕ) × (k' : Kernel Heap) × (pick A
                (suc (waiting (apply_aging A k)))
                (apply_aging A k)
              ≡ some (next, k'))
            × Picked (apply_aging A k) next k'
          → (out : ℕ × Kernel Heap) × (choose_next A rsp k ≡ some out)
            × (NowRunning k0 out ⊎ NoneReady rsp out)
      go (none, k', e, p) = (
        (rsp, record k' { current_process = none }),
        ap (resume A rsp) e,
        inr (record { current = refl; stack = refl; empty = none_taken p.before k' p.taken }),
      )
      go (some pcb, k', e, p) = (
        ((k'.processes pcb).stack_end, start pcb (clear_yield k')),
        ap (resume A rsp) e,
        inl (started k0 pcb (clear_yield k') (λ h. refl)),
      )

  -- What one call of `switchContext` does, with its answer.
  pub Switched : ℕ → Kernel Heap → Option (ℕ × Kernel Heap) → Type 0
  Switched rsp k r =
      (out : ℕ × Kernel Heap) × (r ≡ some out)
      × (Kept rsp k out ⊎ (NowRunning k out ⊎ NoneReady rsp out))

  Switched-chosen : (rsp : ℕ) (k0 k : Kernel Heap) → Switched rsp k0 (choose_next A rsp k)
  unfolding Switched
  Switched-chosen rsp k0 k = let (out, e, r) = chosen rsp k0 k in (out, e, inr r)

  Switched-first :
      (rsp : ℕ) (k : Kernel Heap) (r : Option ℕ × Kernel Heap)
      → k.current_process ≡ none
      → unschedule A k ≡ r
      → Switched rsp k (some (first_switch A rsp r))
  unfolding Switched first_switch
  Switched-first rsp k (none, k') c e = (
    (rsp, record k' { current_process = none }),
    refl,
    inr (inr (record { current = refl; stack = refl; empty = none_taken k k' e })),
  )
  Switched-first rsp k (some pcb, k') c e = (
    ((k'.processes pcb).stack_end, start pcb k'),
    refl,
    inr (inl (started k pcb k' (λ n. absurd (n c)))),
  )

  Switched-from :
      (s : ProcessState) (rsp pcb : ℕ) (k : Kernel Heap)
      → k.current_process ≡ some pcb
      → state_of k pcb ≡ s
      → Switched rsp k (switch_from A s rsp pcb k)
  unfolding switch_from Switched
  Switched-from running rsp pcb k c e =
      elim (Bool-cases (ltb 0 k.quantums_left && not k.is_yield)) [
        | inl keep ↦ rw keep (
          (rsp, record k { quantums_left = k.quantums_left - 1 }),
          refl,
          inl (record {
            pcb = pcb;
            current = c;
            state = e;
            left = ground (arith, keep);
            not_yielded = ground (arith, keep);
            answer = refl;
          }),
        )
        | inr stop ↦ rw stop (Switched-chosen rsp k (schedule A (some pcb) (suspend rsp pcb k)))
      ]
  Switched-from ready rsp pcb k c e = Switched-chosen rsp k k
  Switched-from blocked rsp pcb k c e = Switched-chosen rsp k _
  Switched-from exited rsp pcb k c e = Switched-chosen rsp k _

  Switched-for :
      (current : Option ℕ) (rsp : ℕ) (k : Kernel Heap)
      → k.current_process ≡ current
      → Switched rsp k (switch_for A current rsp k)
  unfolding switch_for
  Switched-for none rsp k e = Switched-first rsp k _ e refl
  Switched-for (some pcb) rsp k e = Switched-from _ rsp pcb k e refl

  -- `switchContext` always returns: the running process keeps the processor, which needs a quantum
  -- that is left and no yield; or another takes it, with a full quantum, a cleared aging counter and,
  -- unless this is the first switch, the yield request cleared; or none is ready, with every queue
  -- empty and no current process.
  pub switch_context_lem : (rsp : ℕ) (k : Kernel Heap) → Switched rsp k (switch_context A rsp k)
  unfolding switch_context
  switch_context_lem rsp k = Switched-for k.current_process rsp k refl

  pub switch_context-some :
      (rsp : ℕ) (k : Kernel Heap) → (out : ℕ × Kernel Heap) × (switch_context A rsp k ≡ some out)
  unfolding Switched
  switch_context-some rsp k = let (out, e, rest) = switch_context_lem rsp k in (out, e)
