-- ===== src/Semaphore/Wake.antt =====
-- `semPost` and `semDestroy` of Kernel/semaphoreManager.c wake who waits.
use tp2_sistemas_operativos.Prelude.{
  ℕ, zero, suc, ◌+◌, ◌-◌, ◌%◌, ◌^◌, ◌≤◌, ◌<◌, ◌≡◌, inl, inr, refl, sym, ap, subst, ◌∙◌, arith, List,
  [], ◌∷◌, map, none, some, true, false, Bool-cases, update_self, length, All,
}
use tp2_sistemas_operativos.Memory.Interface.{Allocator}
use tp2_sistemas_operativos.Queue.{Node, Queue, nodes, elements}
use tp2_sistemas_operativos.State.{
  ProcessState, ready, running, blocked, exited, Kernel, state_of, is_exited, is_blocked, put_state,
}
use tp2_sistemas_operativos.Scheduler.Ready.{get_process}
use tp2_sistemas_operativos.Scheduler.Block.{unblock_process}
use tp2_sistemas_operativos.Scheduler.Block.Keeps.{unblock_keeps, unblock_blocked, schedule_keeps}
use tp2_sistemas_operativos.Semaphore.{
  SemKernel, wake, wake_up, wake_all, sem_post, with_nodes, put_sem,
}

-- A PID of the table whose process is not BLOCKED.
abbrev pub Awake : {Heap : Type 0} → Kernel Heap → ℕ → Type 0
Awake k pid = is_blocked (state_of k (pid - 1)) ≡ false

abbrev pub InTable : ℕ → Type 0
InTable pid = (1 ≤ pid) × (pid ≤ 100)

blocked_used : (s : ProcessState) → is_blocked s ≡ true → is_exited s ≡ false
blocked_used ready e = refl
blocked_used running e = refl
blocked_used blocked e = refl
blocked_used exited e = absurd (cc e)

emptied_queue : (q : Queue) (ns : List Node) → ns ≡ [] → elements (with_nodes q ns) ≡ []
emptied_queue none ns e = refl
emptied_queue (some (q, old)) ns e = ap (map (λ n. n.1)) e

module _ (A : Allocator) where
  open A use {Heap, free}

  found_blocked :
      (pid : ℕ) (k : Kernel Heap)
      → 1 ≤ pid
      → pid ≤ 100
      → is_blocked (state_of k (pid - 1)) ≡ true
      → get_process pid k ≡ some (pid - 1)
  unfolding get_process
  found_blocked pid k lo hi b = rw (blocked_used (state_of k (pid - 1)) b) (ground arith)

  -- The process of the PID is not BLOCKED after `unblockProcess`.
  unblock-Awake :
      (pid : ℕ) (k : Kernel Heap) → 1 ≤ pid → pid ≤ 100 → Awake (unblock_process A pid k).1 pid
  unblock-Awake pid k lo hi = elim (Bool-cases (is_blocked (state_of k (pid - 1)))) [
    | inr b ↦ ap (λ p. is_blocked p.state) (unblock_keeps A pid (pid - 1) k b) ∙ b
    | inl b ↦
        ap (λ s. is_blocked (state_of s (pid - 1)))
          (unblock_blocked A pid (pid - 1) k (found_blocked pid k lo hi b) b)
        ∙ ap (λ p. is_blocked p.state)
            (schedule_keeps A (pid - 1) (pid - 1) (put_state (pid - 1) ready k))
        ∙ ap (λ p. is_blocked p.state) (update_self k.processes _ (pid - 1))
  ]

  -- Who is not BLOCKED stays so.
  Awake-wake :
      (n : ℕ) (ns : List Node) (pid : ℕ) (k : Kernel Heap)
      → Awake k pid
      → Awake (wake A n ns k).1 pid
  unfolding wake
  Awake-wake zero ns pid k h = h
  Awake-wake (suc n) [] pid k h = h
  Awake-wake (suc n) ((a, p) ∷ ns) pid k h =
      Awake-wake n ns pid (unblock_process A p (record k { heap = free a k.heap })).1 (
        ap (λ q. is_blocked q.state)
          (unblock_keeps A p (pid - 1) (record k { heap = free a k.heap }) h)
        ∙ h)

  wake-Awake :
      (ns : List Node) (k : Kernel Heap)
      → All InTable (map (λ n. n.1) ns)
      → ((wake A (length ns) ns k).0 ≡ [])
        × All (Awake (wake A (length ns) ns k).1) (map (λ n. n.1) ns)
  unfolding wake
  wake-Awake [] k h = (refl, _)
  wake-Awake ((a, pid) ∷ ns) k h =
      let next = (unblock_process A pid (record k { heap = free a k.heap })).1 in
      let rest = wake-Awake ns next h.1 in
      (
        rest.0,
        (
          Awake-wake (length ns) ns pid next
              (unblock-Awake pid (record k { heap = free a k.heap }) h.0.0 h.0.1),
          rest.1,
        ),
      )

  Awake-after :
      (id : ℕ) (s : SemKernel Heap)
      → All InTable (elements (s.sems id).waiting)
      → (elements ((wake_all A id s).sems id).waiting ≡ [])
        × All (Awake (wake_all A id s).kernel) (elements (s.sems id).waiting)
  unfolding wake_all wake_up
  Awake-after id s h =
      let out = wake-Awake (nodes (s.sems id).waiting) s.kernel h in
      (
        ap (λ x. elements x.waiting) (update_self s.sems _ id)
            ∙ emptied_queue (s.sems id).waiting _ out.0,
        out.1,
      )

  -- The semaphore before anyone is woken.
  abbrev pub raised : ℕ → SemKernel Heap → SemKernel Heap
  raised id s = put_sem id (record (s.sems id) { value = ((s.sems id).value + 1) % 2 ^ 32 }) s

  pub posted :
      (id : ℕ) (s : SemKernel Heap)
      → id < 500
      → (s.sems id).used ≡ true
      → sem_post A id s ≡ (some 0, wake_all A id (raised id s))
  unfolding sem_post
  posted id s lo u = rw u (ground arith)

  pub wake_all-value :
      (id : ℕ) (s : SemKernel Heap) → ((wake_all A id s).sems id).value ≡ (s.sems id).value
  unfolding wake_all wake_up
  wake_all-value id s = ap (λ x. x.value) (update_self s.sems _ id)

  -- `semPost` of a semaphore in use raises its value by one and wakes everyone who waits for it: its
  -- waiting queue is empty then, and no process that was in it, by a PID of the table, is BLOCKED.
  pub sem_post_lem :
      (id : ℕ) (s : SemKernel Heap)
      → id < 500
      → (s.sems id).used ≡ true
      → All InTable (elements (s.sems id).waiting)
      → ((sem_post A id s).0 ≡ some 0)
        × (((sem_post A id s).1.sems id).value ≡ ((s.sems id).value + 1) % 2 ^ 32)
        × (elements ((sem_post A id s).1.sems id).waiting ≡ [])
        × All (Awake (sem_post A id s).1.kernel) (elements (s.sems id).waiting)
  sem_post_lem id s lo u h = rw (posted id s lo u) (
    refl,
    wake_all-value id (raised id s) ∙ ap (λ x. x.value) now,
    after.0,
    subst (λ q. All (Awake (wake_all A id (raised id s)).kernel) (elements q))
        (ap (λ x. x.waiting) now) after.1,
  )
    where
      now : (raised id s).sems id ≡ record (s.sems id) { value = ((s.sems id).value + 1) % 2 ^ 32 }
      now = update_self s.sems _ id

      after :
          (elements ((wake_all A id (raised id s)).sems id).waiting ≡ [])
          × All
              (Awake (wake_all A id (raised id s)).kernel)
              (elements ((raised id s).sems id).waiting)
      after =
          Awake-after id (raised id s)
            (subst (λ q. All InTable (elements q)) (ap (λ x. x.waiting) (sym now)) h)
