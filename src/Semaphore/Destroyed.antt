-- ===== src/Semaphore/Destroyed.antt =====
-- `semWait` of Kernel/semaphoreManager.c after `semDestroy`.
use tp2_sistemas_operativos.Prelude.{
  ℕ, suc, ◌<◌, ◌≡◌, ap, ◌∙◌, arith, List, [], ◌∷◌, some, true, false, update, update_self,
  if◌then◌else◌, ==_iff,
}
use tp2_sistemas_operativos.Memory.Interface.{Allocator}
use tp2_sistemas_operativos.Queue.{Node, Queue}
use tp2_sistemas_operativos.State.{running, blocked, Kernel, state_of, put_state}
use tp2_sistemas_operativos.Scheduler.Ready.{get_process}
use tp2_sistemas_operativos.Scheduler.Block.{block_process, yield, is_current, with_code}
use tp2_sistemas_operativos.Semaphore.{SemKernel, asleep, wait_turn, put_sem}

module _ (A : Allocator) where
  open A use {Heap, alloc}

  -- What waking everyone leaves of the queue, the current process and a process that is not BLOCKED.
  record Woken (k : Kernel Heap) (i : ℕ) (out : List Node × Kernel Heap) : Type 0 where
    none_left : out.0 ≡ []
    current : out.1.current_process ≡ k.current_process
    process : out.1.processes i ≡ k.processes i

  -- The process `i` runs, with its own PID.
  pub record Runs (i : ℕ) (k : Kernel Heap) : Type 0 where
    pub current : k.current_process ≡ some i
    pub state : state_of k i ≡ running
    pub pid : (k.processes i).pid ≡ suc i

  found : (i : ℕ) (k : Kernel Heap) → Runs i k → i < 100 → get_process (suc i) k ≡ some i
  unfolding get_process
  found i k r lt = ground (arith, r.state)

  now_current :
      (i : ℕ) (k : Kernel Heap)
      → Runs i k
      → is_current (k.processes i).pid (put_state i blocked k) ≡ true
  now_current i k r = rw r.current ((==_iff _ _).1 (ap (λ p. p.pid) (update_self k.processes _ i)))

  blocks :
      (rsp i : ℕ) (k k' : Kernel Heap)
      → Runs i k
      → i < 100
      → yield A rsp (put_state i blocked k) ≡ some k'
      → block_process A rsp (suc i) k ≡ some (1, k')
  unfolding block_process
  blocks rsp i k k' r lt y =
      rw (found i k r lt, block_process)
        (ap
            (λ b.
              if b
              then with_code A 1 (yield A rsp (put_state i blocked k))
              else some (0, put_state i blocked k))
            (now_current i k r)
          ∙ ap (with_code A 1) y)

module _ (A : Allocator) (null_pid : ℕ) where
  open A use {Heap, alloc}

  -- The process `i` is the only one in the queue at `q`, is BLOCKED, and gives up the processor.
  abbrev pub Queued : ℕ → ℕ → ℕ → ℕ → SemKernel Heap → Type 0
  Queued rsp id i q s =
      (k : Kernel Heap) × (yield A rsp
          (put_state i blocked (record s.kernel { heap = (alloc 16 s.kernel.heap).1 }))
        ≡ some k)
      × (wait_turn A null_pid rsp id s
          ≡ some (
            asleep,
            record {
              sems = update s.sems id (record (s.sems id) {
                waiting = some (q, ((alloc 16 s.kernel.heap).0, suc i) ∷ []);
              });
              kernel = k;
            },
          ))

  -- The semaphore before anyone is woken.
  abbrev retired : ℕ → SemKernel Heap → SemKernel Heap
  retired id s = put_sem id (record (s.sems id) { used = false }) s

  -- What `semDestroy` leaves of a semaphore while the process `i` runs.
  record Left (id i q : ℕ) (s : SemKernel Heap) : Type 0 where
    unused : (s.sems id).used ≡ false
    value : (s.sems id).value ≡ 0
    waiting : (s.sems id).waiting ≡ some (q, [])
    runs : Runs A i s.kernel
