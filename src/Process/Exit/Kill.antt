-- ===== src/Process/Exit/Kill.antt =====
-- `kill` of Kernel/process/process.c.
use tp2_sistemas_operativos.Prelude.{
  ℕ, ◌-◌, ◌≤◌, ◌<◌, ◌≡◌, refl, sym, ap, subst, ◌∙◌, arith, Option, none, some, true, false,
  update_self,
}
use tp2_sistemas_operativos.Memory.Interface.{Allocator}
use tp2_sistemas_operativos.State.{Process, exited, Kernel, state_of, is_exited, is_blocked}
use tp2_sistemas_operativos.Scheduler.Block.{unblock_process}
use tp2_sistemas_operativos.Process.Exit.{
  kill, leave, end_process, wake_waiter, close_both, bury, release,
}
use tp2_sistemas_operativos.Scheduler.Block.Keeps.{unblock_keeps}
use tp2_sistemas_operativos.Files.{FileKernel, with_kernel, kernel_of}
use tp2_sistemas_operativos.Files.Close.{close_fd}
use tp2_sistemas_operativos.Files.Keeps.{close_fd_keeps}

-- What `kill` leaves of an entry.
pub record Buried (p : Process) : Type 0 where
  pub state : p.state ≡ exited
  pub argc : p.argc ≡ 0
  pub argv : p.argv ≡ 0

module _ (A : Allocator) where
  open A use {Heap}

  buried : (i : ℕ) (k : Kernel Heap) → Buried ((bury A i k).processes i)
  unfolding bury
  buried i k = record {
    state = ap (λ p. p.state) (update_self k.processes _ i);
    argc = ap (λ p. p.argc) (update_self k.processes _ i);
    argv = ap (λ p. p.argv) (update_self k.processes _ i);
  }

  both_closed :
      (i : ℕ) (s : FileKernel Heap)
      → is_blocked (state_of (kernel_of s) i) ≡ false
      → (kernel_of (close_both A i s)).processes i ≡ (kernel_of s).processes i
  unfolding close_both
  both_closed i s e =
      close_fd_keeps A _ i (close_fd A ((kernel_of s).processes i).fds.0 s).1
        (ap (λ p. is_blocked p.state) first ∙ e)
      ∙ first
    where
      first :
          (kernel_of (close_fd A ((kernel_of s).processes i).fds.0 s).1).processes i
          ≡ (kernel_of s).processes i
      first = close_fd_keeps A ((kernel_of s).processes i).fds.0 i s e

  Buried-wake :
      (i : ℕ) (waiter : Option ℕ) (k : Kernel Heap)
      → Buried (k.processes i)
      → (k.processes i).wait_pid ≡ waiter
      → Buried ((wake_waiter A i waiter k).processes i)
        × ((wake_waiter A i waiter k).processes i).wait_pid ≡ none
  unfolding wake_waiter
  Buried-wake i none k b e = (b, e)
  Buried-wake i (some pid) k b e = (
    record {
      state = ap (λ p. p.state) now ∙ ap (λ p. p.state) same ∙ b.state;
      argc = ap (λ p. p.argc) now ∙ ap (λ p. p.argc) same ∙ b.argc;
      argv = ap (λ p. p.argv) now ∙ ap (λ p. p.argv) same ∙ b.argv;
    },
    ap (λ p. p.wait_pid) now,
  )
    where
      woken : Kernel Heap
      woken = (unblock_process A pid k).1

      same : woken.processes i ≡ k.processes i
      same = unblock_keeps A pid i k (ap is_blocked b.state)

      now :
          ((wake_waiter A i (some pid) k).processes i)
          ≡ record (woken.processes i) { wait_pid = none }
      now = update_self woken.processes _ i

  -- The entry that is left.
  abbrev pub left_by : ℕ → FileKernel Heap → Process
  left_by pid s = (kernel_of s).processes (pid - 1)

  -- What is left of the entry, whatever it was.
  pub Buried-end :
      (i : ℕ) (s : FileKernel Heap)
      → Buried ((kernel_of (end_process A i s)).processes i)
        × ((kernel_of (end_process A i s)).processes i).wait_pid ≡ none
  unfolding end_process
  Buried-end i s = Buried-wake i _ (kernel_of closed) (subst Buried (sym kept) (buried i gone)) refl
    where
      gone : Kernel Heap
      gone = release A i (kernel_of s)

      closed : FileKernel Heap
      closed = close_both A i (with_kernel (bury A i gone) s)

      kept : (kernel_of closed).processes i ≡ (bury A i gone).processes i
      kept = both_closed i (with_kernel (bury A i gone) s) (ap is_blocked (buried i gone).state)

  pub leave_step :
      (rsp pid : ℕ) (s : FileKernel Heap)
      → 1 < pid
      → pid ≤ 100
      → is_exited (state_of (kernel_of s) (pid - 1)) ≡ false
      → kill A rsp pid s ≡ leave A rsp pid (end_process A (pid - 1) s)
  unfolding kill
  leave_step rsp pid s lo hi e = ground arith

  pub refuse_exited :
      (rsp pid : ℕ) (s : FileKernel Heap)
      → is_exited (state_of (kernel_of s) (pid - 1)) ≡ true
      → kill A rsp pid s ≡ some (none, s)
  unfolding kill
  refuse_exited rsp pid s e = ground arith
