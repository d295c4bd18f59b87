-- ===== src/Syscalls/Ended.antt =====
-- Kernel/idt/syscallDispatcher.c: the calls on a process that a call has killed.
use tp2_sistemas_operativos.Prelude.{
  ℕ, ◌∙◌, [], if◌then◌else◌, Bool-cases, inl, inr, ◌-◌, ◌≤◌, ◌<◌, ◌≡◌, refl, ap, arith, List,
  Option, none, some, Bool, true, false, ◌||◌, ◌==◌,
}
use tp2_sistemas_operativos.Memory.Interface.{Allocator}
use tp2_sistemas_operativos.State.{Kernel, is_exited, state_of}
use tp2_sistemas_operativos.Process.Table.{is_valid_pid}
use tp2_sistemas_operativos.Process.Create.{CreationParameters}
use tp2_sistemas_operativos.Process.Exit.{leave, end_process, change_process_priority}
use tp2_sistemas_operativos.Process.Exit.Kill.{
  Buried, left_by, Buried-end, leave_step, refuse_exited,
}
use tp2_sistemas_operativos.Scheduler.Ready.{get_process}
use tp2_sistemas_operativos.Scheduler.Block.{unblock_process, force_switch_context, is_current}
use tp2_sistemas_operativos.Scheduler.Switch.Total.{switch_context-some}
use tp2_sistemas_operativos.Files.{FileKernel, kernel_of, with_kernel}
use tp2_sistemas_operativos.Syscalls.{
  Registers, Result, returns, failed, killed, in_kernel, switched, int_of, case_of, serve,
  syscall_dispatcher, sys_kill, sys_block, sys_unblock, sys_change_priority,
}

or_true : (b : Bool) → (b || true) ≡ true
or_true true = refl
or_true false = refl

-- A process that has ended has no valid PID, and the scheduler does not find it.
ended_invalid :
    {Heap : Type 0} (pid : ℕ) (k : Kernel Heap)
    → is_exited (state_of k (pid - 1)) ≡ true
    → is_valid_pid pid k ≡ false
ended_invalid pid k e = ground arith

ended_lost :
    {Heap : Type 0} (pid : ℕ) (k : Kernel Heap)
    → is_exited (state_of k (pid - 1)) ≡ true
    → get_process pid k ≡ none
unfolding get_process
ended_lost pid k e = ground arith

module _ (A : Allocator) where
  open A use {Heap}

  unblock_ended :
      (pid : ℕ) (k : Kernel Heap)
      → is_exited (state_of k (pid - 1)) ≡ true
      → unblock_process A pid k ≡ (none, k)
  unfolding unblock_process
  unblock_ended pid k e = rw (ended_lost pid k e, unblock_process) refl

  priority_ended :
      (rsp pid priority : ℕ) (k : Kernel Heap)
      → is_exited (state_of k (pid - 1)) ≡ true
      → change_process_priority A rsp pid priority k ≡ some (none, k)
  unfolding change_process_priority
  priority_ended rsp pid priority k e = rw (ended_invalid pid k e) refl

module _ (A : Allocator) where
  open A use {Heap}

  switched-some :
      (rsp : ℕ) (k : Kernel Heap) → (k' : Kernel Heap) × (force_switch_context A rsp k ≡ some k')
  unfolding force_switch_context
  switched-some rsp k =
      let (out, e) = switch_context-some A rsp k in
      (out.1, ap (λ o. elim o [ none ↦ none | some (sp, k') ↦ some k' ]) e)

  -- The end of `kill` always comes to 0.
  leave-some :
      (rsp pid : ℕ) (s : FileKernel Heap)
      → (s' : FileKernel Heap) × (killed (leave A rsp pid s) ≡ some (returns 0 [], s'))
  unfolding leave
  leave-some rsp pid s = elim (Bool-cases (is_current pid (kernel_of s))) [
    | inl e ↦
        let (k', y) = switched-some rsp (kernel_of s) in
        (
          with_kernel k' s,
          ap
                (λ b.
                  killed (
                    if b
                    then to_zero s (force_switch_context A rsp (kernel_of s))
                    else none_left s))
                e
              ∙ ap (λ o. killed (to_zero s o)) y,
        )
    | inr e ↦ (
      s,
      ap
          (λ b.
            killed
              (if b then to_zero s (force_switch_context A rsp (kernel_of s)) else none_left s))
          e,
    )
  ]
    where
      to_zero : FileKernel Heap → Option (Kernel Heap) → Option (Option ℕ × FileKernel Heap)
      to_zero s o = elim o [ none ↦ none | some k ↦ some (some 0, with_kernel k s) ]

      none_left : FileKernel Heap → Option (Option ℕ × FileKernel Heap)
      none_left s = some (some 0, s)

-- The registers of a call.
abbrev pub registers : ℕ → ℕ → ℕ → Registers
registers rax rdi rsi = record { rax = rax; rdi = rdi; rsi = rsi }

module _ (A : Allocator) (null_pid : ℕ) (setup_stack : ℕ → ℕ → ℕ → ℕ → ℕ)
    (params : ℕ → CreationParameters) (text : ℕ → List ℕ)
    (on_device : Registers → FileKernel (A.Heap) → Option (Result × FileKernel (A.Heap))) where
  open A use {Heap}

  abbrev pub called : ℕ → ℕ → ℕ → ℕ → FileKernel Heap → Option (Result × FileKernel Heap)
  called rsp rax rdi rsi =
      syscall_dispatcher A null_pid setup_stack params text on_device rsp (registers rax rdi rsi)

  -- The calls that refuse the PID of a process that has ended.
  abbrev pub Gone : ℕ → FileKernel Heap → Type 0
  Gone pid s =
      (rsp priority : ℕ)
      → (called rsp 0x80000202 pid 0 s ≡ some (failed, s))
        × (called rsp 0x80000203 pid 0 s ≡ some (failed, s))
        × (called rsp 0x80000204 pid 0 s ≡ some (failed, s))
        × (called rsp 0x80000206 pid priority s ≡ some (failed, s))

  ended-Gone :
      (pid : ℕ) (s : FileKernel Heap)
      → is_exited (state_of (kernel_of s) (pid - 1)) ≡ true
      → Gone pid s
  unfolding syscall_dispatcher case_of serve sys_kill sys_block sys_unblock sys_change_priority
  ended-Gone pid s e rsp priority = (
    ap killed (refuse_exited A rsp pid s e),
    rw (ended_invalid pid (kernel_of s) e, or_true (pid == 1)) refl,
    ap (λ o. in_kernel o s) (unblock_ended A pid (kernel_of s) e),
    ap (λ o. switched o s) (priority_ended A rsp pid (int_of priority) (kernel_of s) e),
  )

  -- The call with the number 0x80000202 and a PID from 2 to 100 whose process is in use ends that
  -- process, then gives up the processor where it is the current one, and returns 0. In the state without the
  -- process every call that would kill, block or unblock that PID or change its priority, by the numbers
  -- 0x80000202 to 0x80000204 and 0x80000206, returns -1 and changes nothing.
  pub syscall_dispatcher-kill :
      (rsp pid : ℕ) (s : FileKernel Heap)
      → 1 < pid
      → pid ≤ 100
      → is_exited (state_of (kernel_of s) (pid - 1)) ≡ false
      → (called rsp 0x80000202 pid 0 s ≡ killed (leave A rsp pid (end_process A (pid - 1) s)))
        × ((s' : FileKernel Heap) × (called rsp 0x80000202 pid 0 s ≡ some (returns 0 [], s')))
        × Buried (left_by A pid (end_process A (pid - 1) s))
        × Gone pid (end_process A (pid - 1) s)
  unfolding syscall_dispatcher case_of serve sys_kill
  syscall_dispatcher-kill rsp pid s lo hi e =
      let done = Buried-end A (pid - 1) s in
      let last = leave-some A rsp pid (end_process A (pid - 1) s) in
      (
        ap killed (leave_step A rsp pid s lo hi e),
        (last.0, ap killed (leave_step A rsp pid s lo hi e) ∙ last.1),
        done.0,
        ended-Gone pid (end_process A (pid - 1) s) (ap is_exited done.0.state),
      )
