-- ===== src/Syscalls/Names.antt =====
-- Kernel/idt/syscallDispatcher.c: opening a semaphore by a name in use.
use tp2_sistemas_operativos.Prelude.{
  ℕ, ◌≡◌, ◌≢◌, refl, ap, ◌∙◌, List, [], Option, some, ==_ne, Bool-cases, inl, inr, update,
  update_self, ltb,
}
use tp2_sistemas_operativos.Memory.Interface.{Allocator}
use tp2_sistemas_operativos.Process.Create.{CreationParameters}
use tp2_sistemas_operativos.Semaphore.{
  Sem, SemKernel, find_sem_by_name, set_opened, getpid, put_sem,
}
use tp2_sistemas_operativos.Semaphore
use tp2_sistemas_operativos.Files.{FileKernel, with_sem}
use tp2_sistemas_operativos.Syscalls.{
  Registers, sem_open, case_of, Result, returns, int_of, in_sem, serve, sys_sem_open,
  syscall_dispatcher,
}

-- Marking who opened a semaphore leaves its count, its use and its queue.
set_opened-keeps :
    (i v : ℕ) (x : Sem)
    → ((set_opened i v x).value ≡ x.value)
      × ((set_opened i v x).used ≡ x.used)
      × ((set_opened i v x).waiting ≡ x.waiting)
unfolding set_opened
set_opened-keeps i v x = elim (Bool-cases (ltb i 100)) [
  | inl e ↦ rw e (refl, refl, refl)
  | inr e ↦ rw e (refl, refl, refl)
]

sem_open-found :
    (A : Allocator) (null_pid : ℕ) (name : List ℕ) (id : ℕ) (s : SemKernel (A.Heap))
    → find_sem_by_name name s ≡ some id
    → Semaphore.sem_open A null_pid name s
      ≡ (some id, put_sem id (set_opened (getpid A null_pid s.kernel) 1 (s.sems id)) s)
unfolding Semaphore.sem_open
sem_open-found A null_pid name id s found = rw (found, Semaphore.sem_open) refl

module _ (A : Allocator) (null_pid : ℕ) where
  open A use {Heap}

  -- The state after the semaphore `id` has been opened.
  abbrev pub reopened : ℕ → FileKernel Heap → FileKernel Heap
  reopened id s =
      with_sem (put_sem id (set_opened (getpid A null_pid s.sem.kernel) 1 (s.sem.sems id)) s.sem) s

module _ (A : Allocator) (null_pid : ℕ) (setup_stack : ℕ → ℕ → ℕ → ℕ → ℕ)
    (params : ℕ → CreationParameters) (text : ℕ → List ℕ)
    (on_device : Registers → FileKernel (A.Heap) → Option (Result × FileKernel (A.Heap))) where
  open A use {Heap}

  -- The call that opens a semaphore by a name in use returns the number of that semaphore and only
  -- marks the caller in it: whatever value is given, the count, the waiting processes and the use of
  -- the semaphore stay as they were.
  pub syscall_dispatcher-sem_open :
      (rsp id : ℕ) (r : Registers) (s : FileKernel Heap)
      → case_of r.rax ≡ sem_open
      → r.rdi ≢ 0
      → find_sem_by_name (text r.rdi) s.sem ≡ some id
      → (syscall_dispatcher A null_pid setup_stack params text on_device rsp r s
          ≡ some (returns (int_of id) [], reopened A null_pid id s))
        × (((reopened A null_pid id s).sem.sems id).value ≡ (s.sem.sems id).value)
        × (((reopened A null_pid id s).sem.sems id).used ≡ (s.sem.sems id).used)
        × (((reopened A null_pid id s).sem.sems id).waiting ≡ (s.sem.sems id).waiting)
  unfolding syscall_dispatcher serve sys_sem_open
  syscall_dispatcher-sem_open rsp id r s e ne found =
      let marked = set_opened (getpid A null_pid s.sem.kernel) 1 (s.sem.sems id) in
      let at : update s.sem.sems id marked id ≡ marked = update_self s.sem.sems marked id in
      let (v, u, w) = set_opened-keeps (getpid A null_pid s.sem.kernel) 1 (s.sem.sems id) in
      (
        rw e (
            rw (==_ne r.rdi 0 ne) (
              rw found
                (ap (λ p. in_sem p s) (sem_open-found A null_pid (text r.rdi) id s.sem found)))),
        ap (λ x. x.value) at ∙ v,
        ap (λ x. x.used) at ∙ u,
        ap (λ x. x.waiting) at ∙ w,
      )
