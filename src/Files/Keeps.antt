-- ===== src/Files/Keeps.antt =====
-- Which entries of the process table `closeFD` of Kernel/fds.c leaves alone.
use tp2_sistemas_operativos.Prelude.{
  ℕ, zero, suc, ◌≡◌, inl, inr, refl, ap, ◌∙◌, List, [], ◌∷◌, false, Bool-cases, ◌==◌, ◌||◌, leb,
}
use tp2_sistemas_operativos.Memory.Interface.{Allocator}
use tp2_sistemas_operativos.Queue.{Node, nodes}
use tp2_sistemas_operativos.State.{Kernel, is_blocked, state_of}
use tp2_sistemas_operativos.Scheduler.Block.Keeps.{unblock_keeps}
use tp2_sistemas_operativos.Semaphore.{
  SemKernel, is_negative, max_sems, wake, wake_up, wake_all, sem_post, sem_destroy, destroyed,
}
use tp2_sistemas_operativos.Files.{FileKernel, kernel_of, stdin}
use tp2_sistemas_operativos.Files.Pipe.{post}
use tp2_sistemas_operativos.Files.Close.{
  close_fd, close_end, has_no_stream, end_if_drained, end_stream, post_times, free_if_unused,
  free_stream, is_drained, is_unused,
}

module _ (A : Allocator) (j : ℕ) where
  open A use {Heap}

  -- The entry of `j` is the same in both.
  abbrev Kept : Kernel Heap → Kernel Heap → Type 0
  Kept k out = (is_blocked (state_of k j) ≡ false) → out.processes j ≡ k.processes j

  wake_keeps : (n : ℕ) (ns : List Node) (k : Kernel Heap) → Kept k (wake A n ns k).1
  unfolding wake
  wake_keeps zero ns k h = refl
  wake_keeps (suc n) [] k h = refl
  wake_keeps (suc n) ((a, p) ∷ ns) k h =
      let here = unblock_keeps A p j (record k { heap = A.free a k.heap }) h in
      wake_keeps n ns _ (ap (λ q. is_blocked q.state) here ∙ h) ∙ here

  wake_all_keeps : (id : ℕ) (s : SemKernel Heap) → Kept s.kernel (wake_all A id s).kernel
  unfolding wake_all wake_up
  wake_all_keeps id s h = wake_keeps _ (nodes (s.sems id).waiting) s.kernel h

  sem_post_keeps : (id : ℕ) (s : SemKernel Heap) → Kept s.kernel (sem_post A id s).1.kernel
  unfolding sem_post
  sem_post_keeps id s h = elim (Bool-cases (is_negative id || leb max_sems id)) [
    | inl e ↦ rw e refl
    | inr e ↦ elim (Bool-cases (s.sems id).used) [
      | inl u ↦ rw (e, u) (wake_all_keeps id _ h)
      | inr u ↦ rw (e, u) refl
    ]
  ]

  sem_destroy_keeps : (id : ℕ) (s : SemKernel Heap) → Kept s.kernel (sem_destroy A id s).1.kernel
  unfolding sem_destroy destroyed
  sem_destroy_keeps id s h = elim (Bool-cases (is_negative id)) [
    | inl e ↦ rw e refl
    | inr e ↦ rw e (wake_all_keeps id _ h)
  ]

  post_times_keeps :
      (n id : ℕ) (s : FileKernel Heap) → Kept (kernel_of s) (kernel_of (post_times A n id s))
  unfolding post_times
  post_times_keeps zero id s h = refl
  post_times_keeps (suc n) id s h =
      let here = sem_post_keeps id s.sem h in
      post_times_keeps n id (post A id s) (ap (λ q. is_blocked q.state) here ∙ h) ∙ here

  end_if_drained_keeps :
      (a : ℕ) (s : FileKernel Heap) → Kept (kernel_of s) (kernel_of (end_if_drained A a s))
  unfolding end_if_drained end_stream
  end_if_drained_keeps a s h = elim (Bool-cases (is_drained (s.streams a))) [
    | inl e ↦ rw e (post_times_keeps (s.streams a).readers (s.streams a).read_sem _ h)
    | inr e ↦ rw e refl
  ]

  free_stream_keeps :
      (a : ℕ) (s : FileKernel Heap) → Kept (kernel_of s) (kernel_of (free_stream A a s))
  unfolding free_stream
  free_stream_keeps a s h =
      let first = sem_destroy_keeps (s.streams a).read_sem s.sem h in
      sem_destroy_keeps (s.streams a).write_sem _ (ap (λ q. is_blocked q.state) first ∙ h) ∙ first

  free_if_unused_keeps :
      (a : ℕ) (s : FileKernel Heap) → Kept (kernel_of s) (kernel_of (free_if_unused A a s))
  unfolding free_if_unused
  free_if_unused_keeps a s h = elim (Bool-cases (is_unused (s.streams a))) [
    | inl e ↦ rw e (free_stream_keeps a s h)
    | inr e ↦ rw e refl
  ]

  close_end_keeps :
      (fd : ℕ) (s : FileKernel Heap) → Kept (kernel_of s) (kernel_of (close_end A fd s))
  unfolding close_end
  close_end_keeps fd s h =
      let first = end_if_drained_keeps (s.fds fd).resource _ h in
      free_if_unused_keeps (s.fds fd).resource _ (ap (λ q. is_blocked q.state) first ∙ h) ∙ first

module _ (A : Allocator) where
  open A use {Heap}

  -- `closeFD` changes no entry of a process that is not BLOCKED.
  pub close_fd_keeps :
      (fd j : ℕ) (s : FileKernel Heap)
      → is_blocked (state_of (kernel_of s) j) ≡ false
      → (kernel_of (close_fd A fd s).1).processes j ≡ (kernel_of s).processes j
  unfolding close_fd
  close_fd_keeps fd j s h = elim (Bool-cases (has_no_stream fd s)) [
    | inl e ↦ rw e refl
    | inr e ↦ elim (Bool-cases (fd == stdin)) [
      | inl i ↦ rw (e, i) refl
      | inr i ↦ rw (e, i) (close_end_keeps A j fd s h)
    ]
  ]
