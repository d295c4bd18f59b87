-- ===== src/Semaphore/Handover.antt =====
-- `semWait` of Kernel/semaphoreManager.c after `semPost`, and after `semDestroy`.
use tp2_sistemas_operativos.Prelude.{
  ℕ, suc, ◌+◌, ◌-◌, ◌%◌, ◌^◌, ◌<◌, ◌≡◌, refl, ap, ◌∙◌, arith, some, true, false, update_self, leb,
  ◌==◌,
}
use tp2_sistemas_operativos.Memory.Interface.{Allocator}
use tp2_sistemas_operativos.Semaphore.{
  SemKernel, taken, wake_up, wake_all, sem_post, sem_wait, wait_turn, put_sem,
}
use tp2_sistemas_operativos.Semaphore.Wake.{raised, posted, wake_all-value}

module _ (A : Allocator) (null_pid : ℕ) where
  open A use {Heap}

  pub wake_all-used :
      (id : ℕ) (s : SemKernel Heap) → ((wake_all A id s).sems id).used ≡ (s.sems id).used
  unfolding wake_all wake_up
  wake_all-used id s = ap (λ x. x.used) (update_self s.sems _ id)

  pub take_turn :
      (rsp id v : ℕ) (s : SemKernel Heap)
      → id < 500
      → (s.sems id).used ≡ true
      → (s.sems id).value ≡ suc v
      → suc v < 2 ^ 32
      → sem_wait A null_pid rsp id s ≡ some (taken, put_sem id (record (s.sems id) { value = v }) s)
  unfolding sem_wait wait_turn
  take_turn rsp id v s lo u e h = rw (near, u, some_left, less) refl
    where
      near : leb (2 ^ 31) id ≡ false
      near = ground arith

      some_left : ((s.sems id).value == 0) ≡ false
      some_left = ground arith

      less : ((s.sems id).value + 2 ^ 32 - 1) % 2 ^ 32 ≡ v
      less = omega arith

  -- `semWait` after `semPost` of a semaphore in use does not block: it gives the value back that
  -- `semPost` added. The value must be below 2^32 - 1, which no `int` that is not negative reaches.
  pub sem_wait-sem_post :
      (rsp id : ℕ) (s : SemKernel Heap)
      → id < 500
      → (s.sems id).used ≡ true
      → suc (s.sems id).value < 2 ^ 32
      → sem_wait A null_pid rsp id (sem_post A id s).1
        ≡ some (
          taken,
          put_sem id
              (record ((sem_post A id s).1.sems id) { value = (s.sems id).value })
              (sem_post A id s).1,
        )
  sem_wait-sem_post rsp id s lo u h =
      rw (posted A id s lo u)
        (take_turn rsp id (s.sems id).value (wake_all A id (raised A id s)) lo used value h)
    where
      now :
          (raised A id s).sems id ≡ record (s.sems id) { value = ((s.sems id).value + 1) % 2 ^ 32 }
      now = update_self s.sems _ id

      used : ((wake_all A id (raised A id s)).sems id).used ≡ true
      used = wake_all-used id (raised A id s) ∙ ap (λ x. x.used) now ∙ u

      value : ((wake_all A id (raised A id s)).sems id).value ≡ suc (s.sems id).value
      value = omega (arith, wake_all-value A id (raised A id s), ap (λ x. x.value) now)
