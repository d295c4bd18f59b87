-- ===== src/Shell/Execute/Demand.antt =====
-- Userland/Shell/shell.c: the demand on the calls of the shell, and rules for it.
use tp2_sistemas_operativos.Prelude.{
  ℕ, ◌≡◌, ◌≢◌, refl, arith, Bool, true, false, ◌||◌, ◌==◌, if◌then◌else◌,
}
use tp2_sistemas_operativos.Calls.{
  Prog, ◌>>=◌, Request, Answer, sys_kill, sys_block, sys_getpid, sys_create_process, int_of,
}
use tp2_sistemas_operativos.Calls.Always.{Always, Always-bind}
use tp2_sistemas_operativos.Shell.Builtins.Processes.{init_pid}

-- No call ends or blocks init or the process with the PID `shell`.
abbrev pub Spares : ℕ → Request → Type 0
Spares shell (sys_kill pid) = (pid ≢ init_pid) × (pid ≢ shell)
Spares shell (sys_block pid) = (pid ≢ init_pid) × (pid ≢ shell)
Spares shell _ = Unit {0}

-- What is known of the answers: the caller has the PID `shell`, and a process that is created
-- has neither that PID nor the one of init.
abbrev pub Replies : ℕ → (r : Request) → Answer r → Type 0
Replies shell sys_getpid pid = pid ≡ shell
Replies shell (sys_create_process params) pid = (int_of pid ≢ init_pid) × (int_of pid ≢ shell)
Replies shell _ _ = Unit {0}

abbrev pub Sparing : {A : Type 0} → ℕ → Prog A → Type 0
Sparing shell p = Always (Spares shell) (Replies shell) (λ _. Unit {0}) p

module _ (shell : ℕ) where
  pub branch :
      {A : Type 0} (b : Bool) (p q : Prog A)
      → (b ≡ true → Sparing shell p)
      → (b ≡ false → Sparing shell q)
      → Sparing shell (if b then p else q)
  branch true p q h k = h refl
  branch false p q h k = k refl

  pub chain :
      {A B : Type 0} (p : Prog A) (f : A → Prog B)
      → Sparing shell p
      → ((a : A) → Sparing shell (f a))
      → Sparing shell (p >>= f)
  chain p f h k =
      Always-bind (Spares shell) (Replies shell) (λ _. Unit {0}) (λ _. Unit {0}) p f h (λ a _. k a)

pub apart : (x shell : ℕ) → (x == init_pid || x == shell) ≡ false → (x ≢ init_pid) × (x ≢ shell)
apart x shell h = ((λ e. absurd (ground arith)), (λ e. absurd (ground arith)))

pub differs : (x y : ℕ) → (x == y) ≡ false → x ≢ y
differs x y h e = absurd (ground arith)
