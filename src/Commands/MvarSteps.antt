-- ===== src/Commands/MvarSteps.antt =====
-- Userland/Shell/commands.c: the writers and readers of mvar, interleaved in any order.
-- A semaphore is its count of units: a wait passes where there is one, and takes it.
pub mod Exclusion
use tp2_sistemas_operativos.Prelude.{
  ℕ, ◌+◌, ◌-◌, ◌<◌, ◌≡◌, List, [], ◌∷◌, ◌++◌, Option, none, some, update,
}

-- `MvarShared` with the units of its semaphores. `stored` and `printed` are the letters written to
-- `value` and those printed, in their order.
pub record Shared : Type 0 where
  pub value : ℕ
  pub is_empty : ℕ
  pub sem_mutex : ℕ
  pub sem_empty : ℕ
  pub sem_full : ℕ
  pub stored : List ℕ
  pub printed : List ℕ

-- Where a process stands: in its random wait, or behind the named statement of its loop, with the
-- local variable that is still read.
pub data Pc : Type 0 where
  idle : Pc
  w_empty : ℕ → Pc  -- semWait(sem_empty)
  w_mutex : ℕ → Pc  -- semWait(sem_mutex)
  w_value : Pc  -- value = letter
  w_flag : Pc  -- is_empty = 0
  w_unlock : Pc  -- semPost(sem_mutex)
  r_full : Pc  -- semWait(sem_full)
  r_mutex : Pc  -- semWait(sem_mutex)
  r_value : ℕ → Pc  -- read_value = value
  r_flag : ℕ → Pc  -- is_empty = 1
  r_print : Pc  -- fprintf
  r_unlock : Pc  -- semPost(sem_mutex)

-- One statement of a process, which is a writer of the letter `role`, or a reader for `none`.
pub data Move (role : Option ℕ) (m : Shared) : Pc → Shared → Pc → Type 0 where
  wait_empty :
      {letter : ℕ}
      → role ≡ some letter
      → 0 < m.sem_empty
      → Move role m idle (record m { sem_empty = m.sem_empty - 1 }) (w_empty letter)
  lock_write :
      {letter : ℕ}
      → 0 < m.sem_mutex
      → Move role m (w_empty letter) (record m { sem_mutex = m.sem_mutex - 1 }) (w_mutex letter)
  store :
      {letter : ℕ}
      → Move role m
          (w_mutex letter)
          (record m { value = letter; stored = m.stored ++ letter ∷ [] })
          w_value
  set_full : Move role m w_value (record m { is_empty = 0 }) w_flag
  unlock_write : Move role m w_flag (record m { sem_mutex = m.sem_mutex + 1 }) w_unlock
  post_full : Move role m w_unlock (record m { sem_full = m.sem_full + 1 }) idle
  wait_full :
      role ≡ none
      → 0 < m.sem_full
      → Move role m idle (record m { sem_full = m.sem_full - 1 }) r_full
  lock_read :
      0 < m.sem_mutex → Move role m r_full (record m { sem_mutex = m.sem_mutex - 1 }) r_mutex
  load : Move role m r_mutex m (r_value m.value)
  set_empty : {v : ℕ} → Move role m (r_value v) (record m { is_empty = 1 }) (r_flag v)
  print : {v : ℕ} → Move role m (r_flag v) (record m { printed = m.printed ++ v ∷ [] }) r_print
  unlock_read : Move role m r_print (record m { sem_mutex = m.sem_mutex + 1 }) r_unlock
  post_empty : Move role m r_unlock (record m { sem_empty = m.sem_empty + 1 }) idle

pub record System : Type 0 where
  pub mem : Shared
  pub pc : ℕ → Pc

pub data Step (roles : ℕ → Option ℕ) (s : System) : System → Type 0 where
  pick :
      (i : ℕ) {m : Shared} {p : Pc}
      → Move (roles i) s.mem (s.pc i) m p
      → Step roles s (record { mem = m; pc = update s.pc i p })

-- What mvar_wrapper sets up, where its three semaphores are new.
abbrev pub initial : Shared
initial = record {
  value = 0;
  is_empty = 1;
  sem_mutex = 1;
  sem_empty = 1;
  sem_full = 0;
  stored = [];
  printed = [];
}

pub data Reach (roles : ℕ → Option ℕ) : System → Type 0 where
  begin : Reach roles (record { mem = initial; pc = λ _. idle })
  later : {s t : System} → Reach roles s → Step roles s t → Reach roles t
