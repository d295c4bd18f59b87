-- ===== src/Syscalls/Number.antt =====
-- Kernel/idt/syscallDispatcher.c: the registers of a call and the cases of the switch.
use tp2_sistemas_operativos.Prelude.{ℕ, List, [], ◌∷◌, Bool, false, ◌||◌, ◌==◌, if◌then◌else◌}

pub record Registers : Type 0 where
  pub rax : ℕ
  pub rdi : ℕ
  pub rsi : ℕ

-- The cases of the switch. `device` stands for those that read and write, of the keyboard, and of
-- the drivers for the screen, the clock and the registers.
pub data Call : Type 0 where
  reserved malloc free create_process getpid kill block unblock ps change_priority : Call
  yield wait sem_open sem_close sem_wait sem_post sem_set sem_destroy pipe close get_fd : Call
  device unknown : Call

abbrev one_of : ℕ → List ℕ → Bool
one_of n [] = false
one_of n (m ∷ ms) = n == m || one_of n ms

abbrev device_calls : List ℕ
device_calls =
    3 ∷ 4 ∷ 0x80000002 ∷ 0x80000003 ∷ 0x80000007 ∷ 0x80000008 ∷ 0x80000009 ∷ 0x8000000A ∷ 0x8000000B
    ∷ 0x80000010 ∷ 0x80000011 ∷ 0x80000012 ∷ 0x80000019 ∷ 0x80000020 ∷ 0x80000021 ∷ 0x800000A0
    ∷ 0x800000B0 ∷ 0x800000C0 ∷ 0x800000C1 ∷ 0x800000D0 ∷ 0x800000E0 ∷ 0x800000F0 ∷ 0x80000100
    ∷ 0x80000403 ∷ []

abbrev table : List (ℕ × Call)
table =
    (0x80000004, reserved)
    ∷ (0x80000005, reserved)
    ∷ (0x80000006, reserved)
    ∷ (0x80000101, malloc)
    ∷ (0x80000102, free)
    ∷ (0x80000200, create_process)
    ∷ (0x80000201, getpid)
    ∷ (0x80000202, kill)
    ∷ (0x80000203, block)
    ∷ (0x80000204, unblock)
    ∷ (0x80000205, ps)
    ∷ (0x80000206, change_priority)
    ∷ (0x80000207, yield)
    ∷ (0x80000208, wait)
    ∷ (0x80000300, sem_open)
    ∷ (0x80000301, sem_close)
    ∷ (0x80000302, sem_wait)
    ∷ (0x80000303, sem_post)
    ∷ (0x80000304, sem_set)
    ∷ (0x80000305, sem_destroy)
    ∷ (0x80000400, pipe)
    ∷ (0x80000401, close)
    ∷ (0x80000402, get_fd)
    ∷ []

abbrev find_case : ℕ → List (ℕ × Call) → Call
find_case rax [] = if one_of rax device_calls then device else unknown
find_case rax ((n, c) ∷ cs) = let rest = find_case rax cs in if rax == n then c else rest

unfoldable pub case_of : ℕ → Call
case_of rax = find_case rax table
