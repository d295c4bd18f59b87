-- ===== src/Syscalls/Tests.antt =====
-- Kernel/idt/syscallDispatcher.c: concrete calls. Semaphore 0 is in use with the name "m" and no
-- units, and the current process has the PID 5.
use tp2_sistemas_operativos.Prelude.{
  ℕ, ◌≡◌, refl, arith, List, [], Option, some, true, false, ◌==◌, if◌then◌else◌, codes,
}
use tp2_sistemas_operativos.Fixtures.{bump, kernel, no_stream}
use tp2_sistemas_operativos.Semaphore.{Sem, find_sem_by_name, find_from, name_matches}
use tp2_sistemas_operativos.Files.{FileKernel, r}
use tp2_sistemas_operativos.Process.Create.{CreationParameters}
use tp2_sistemas_operativos.Syscalls.{
  Registers, sem_wait, unknown, case_of, Result, returns, killed, syscall_dispatcher,
}
use tp2_sistemas_operativos.Process.Exit.{leave, end_process}
use tp2_sistemas_operativos.Process.Exit.Kill.{Buried, left_by}
use tp2_sistemas_operativos.Syscalls.Ended.{called, Gone, syscall_dispatcher-kill}
use tp2_sistemas_operativos.Syscalls.Names.{reopened, syscall_dispatcher-sem_open}

abbrev sem_at : ℕ → Sem
sem_at i = record {
  value = 0;
  used = i == 0;
  waiting = some (64, []);
  opened_by = λ j. 0;
  name = λ j. if j == 0 then b'm' else 0;
}

abbrev system : FileKernel ℕ
system = record {
  fds = λ i. record { is_open = false; resource = 0; mode = r };
  streams = λ a. no_stream;
  sem = record { sems = sem_at; kernel = kernel };
  printed = [];
}

abbrev setup_stack : ℕ → ℕ → ℕ → ℕ → ℕ
setup_stack a b c d = 8000

abbrev params : ℕ → CreationParameters
params p = record {
  argc = some 0;
  argv = λ i. [];
  name = some (codes "p");
  priority = 3;
  entry_point = 64;
  foreground = 1;
  fds = (0, 1);
}

-- The name "m" lies at every address.
abbrev text : ℕ → List ℕ
text p = codes "m"

abbrev on_device : Registers → FileKernel ℕ → Option (Result × FileKernel ℕ)
on_device regs s = some (returns 0 [], s)

-- The process with the PID 10 is killed.
syscall_dispatcher-kill_example :
    let ended = end_process bump 9 system in
    (called bump 0 setup_stack params text on_device 7000 0x80000202 10 0 system
      ≡ killed (leave bump 7000 10 ended))
    × ((s' : FileKernel ℕ) × (called bump 0 setup_stack params text on_device 7000 0x80000202 10 0
            system
          ≡ some (returns 0 [], s')))
    × Buried (left_by bump 10 ended)
    × Gone bump 0 setup_stack params text on_device 10 ended
syscall_dispatcher-kill_example =
    syscall_dispatcher-kill bump 0 setup_stack params text on_device 7000 10 system (omega arith)
      (omega arith) refl

abbrev open_m : Registers
open_m = record { rax = 0x80000300; rdi = 4096; rsi = 1 }

found_m : find_sem_by_name (text 4096) system.sem ≡ some 0
unfolding find_sem_by_name find_from name_matches
found_m = refl

syscall_dispatcher-sem_open_example :
    let opened = reopened bump 0 0 system in
    (syscall_dispatcher bump 0 setup_stack params text on_device 7000 open_m system
      ≡ some (returns 0 [], opened))
    × ((opened.sem.sems 0).value ≡ 0)
    × ((opened.sem.sems 0).used ≡ true)
    × ((opened.sem.sems 0).waiting ≡ some (64, []))
unfolding case_of
syscall_dispatcher-sem_open_example =
    syscall_dispatcher-sem_open bump 0 setup_stack params text on_device 7000 0 open_m system refl
      (omega arith) found_m

-- The number of sys_sem_wait.
third_semaphore_call : case_of 0x80000302 ≡ sem_wait
unfolding case_of
third_semaphore_call = refl

no_such_call : case_of 0x80000306 ≡ unknown
unfolding case_of
no_such_call = refl
