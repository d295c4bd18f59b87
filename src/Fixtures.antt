-- ===== src/Fixtures.antt =====
-- A concrete kernel for tests: every entry RUNNING, the process of PID 5 current, memory never freed.
use tp2_sistemas_operativos.Prelude.{ℕ, suc, ◌+◌, [], none, some, false}
use tp2_sistemas_operativos.Memory.Interface.{Allocator}
use tp2_sistemas_operativos.Semaphore.{Sem}
use tp2_sistemas_operativos.Files.Buffer.{Stream}
use tp2_sistemas_operativos.State.{Process, Kernel, running}

abbrev pub bump : Allocator
bump = record { Heap = ℕ; alloc = λ size top. (suc top, top + size); free = λ p top. top }

abbrev pub process_at : ℕ → Process
process_at i = record {
  name = [];
  pid = i + 1;
  argc = 0;
  argv = 0;
  args = [];
  priority = 3;
  original_priority = 3;
  foreground = 0;
  entry_point = 64;
  state = running;
  stack_base = 8192;
  stack_end = 8000 + i;
  wait_return_value = 0;
  wait_pid = none;
  fds = (0, 1);
  aging_counter = 0;
}

abbrev pub kernel : Kernel ℕ
kernel = record {
  processes = process_at;
  current = 1;
  queues = λ i. some (32, []);
  current_process = some 4;
  quantums_left = 3;
  is_yield = false;
  heap = 4096;
}

abbrev pub no_stream : Stream
no_stream = record {
  buffer = λ i. 0;
  read_pos = 0;
  write_pos = 0;
  data_available = 0;
  eof = false;
  readers = 0;
  writers = 0;
  read_sem = 0;
  write_sem = 0;
}

abbrev pub unused_sem : Sem
unused_sem = record { value = 0; used = false; waiting = none; opened_by = λ j. 0; name = λ j. 0 }
