-- ===== src/Process/Tests.antt =====
-- The process table with two processes in use, on a heap that hands out increasing addresses.
use tp2_sistemas_operativos.Prelude.{
  ℕ, suc, ◌+◌, ◌*◌, ◌^◌, ◌≡◌, ◌⊎◌, refl, arith, [], ◌∷◌, ◌++◌, none, some, true, false, length,
  if◌then◌else◌, leb, ◌==◌,
}
use tp2_sistemas_operativos.Memory.Interface.{Allocator, buddy_allocator}
use tp2_sistemas_operativos.Memory.Buddy.{
  Buddy, free, alloc_memory, size_to_order, at_least_min, order_from, alloc_rec, settle,
  idx_to_offset,
}
use tp2_sistemas_operativos.Fixtures.{no_stream, unused_sem}
use tp2_sistemas_operativos.Files.{FileKernel, w}
use tp2_sistemas_operativos.State.{Process, Kernel, ready, exited}
use tp2_sistemas_operativos.Process.Table.{free_from, get_free_process, get_processes_information}
use tp2_sistemas_operativos.Process.Table.Report.{listed, active, get_processes_information_lem}
use tp2_sistemas_operativos.Process.Create.{CreationParameters, create_process}
use tp2_sistemas_operativos.Process.Create.Outcome.{Refused, Created, create_process_lem}
use tp2_sistemas_operativos.Process.Create.Total.{requests, meets, create_process-total}

abbrev bump : Allocator
bump = record { Heap = ℕ; alloc = λ size top. (suc top, top + size); free = λ p top. top }

-- Entries 0 and 1 are in use.
abbrev process_at : ℕ → Process
process_at i = record {
  name = [];
  pid = i + 1;
  argc = 0;
  argv = 0;
  args = [];
  priority = 3;
  original_priority = 3;
  foreground = 0;
  entry_point = 64;
  state = if leb i 1 then ready else exited;
  stack_base = 8192;
  stack_end = 8000 + i;
  wait_return_value = 0;
  wait_pid = none;
  fds = (0, 4);
  aging_counter = 0;
}

abbrev started_on : {Heap : Type 0} → Heap → Kernel Heap
started_on h = record {
  processes = process_at;
  current = 1;
  queues = λ i. some (32, []);
  current_process = some 0;
  quantums_left = 3;
  is_yield = false;
  heap = h;
}

abbrev started : Kernel ℕ
started = started_on 4096

-- A heap of the buddy manager: a free area of 2^16 bytes.
abbrev buddy_heap : Buddy
buddy_heap = record {
  pool_base = 4096;
  pool_size = 2 ^ 16;
  max_order = 16;
  node_state = λ i. free;
  used_bytes = 0;
  free_bytes = 2 ^ 16;
  header = λ a. 0;
}

-- A process with one argument of two bytes.
abbrev parameters : CreationParameters
parameters = record {
  argc = some 1;
  argv = λ i. 97 ∷ 98 ∷ [];
  name = some (108 ∷ 115 ∷ []);
  priority = 4;
  entry_point = 4194304;
  foreground = 1;
  fds = (0, 1);
}

-- The stack frame of a new process lies below its base.
abbrev frame : ℕ → ℕ → ℕ → ℕ → ℕ
frame argc argv entry base = base

-- The processes, with no descriptor open but a pipe's write end 4, whose stream is at 512.
abbrev system : FileKernel ℕ
system = record {
  fds = λ i. record { is_open = i == 4; resource = 512; mode = w };
  streams = λ a. record no_stream { writers = 1; read_sem = 7; write_sem = 8 };
  sem = record { sems = λ i. unused_sem; kernel = started };
  printed = [];
}

get_processes_information_example : get_processes_information bump started ≡ (
  some (
    (bump.alloc ((length (active started) + 1) * 128) 4096).0,
    listed (active started) ++ (none ∷ []),
  ),
  (bump.alloc ((length (active started) + 1) * 128) 4096).1,
)
get_processes_information_example = get_processes_information_lem bump started (omega arith)

create_process_example :
    Refused bump frame started (create_process bump frame (some parameters) started)
    ⊎ Created bump frame parameters started (create_process bump frame (some parameters) started)
create_process_example = create_process_lem bump frame parameters started

third_slot : get_free_process (started_on buddy_heap) ≡ some 2
unfolding get_free_process free_from
third_slot = refl

room_for_all : meets buddy_allocator (requests parameters) buddy_heap ≡ true
unfolding alloc_memory size_to_order at_least_min order_from alloc_rec settle idx_to_offset
room_for_all = refl

create_process-total_example :
    (create_process buddy_allocator frame (some parameters) (started_on buddy_heap)).0 ≡ some 3
create_process-total_example =
    create_process-total buddy_allocator frame parameters (started_on buddy_heap) 2 refl third_slot
      room_for_all
