-- ===== src/Lib.antt =====
-- Verification library of the x64 kernel of this repository.
--
-- The kernel hands out memory, keeps a table of at most 100 processes, and lets the timer interrupt
-- choose who runs. The parts that are modelled, and how they use each other:
--
--   * Memory (Kernel/memory/buddyManager.c, Kernel/include/memoryManager.h). A binary buddy
--     allocator: `Buddy` holds the file's static variables, `node_state` is the array of node states,
--     and `header` the order bytes in the pool. create_memory_manager, alloc_memory, free_memory and
--     get_memory_status are createMemoryManager, allocMemory, freeMemory and getMemoryStatus;
--     alloc_rec, free_rec, size_to_order, idx_to_offset and round_down_pow2 keep their names.
--     Memory/Buddy/Tree is the abstract view, a tree of free areas and blocks with its own
--     allocation and release; Memory/Buddy/Refine relates the array to the tree;
--     Memory/Buddy/Valid is the invariant of the whole manager and what each call does to it.
--     Memory/Interface is the heap as the other parts call it, which both managers fill.
--   * Memory/Naive (Kernel/memory/naiveManager.c). The first-fit manager of the default build:
--     `Naive` holds the variables of the file and the headers by their address. Chain and Valid
--     relate the linked headers to a list of cells that fill the pool; Fit, Alloc, Join, Free, Tidy,
--     Undo and Status are about the calls.
--   * Queue (Kernel/queueADT.c). A FIFO of pointers whose nodes live on the heap. The chain of nodes
--     is a list of pairs of the node's address and its data, and every operation passes the heap on.
--   * State. The variables that process.c and scheduler.c share: the process table, the five queues,
--     the current process, the quantum that is left, the yield flag and the heap. A `Process *` is
--     an index into the table.
--   * Scheduler (Kernel/process/scheduler.c). Ready: schedule, unschedule and unscheduleProcess.
--     Aging: applyAging. Switch: switchContext. Block: blockProcess, unblockProcess and yield.
--   * Process (Kernel/process/process.c). Table: the table's tests and reports. Create:
--     createProcess. Exit: kill, waitProcess, processLoader and changeProccessPriority; kill and
--     processLoader work on the state of Files, since they close descriptors.
--   * Semaphore (Kernel/semaphoreManager.c). The table of semaphores, on top of the scheduler.
--   * Bytes (Userland/libc/string.c, Kernel/lib.c). memmove, memcpy and memset on a memory that is a
--     function of the address.
--   * Strings (Userland/libc/string.c). strlen, strcmp, strchr, strcpy and strncpy on such a memory.
--   * Number and Stdio (Kernel/lib.c, Userland/libc/stdio.c, Userland/libsys/ansiColors.c). itoa and
--     uintToBase; Print: vfprintf on a format and a list of arguments, Scan: vsscanf, Ansi: the
--     colour escapes. Output is a list of bytes and of colour settings.
--   * Files (Kernel/fds.c). Buffer: the bytes of a pipe; Pipe: readFromFD and writeToFD, which stop
--     where they wait for a semaphore; Close: closeFD, setEOF, getReadPos and readFromFDAt. Fifo,
--     Flow, Line, Transfer and EndOfFile say what a pipe does.
--   * Keyboard (Kernel/drivers/keyboard.c). `Keyboard` holds the file's static variables; Codes is the
--     table of scan codes, Handler the interrupt and getKeyboardCharacter. Fifo, Typing and Reading
--     follow a character from the key to the reader.
--   * Syscalls (Kernel/idt/syscallDispatcher.c). The switch on the number, and the calls for memory,
--     processes, semaphores and descriptors, which join those parts into one state. The other calls, of
--     the devices, are a parameter.
--   * Calls (Userland/libsys/libsys.c). A program of Userland is the tree of its system calls: what it
--     asks for next, and how it goes on with each answer. Always is a demand on every call.
--   * Shell (Userland/Shell/shell.c). Arguments: parse_arguments over strtok; Line: reading a line, its
--     `&` and its pipe; Table: the commands; Builtins: those that the shell runs itself; Execute:
--     execute_command, execute_pipe and a round of main. From Line on a text is its bytes before the NUL.
--   * Commands (Userland/Shell/commands.c). filter, cat, wc, counter, loop, loop_ps and mvar, whose
--     writers and readers are the step relation of MvarSteps. Run answers the reads of a
--     program's input, and keeps what it writes to its output.
--   * Fixtures. Concrete states that the tests share.
--
-- Results of -1 and NULL are `none`. `rsp` is the stack pointer at the moment of the timer interrupt.
-- A call that gives up the processor returns the state that the switch leaves.
--
-- Bounds and fuel. `order_from` has fuel 32, the width of a shift; requests from 1 to 2^31 - 16 bytes
-- and pools up to 4 MB need at most 31 rounds. `alloc_rec` and `free_rec` recurse on the order. The
-- search for a process that can run has one round more than there are entries in the queues, and
-- each round takes an entry out. The walks of the first-fit manager have the pool's size as their fuel,
-- since a block takes 24 bytes of it at least. A wait of getKeyboardCharacter takes one from its
-- semaphore, whose value bounds the rounds; the blanks of a tabulator have a fuel of their own, since
-- that loop need not end. The loops over a string take one round for each byte and one for its NUL.
-- The reading loops of filter, cat and wc take one round for each byte and one for the end of the
-- input; the loop of loop_wrapper has no end, and `greet` is its first rounds.
-- All other loops are bounded by their own counters.
--
-- Not modelled. setupStack is assembly, and a parameter of the process table. The spin
-- lock of a semaphore is not modelled, since each operation is one step; nor are device drivers,
-- interrupt tables, the test programs, the boot loader and the build
-- tools. What a format prints is one call of the shell's programs, and Stdio is about formats.
pub mod Prelude
pub mod Memory
pub mod Queue
pub mod State
pub mod Scheduler
pub mod Process
pub mod Bytes
pub mod Number
pub mod Stdio
pub mod Files
pub mod Keyboard
pub mod Strings
pub mod Calls
pub mod Shell
pub mod Commands
pub mod Syscalls
pub mod Fixtures
pub mod Semaphore
