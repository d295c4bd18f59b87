-- ===== src/Files/Tests.antt =====
-- Descriptors 3 and 4 as the two ends of a pipe whose semaphores are 10 and 11.
use tp2_sistemas_operativos.Prelude.{
  ℕ, ◌≡◌, refl, arith, [], ◌∷◌, ◌++◌, none, some, true, false, ◌||◌, ◌==◌, if◌then◌else◌, codes,
}
use tp2_sistemas_operativos.Fixtures.{bump, kernel}
use tp2_sistemas_operativos.Semaphore.{Sem}
use tp2_sistemas_operativos.Files.{FileKernel, r, w, get_available_fd, available_from}
use tp2_sistemas_operativos.Files.Buffer.{Stream}
use tp2_sistemas_operativos.Files.Fifo.{unread}
use tp2_sistemas_operativos.Files.Pipe.{write_to_fd, read_from_fd}
use tp2_sistemas_operativos.Files.Flow.{IsPipe}
use tp2_sistemas_operativos.Files.Close.{close_fd}
use tp2_sistemas_operativos.Files.Transfer.{read_from_fd-write_to_fd}
use tp2_sistemas_operativos.Files.EndOfFile.{ended, read_from_fd-close_fd}

abbrev sem_at : ℕ → Sem
sem_at i = record {
  value = if i == 11 then 2048 else 0;
  used = i == 10 || i == 11;
  waiting = some (64, []);
  opened_by = λ j. 0;
  name = λ j. 0;
}

-- The next byte goes to the last cell of the buffer.
abbrev stream : Stream
stream = record {
  buffer = λ i. 0;
  read_pos = 2047;
  write_pos = 2047;
  data_available = 0;
  eof = false;
  readers = 1;
  writers = 1;
  read_sem = 10;
  write_sem = 11;
}

abbrev files : FileKernel ℕ
files = record {
  fds = λ i.
      if i == 3
      then record { is_open = true; resource = 4096; mode = r }
      else record { is_open = i == 4; resource = 4096; mode = w };
  streams = λ a. stream;
  sem = record { sems = sem_at; kernel = kernel };
  printed = [];
}

files-IsPipe : IsPipe bump 0 4096 files
files-IsPipe = record {
  sound = record { start = omega arith; room = omega arith; stop = refl };
  reading = omega arith;
  writing = omega arith;
  apart = λ e. absurd (omega arith);
  read_used = refl;
  write_used = refl;
  counted = refl;
  free_room = refl;
}

next_free : (get_available_fd files).0 ≡ some 5
unfolding get_available_fd available_from
next_free = refl

-- "hi\nyo" is written, and one line of it read.
read_from_fd-write_to_fd_example :
    (k1 k2 : FileKernel ℕ) × (write_to_fd bump 0 7000 4 (codes "hi" ++ 10 ∷ codes "yo") files
      ≡ some ([], k1))
    × (read_from_fd bump 0 7000 1 3 100 [] k1
        ≡ some (record { bytes = codes "hi" ++ 10 ∷ []; left = none }, [], k2))
    × (unread (k2.streams 4096) ≡ codes "yo")
    × IsPipe bump 0 4096 k2
read_from_fd-write_to_fd_example =
    read_from_fd-write_to_fd bump 0 7000 1 3 4 100 [] (codes "hi" ++ 10 ∷ codes "yo")
      (codes "hi" ++ 10 ∷ []) (codes "yo") files (λ e. absurd (omega arith))
      (λ e. absurd (omega arith)) (λ e. absurd (omega arith)) refl files-IsPipe (omega arith) refl

read_from_fd-close_fd_example :
    (k1 k2 : FileKernel ℕ) × (close_fd bump 4 files ≡ (some 0, k1))
    × ((k1.fds 4).is_open ≡ false)
    × (k1.streams 4096 ≡ ended stream)
    × (read_from_fd bump 0 7000 1 3 100 [] k1 ≡ some (record { bytes = []; left = none }, [], k2))
    × (k2.streams 4096 ≡ ended stream)
read_from_fd-close_fd_example =
    read_from_fd-close_fd bump 0 7000 1 3 4 99 [] files (λ e. absurd (omega arith))
      (λ e. absurd (omega arith)) (omega arith) (omega arith) refl refl refl refl refl (omega arith)
      (omega arith) (omega arith) refl (omega arith)
