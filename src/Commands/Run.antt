-- ===== src/Commands/Run.antt =====
-- Userland/Shell/commands.c: a program run on the bytes that its reads bring.
use tp2_sistemas_operativos.Prelude.{
  ℕ, List, [], ◌∷◌, ◌++◌, Option, none, some, ◌==◌, if◌then◌else◌, length,
}
use tp2_sistemas_operativos.Calls.{
  Prog, ret, call, Request, Answer, sys_get_fd, sys_read_byte, sys_write, sys_close,
}

abbrev pub head? : List ℕ → Option ℕ
head? [] = none
head? (c ∷ s) = some c

abbrev pub tail_of : List ℕ → List ℕ
tail_of [] = []
tail_of (c ∷ s) = s

-- What the program leaves: its result, the bytes still to be read, those written to its output and
-- the descriptors closed.
pub record Outcome (A : Type 0) : Type 0 where
  pub result : A
  pub input : List ℕ
  pub output : List ℕ
  pub closed : List ℕ

-- Reads of the first descriptor bring the bytes of `input` and then nothing, and writes to the second
-- are kept; `env` answers reads of any other descriptor and every other call.
module _ (env : (r : Request) → Answer r) (fds : ℕ × ℕ) where
  unfoldable pub run : {A : Type 0} → List ℕ → List ℕ → List ℕ → Prog A → Outcome A
  run input output closed (ret a) = record {
    result = a;
    input = input;
    output = output;
    closed = closed;
  }
  run input output closed (call sys_get_fd k) = run input output closed (k (some fds))
  run input output closed (call (sys_read_byte fd) k) =
      if fd == fds.0
      then run (tail_of input) output closed (k (head? input))
      else run input output closed (k (env (sys_read_byte fd)))
  run input output closed (call (sys_write fd bytes) k) =
      run input (if fd == fds.1 then output ++ bytes else output) closed (k (length bytes))
  run input output closed (call (sys_close fd) k) =
      run input output (closed ++ fd ∷ []) (k (env (sys_close fd)))
  run input output closed (call r k) = run input output closed (k (env r))
