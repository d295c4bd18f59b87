-- ===== src/Shell/Execute/Spares.antt =====
-- Userland/Shell/shell.c: no line that is typed makes the shell end or block init or itself.
use tp2_sistemas_operativos.Prelude.{
  ℕ, ◌≢◌, List, [], ◌∷◌, Option, none, some, Bool, not, ◌&&◌, ◌||◌, ◌==◌, take,
}
use Prim.Native.String.{String}
use tp2_sistemas_operativos.Calls.{int_of}
use tp2_sistemas_operativos.Shell.Arguments.{max_args}
use tp2_sistemas_operativos.Shell.Arguments.Fields.{fields}
use tp2_sistemas_operativos.Shell.Builtins.Processes.{init_pid}
use tp2_sistemas_operativos.Shell.Line.{
  Command, bad_pipe, piped, simple, read_command, Entered, overflow, empty, line,
}
use tp2_sistemas_operativos.Shell.Table.{Entry, Handler, builtin, process, Spawn, find_command}
use tp2_sistemas_operativos.Shell.Execute.{
  is_negative, follow, warned, start, handle, execute_command, Side, close_both, join_right,
  start_right, after_left, start_left, connect, pipe_sides, check_right, check_left, check_found,
  check_words, execute_pipe, run_found, run_line, run_command, run_entered, round,
}
use tp2_sistemas_operativos.Shell.Execute.Demand.{Sparing, branch, chain}
use tp2_sistemas_operativos.Shell.Execute.Own.{run_builtin-Sparing}

module _ (shell : ℕ) where
  follow-Sparing : (name : String) (b : Bool) (pid : ℕ) → Sparing shell (follow name b pid)
  unfolding follow
  follow-Sparing name b pid =
      branch shell (is_negative pid) _ _ (λ _. (tt, λ _ _. tt))
        (λ _. (
          tt,
          λ _ _. branch shell b _ _ (λ _. tt) (λ _. (tt, λ _ _. (tt, λ _ _. (tt, λ _ _. tt)))),
        ))

  warned-Sparing : (name : String) (s : Spawn) (b : Bool) → Sparing shell (warned name s b)
  unfolding warned
  warned-Sparing name s b =
      branch shell (b && not s.allow_background) _ _ (λ _. (tt, λ _ _. tt)) (λ _. tt)

  start-Sparing :
      (name : String) (s : Spawn) (argv : List (List ℕ)) (b : Bool)
      → Sparing shell (start name s argv b)
  unfolding start
  start-Sparing name s argv b =
      (tt, λ fds _. (tt, λ pid _. follow-Sparing name (b || s.is_background) (int_of pid)))

  handle-Sparing :
      (h : Handler) (name : String) (argv : List (List ℕ)) (b : Bool)
      → Sparing shell (handle h name argv b)
  unfolding handle
  handle-Sparing (builtin f) name argv b = run_builtin-Sparing shell f argv
  handle-Sparing (process s) name argv b =
      chain shell (warned name s b) (start name s argv) (warned-Sparing name s b)
        (start-Sparing name s argv)

  -- The only process that a pipe ends is its left one.
  join_right-Sparing :
      (name : String) (fds : ℕ × ℕ) (b : Bool) (left right : ℕ)
      → left ≢ init_pid
      → left ≢ shell
      → Sparing shell (join_right name fds b left right)
  unfolding join_right close_both
  join_right-Sparing name fds b left right h k =
      branch shell (is_negative right) _ _
        (λ _. (tt, λ _ _. ((h, k), λ _ _. (tt, λ _ _. (tt, λ _ _. tt)))))
        (λ _. branch shell b _ _ (λ _. tt) (λ _. (tt, λ _ _. (tt, λ _ _. tt))))

  after_left-Sparing :
      (l r : Side) (fds : ℕ × ℕ) (b : Bool) (left : ℕ)
      → left ≢ init_pid
      → left ≢ shell
      → Sparing shell (after_left l r fds b left)
  unfolding after_left start_right close_both
  after_left-Sparing l r fds b left h k =
      branch shell (is_negative left) _ _ (λ _. (tt, λ _ _. (tt, λ _ _. (tt, λ _ _. tt))))
        (λ _. (tt, λ right _. join_right-Sparing r.name fds b left (int_of right) h k))

  connect-Sparing :
      (l r : Side) (b : Bool) (result : ℕ) (fds : ℕ × ℕ)
      → Sparing shell (connect l r b (result, fds))
  unfolding connect start_left close_both
  connect-Sparing l r b result fds =
      branch shell (not (result == 0)) _ _ (λ _. (tt, λ _ _. tt))
        (λ _.
          branch shell (b && not l.spawn.allow_background) _ _
            (λ _. (tt, λ _ _. (tt, λ _ _. (tt, λ _ _. tt))))
            (λ _. (tt, λ left fits. after_left-Sparing l r fds b (int_of left) fits.0 fits.1)))

  check_right-Sparing :
      (l : Side) (name : String) (h : Handler) (arg0 : List ℕ) (argv : List (List ℕ)) (b : Bool)
      → Sparing shell (check_right l name h arg0 argv b)
  unfolding check_right pipe_sides
  check_right-Sparing l name (builtin f) arg0 argv b = (tt, λ _ _. tt)
  check_right-Sparing l name (process s) arg0 argv b =
      (tt, λ p _. connect-Sparing l (record { name = name; spawn = s; argv = argv }) b p.0 p.1)

  check_left-Sparing :
      (l : Entry) (h : Handler) (arg0 : List ℕ) (argv : List (List ℕ)) (r : Entry) (right0 : List ℕ)
      (rargv : List (List ℕ)) (b : Bool)
      → Sparing shell (check_left l h arg0 argv r right0 rargv b)
  unfolding check_left
  check_left-Sparing l (builtin f) arg0 argv r right0 rargv b = (tt, λ _ _. tt)
  check_left-Sparing l (process s) arg0 argv r right0 rargv b =
      check_right-Sparing (record { name = l.name; spawn = s; argv = argv }) r.name r.handler right0
        rargv b

  check_found-Sparing :
      (l r : Option Entry) (left0 right0 : List ℕ) (ls rs : List (List ℕ)) (b : Bool)
      → Sparing shell (check_found l r left0 right0 ls rs b)
  unfolding check_found
  check_found-Sparing none r left0 right0 ls rs b = (tt, λ _ _. tt)
  check_found-Sparing (some l) none left0 right0 ls rs b = (tt, λ _ _. tt)
  check_found-Sparing (some l) (some r) left0 right0 ls rs b =
      check_left-Sparing l l.handler left0 ls r right0 rs b

  check_words-Sparing : (ls rs : List (List ℕ)) (b : Bool) → Sparing shell (check_words ls rs b)
  unfolding check_words
  check_words-Sparing [] rs b = (tt, λ _ _. tt)
  check_words-Sparing (l ∷ ls) [] b = (tt, λ _ _. tt)
  check_words-Sparing (l ∷ ls) (r ∷ rs) b =
      check_found-Sparing (find_command l) (find_command r) l r (l ∷ ls) (r ∷ rs) b

  run_found-Sparing :
      (e : Option Entry) (arg0 : List ℕ) (argv : List (List ℕ)) (b : Bool)
      → Sparing shell (run_found e arg0 argv b)
  unfolding run_found execute_command
  run_found-Sparing none arg0 argv b = (tt, λ _ _. tt)
  run_found-Sparing (some e) arg0 argv b =
      chain shell (execute_command e argv b) _ (handle-Sparing e.handler e.name argv b) (λ _. tt)

  run_line-Sparing : (c : Command) → Sparing shell (run_line c)
  unfolding run_line execute_pipe
  run_line-Sparing bad_pipe = (tt, λ _ _. tt)
  run_line-Sparing (piped left right b) =
      chain shell (execute_pipe left right b) _
        (check_words-Sparing (take max_args (fields left)) (take max_args (fields right)) b)
        (λ _. tt)
  run_line-Sparing (simple [] b) = tt
  run_line-Sparing (simple (arg0 ∷ args) b) =
      run_found-Sparing (find_command arg0) arg0 (arg0 ∷ args) b

  -- Whatever is read, a round of the shell asks the kernel neither to end nor to block the process
  -- init or the shell, whose PID is the answer of getpid, where no process that it creates in the
  -- round has the PID of either.
  pub round-Sparing : (typed : Entered) → Sparing shell (round typed)
  unfolding round run_entered run_command
  round-Sparing overflow = (tt, λ _ _. (tt, λ _ _. tt))
  round-Sparing empty = (tt, λ _ _. tt)
  round-Sparing (line typed) = (tt, λ _ _. run_line-Sparing (read_command typed))
