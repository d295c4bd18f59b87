-- ===== src/Commands/Counter.antt =====
-- Userland/Shell/commands.c: counter, loop and loop_ps.
use tp2_sistemas_operativos.Prelude.{
  ℕ, zero, suc, ◌+◌, ◌*◌, ◌%◌, ◌^◌, List, [], ◌∷◌, Option, none, some, Bool, ltb, leb, ◌==◌,
  if◌then◌else◌, length, get_or, codes,
}
use Prim.Native.String.{String}
use tp2_sistemas_operativos.State.{ProcessState, ready, running, blocked, exited}
use tp2_sistemas_operativos.Strings.Contents.{satoi}
use tp2_sistemas_operativos.Calls.{
  Prog, ret, ◌>>=◌, ◌>>◌, ask, fprintf, bussy_wait, Arg, int, str, getpid, get_fd, close_fd, sleep,
  get_process_list, free, Listing, ProcessInfo, int_of,
}
use tp2_sistemas_operativos.Commands.{fds_or}

abbrev say : ℕ → String → List Arg → Prog (Unit {0})
say fd format args = ask (fprintf fd format args)

abbrev word : List (List ℕ) → ℕ → List ℕ
word argv i = get_or argv i []

abbrev when : Bool → Prog (Unit {0}) → Prog (Unit {0})
when b p = if b then p else ret tt

-- `n` rounds from the number `i` on.
unfoldable pub count_up : ℕ → ℕ → ℕ → ℕ → Prog (Unit {0})
count_up zero i pid out = ret tt
count_up (suc n) i pid out = do
  say out "\u{1b}[0;36m[%d]\u{1b}[0m %d " (int pid ∷ int i ∷ [])
  when (i % 10 == 0) (say out "\n" [])
  ask (bussy_wait 200_000_000)
  count_up n (i + 1) pid out

-- The rounds of `for (i = 1; i <= max; i++)` on an `int`.
abbrev rounds : ℕ → ℕ
rounds max = if leb (2 ^ 31) max then 0 else max

unfoldable pub counter_wrapper : ℕ × ℕ → List (List ℕ) → Prog ℕ
unfolding count_up satoi
counter_wrapper stale argv = do
  pid ← getpid
  o ← get_fd
  let out = (fds_or stale o).1
  let max = if ltb 1 (length argv) then int_of (satoi (word argv 1)) else 10
  say out "\u{1b}[0;36m[Process %d] Counting to %d...\u{1b}[0m\n" (int pid ∷ int max ∷ [])
  count_up (rounds max) 1 pid out
  say out "\n\u{1b}[0;32m[Process %d] Done! Counted to %d\u{1b}[0m\n" (int pid ∷ int max ∷ [])
  close_fd out
  ret max

-- The first `n` rounds of a loop that has no end; the product is of 32 bits.
unfoldable pub greet : ℕ → ℕ → ℕ → ℕ → Prog (Unit {0})
greet zero seconds pid out = ret tt
greet (suc n) seconds pid out = do
  say out "\u{1b}[0;35mHola! soy el proceso %d xd\u{1b}[0m\n" (int pid ∷ [])
  sleep (seconds * 1000 % 2 ^ 32)
  greet n seconds pid out

abbrev or_two : ℕ → ℕ
or_two seconds = if seconds == 0 then 2 else if leb (2 ^ 31) seconds then 2 else seconds

unfoldable pub loop_wrapper : ℕ → ℕ × ℕ → List (List ℕ) → Prog (Unit {0})
unfolding greet satoi
loop_wrapper n stale argv = do
  o ← get_fd
  let out = (fds_or stale o).1
  pid ← getpid
  let seconds = if ltb 1 (length argv) then or_two (int_of (satoi (word argv 1))) else 2
  say out "\u{1b}[0;35m[Process %d] Starting loop with %d second interval...\u{1b}[0m\n"
      (int pid ∷ int seconds ∷ [])
  greet n seconds pid out

abbrev state_name : ProcessState → String
state_name ready = "READY"
state_name running = "RUNNING"
state_name blocked = "BLOCKED"
state_name exited = "EXITED"

abbrev state_color : ProcessState → String
state_color running = "\u{1b}[1;32m"
state_color ready = "\u{1b}[0;32m"
state_color blocked = "\u{1b}[0;33m"
state_color exited = "\u{1b}[0m"

-- The first entry with the PID of the shell.
unfoldable pub show_shell : ℕ → List ProcessInfo → Prog (Unit {0})
show_shell out [] = ret tt
show_shell out (p ∷ ps) =
    let rest = show_shell out ps in
    if p.pid == 2
    then say out "Shell (PID %d): %s%s\u{1b}[0m\n"
        (int p.pid ∷ str (codes (state_color p.state)) ∷ str (codes (state_name p.state)) ∷ [])
    else rest

unfoldable pub show_listed : ℕ → Option Listing → Prog (Unit {0})
unfolding show_shell
show_listed out none = ret tt
show_listed out (some l) = do show_shell out l.entries; free

unfoldable pub watch : ℕ → ℕ → Prog (Unit {0})
unfolding show_listed
watch zero out = ret tt
watch (suc n) out = do
  l ← get_process_list
  show_listed out l
  ask (bussy_wait 1_000_000_000)
  watch n out

unfoldable pub loop_ps_wrapper : ℕ × ℕ → Prog ℕ
unfolding watch
loop_ps_wrapper stale = do
  o ← get_fd
  let out = (fds_or stale o).1
  my_pid ← getpid
  say out "\u{1b}[1;33m[Process %d] Monitoring shell state.\u{1b}[0m\n\n" (int my_pid ∷ [])
  watch 20 out
  say out "\u{1b}[1;32m[Process %d] Monitoring complete.\u{1b}[0m\n" (int my_pid ∷ [])
  ret 0
