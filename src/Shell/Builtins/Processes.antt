-- ===== src/Shell/Builtins/Processes.antt =====
-- Userland/Shell/shell.c: the commands kill, block and nice.
use Prim.Native.String.{String}
use tp2_sistemas_operativos.Prelude.{
  ℕ, ◌+◌, ◌^◌, List, [], ◌∷◌, ◌++◌, Option, none, some, Bool, true, false, ◌||◌, ltb, leb, ◌==◌,
  if◌then◌else◌, length, codes,
}
use tp2_sistemas_operativos.State.{is_blocked}
use tp2_sistemas_operativos.Strings.Contents.{strcasecmp, satoi}
use tp2_sistemas_operativos.Calls.{
  Prog, ret, ◌>>=◌, ◌>>◌, int, str, printf, getpid, kill, block, unblock, nice, get_process_list,
  Listing, ProcessInfo, int_of, minus_one,
}
use tp2_sistemas_operativos.Shell.Builtins.{error, word}

abbrev pub init_pid : ℕ
init_pid = 1

-- A message and the result of the command.
abbrev refuse : Prog (Unit {0}) → ℕ → Prog ℕ
refuse message result = message >>= λ _. ret result

-- `pid <= 0` on 64 bits.
abbrev pub not_positive : ℕ → Bool
not_positive pid = pid == 0 || leb (2 ^ 63) pid

abbrev report_kill : ℕ → ℕ → Prog (Unit {0})
report_kill pid result =
    if result == 0
    then printf "  Process %d killed\n" (int pid ∷ [])
    else printf "  Failed to kill process %d (code: %d)\n" (int pid ∷ int result ∷ [])

-- The loop of `kill all`, with the numbers of those killed and of those not.
unfoldable pub kill_each : ℕ → List ProcessInfo → ℕ → ℕ → Prog (ℕ × ℕ)
kill_each shell [] killed failed = ret (killed, failed)
kill_each shell (p ∷ ps) killed failed =
    let skipped = kill_each shell ps killed failed in
    if p.pid == init_pid || p.pid == shell then skipped else do
      result ← kill p.pid
      report_kill p.pid result
      if result == 0
          then kill_each shell ps (killed + 1) failed
          else kill_each shell ps killed (failed + 1)

abbrev summary : ℕ × ℕ → Prog ℕ
summary (killed, failed) = do
  printf "\nSummary: %d processes killed, %d failed\n" (int killed ∷ int failed ∷ [])
  ret (if ltb 0 failed then 1 else 0)

unfoldable pub kill_all : Option Listing → Prog ℕ
unfolding kill_each
kill_all none = refuse (error "Error: Could not retrieve process information\n" []) 1
kill_all (some l) = do
  shell ← getpid
  printf "Killing all user processes...\n" []
  counts ← kill_each shell l.entries 0 0
  summary counts

abbrev report_killed : ℕ → ℕ → Prog ℕ
report_killed pid result =
    if result == 0
    then refuse (printf "Process %d killed successfully\n" (int pid ∷ [])) 0
    else refuse (error "Error: Could not kill process %d (code: %d)\n" (int pid ∷ int result ∷ []))
        1

unfoldable pub kill_one : List ℕ → ℕ → Prog ℕ
kill_one arg pid =
    if not_positive pid
    then refuse (error "Error: Invalid PID '%s'\n" (str arg ∷ [])) 1
    else if pid == init_pid
    then refuse (error "Error: Cannot kill init process (PID 1) - system critical\n" []) 1
    else do
      shell ← getpid
      if pid == shell
          then refuse (error "Error: Cannot kill the shell itself\n" []) 1
          else kill pid >>= report_killed pid

unfoldable pub kill_cmd : List (List ℕ) → Prog ℕ
unfolding kill_all kill_one strcasecmp satoi
kill_cmd argv =
    if ltb (length argv) 2
    then refuse (error "Usage: kill <pid> | kill all\n" []) 1
    else if strcasecmp (word argv 1) (codes "all") == 0
    then get_process_list >>= kill_all
    else kill_one (word argv 1) (satoi (word argv 1))

-- The first entry with the PID: whether it is blocked.
unfoldable pub blocked_in : ℕ → List ProcessInfo → Option Bool
blocked_in pid [] = none
blocked_in pid (p ∷ ps) =
    let rest = blocked_in pid ps in if p.pid == pid then some (is_blocked p.state) else rest

abbrev report_toggle : String → String → ℕ → ℕ → Prog ℕ
report_toggle done failed pid result =
    if result == 0
    then refuse (printf done (int pid ∷ [])) 0
    else refuse (printf failed (int pid ∷ [])) minus_one

unfoldable pub toggle : ℕ → Option Bool → Prog ℕ
toggle pid none = refuse (printf "Error: Process with PID %d not found\n" (int pid ∷ [])) minus_one
toggle pid (some true) =
    unblock pid
    >>= report_toggle "Process %d unblocked successfully\n" "Error: Could not unblock process %d\n"
        pid
toggle pid (some false) =
    block pid
    >>= report_toggle "Process %d blocked successfully\n" "Error: Could not block process %d\n" pid

-- The search does not stop at the end of the list, but at a PID of 0 behind it.
unfoldable pub block_listed : ℕ → Option Listing → Prog ℕ
unfolding blocked_in toggle
block_listed pid none = refuse (printf "Error: Could not get process list\n" []) minus_one
block_listed pid (some l) = toggle pid (blocked_in pid (l.entries ++ l.beyond))

unfoldable pub block_one : ℕ → Prog ℕ
unfolding block_listed
block_one pid =
    if not_positive pid
    then refuse (printf "Error: Invalid PID\n" []) minus_one
    else if pid == init_pid
    then refuse (error "Error: Cannot block init process (PID 1) - system critical\n" []) 1
    else do
      shell ← getpid
      if pid == shell
          then refuse (error "Error: Cannot block the shell itself\n" []) 1
          else get_process_list >>= block_listed pid

unfoldable pub block_cmd : List (List ℕ) → Prog ℕ
unfolding block_one satoi
block_cmd argv =
    if ltb (length argv) 2
    then (do
      printf "Usage: block <pid>\n" []
      printf "Toggles process state between blocked and ready\n" []
      ret minus_one)
    else block_one (satoi (word argv 1))

-- An `int32_t` below 1 or above 5.
abbrev pub out_of_range : ℕ → Bool
out_of_range priority = priority == 0 || ltb 5 priority

abbrev report_nice : ℕ → ℕ → ℕ → Prog ℕ
report_nice pid priority result =
    if result == 0
    then refuse
        (printf "Process %d priority changed to %d successfully\n" (int pid ∷ int priority ∷ [])) 0
    else refuse (printf "Error: Could not change priority of process %d\n" (int pid ∷ [])) minus_one

unfoldable pub nice_one : ℕ → ℕ → Prog ℕ
nice_one pid priority =
    if not_positive pid
    then refuse (printf "Error: Invalid PID\n" []) minus_one
    else if out_of_range priority
    then refuse (printf "Error: Priority must be between 1 and 5\n" []) minus_one
    else nice pid priority >>= report_nice pid priority

unfoldable pub nice_cmd : List (List ℕ) → Prog ℕ
unfolding nice_one satoi
nice_cmd argv =
    if ltb (length argv) 3
    then (do
      printf "Usage: nice <pid> <priority>\n" []
      printf "Changes the priority of a process (1-5, where 5 is highest)\n" []
      ret minus_one)
    else nice_one (satoi (word argv 1)) (int_of (satoi (word argv 2)))
