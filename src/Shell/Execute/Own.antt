-- ===== src/Shell/Execute/Own.antt =====
-- Userland/Shell/shell.c: the commands that the shell runs itself spare init and the shell.
use tp2_sistemas_operativos.Prelude.{
  ℕ, zero, suc, ◌+◌, ◌*◌, ◌/◌, ◌%◌, ◌^◌, List, [], ◌∷◌, Option, none, some, ltb, ◌==◌, length,
  codes,
}
use tp2_sistemas_operativos.Strings.Contents.{strcasecmp}
use tp2_sistemas_operativos.Calls.{ret, ◌>>◌, printf, int, ProcessInfo, Listing, MemoryStatus}
use tp2_sistemas_operativos.Shell.Table.{Entry, Builtin, commands}
use tp2_sistemas_operativos.Shell.Table
use tp2_sistemas_operativos.Shell.Execute.{run_builtin}
use tp2_sistemas_operativos.Shell.Builtins.{
  word, echo_words, echo, help_lines, help, clear, font, man_in, man, ps_blocks, ps_list, ps, bar,
  usage_percent, mem_usage, mem_report, mem,
}
use tp2_sistemas_operativos.Shell.Execute.Demand.{Sparing, branch, chain}
use tp2_sistemas_operativos.Shell.Execute.Guards.{
  kill_cmd-Sparing, block_cmd-Sparing, nice_cmd-Sparing,
}

module _ (shell : ℕ) where
  echo_words-Sparing : (ws : List (List ℕ)) → Sparing shell (echo_words ws)
  unfolding echo_words
  echo_words-Sparing [] = tt
  echo_words-Sparing (w ∷ []) = (tt, λ _ _. tt)
  echo_words-Sparing (w ∷ v ∷ ws) = (tt, λ _ _. (tt, λ _ _. echo_words-Sparing (v ∷ ws)))

  echo-Sparing : (argv : List (List ℕ)) → Sparing shell (echo argv)
  unfolding echo
  echo-Sparing argv =
      chain shell {A = Unit {0}} {B = ℕ} (echo_words _) (λ _. printf "\n" [] >> ret 0)
        (echo_words-Sparing _) (λ _. (tt, λ _ _. tt))

  help_lines-Sparing : (es : List Entry) → Sparing shell (help_lines es)
  unfolding help_lines
  help_lines-Sparing [] = tt
  help_lines-Sparing (e ∷ es) = (tt, λ _ _. help_lines-Sparing es)

  help-Sparing : Sparing shell help
  unfolding help
  help-Sparing = (
    tt,
    λ _ _.
        chain shell {A = Unit {0}} {B = ℕ} (help_lines commands)
          (λ _. printf "\nUse 'man <command>' for more information.\n" [] >> ret 0)
          (help_lines-Sparing commands) (λ _. (tt, λ _ _. tt)),
  )

  font-Sparing : (argv : List (List ℕ)) → Sparing shell (font argv)
  unfolding font
  font-Sparing argv =
      branch shell (ltb (length argv) 2) _ _ (λ _. (tt, λ _ _. tt))
        (λ _.
          branch shell (strcasecmp (word argv 1) (codes "increase") == 0) _ _ (λ _. (tt, λ _ _. tt))
            (λ _.
              branch shell (strcasecmp (word argv 1) (codes "decrease") == 0) _ _
                (λ _. (tt, λ _ _. tt)) (λ _. (tt, λ _ _. (tt, λ _ _. tt)))))

  man_in-Sparing : (es : List Entry) (name : List ℕ) → Sparing shell (man_in es name)
  unfolding man_in
  man_in-Sparing [] name = (tt, λ _ _. tt)
  man_in-Sparing (e ∷ es) name =
      branch shell (strcasecmp (codes e.name) name == 0) _ _
        (λ _. (tt, λ _ _. (tt, λ _ _. (tt, λ _ _. (tt, λ _ _. tt))))) (λ _. man_in-Sparing es name)

  man-Sparing : (argv : List (List ℕ)) → Sparing shell (man argv)
  unfolding man
  man-Sparing argv =
      branch shell (ltb (length argv) 2) _ _ (λ _. (tt, λ _ _. tt))
        (λ _. man_in-Sparing commands (word argv 1))

  ps_blocks-Sparing : (ps : List ProcessInfo) → Sparing shell (ps_blocks ps)
  unfolding ps_blocks
  ps_blocks-Sparing [] = tt
  ps_blocks-Sparing (p ∷ ps) = (
    tt,
    λ _ _. (
      tt,
      λ _ _. (
        tt,
        λ _ _.
            (tt, λ _ _. (tt, λ _ _. (tt, λ _ _. (tt, λ _ _. (tt, λ _ _. ps_blocks-Sparing ps))))),
      ),
    ),
  )

  ps_list-Sparing : (l : Option Listing) → Sparing shell (ps_list l)
  unfolding ps_list
  ps_list-Sparing none = (tt, λ _ _. tt)
  ps_list-Sparing (some l) =
      (tt, λ _ _. chain shell _ _ (ps_blocks-Sparing l.entries) (λ _. (tt, λ _ _. (tt, λ _ _. tt))))

  bar-Sparing : (n i filled : ℕ) → Sparing shell (bar n i filled)
  unfolding bar
  bar-Sparing zero i filled = tt
  bar-Sparing (suc n) i filled = (tt, λ _ _. bar-Sparing n (i + 1) filled)

  mem_usage-Sparing : (s : MemoryStatus) → Sparing shell (mem_usage s)
  unfolding mem_usage
  mem_usage-Sparing s =
      branch shell (s.total == 0) _ _ (λ _. tt)
        (λ _. (
          tt,
          λ _ _.
              chain shell {A = Unit {0}} (bar 40 0 (usage_percent s * 40 % 2 ^ 32 / 100))
                (λ _. printf "] %d%%\n" (int (usage_percent s) ∷ []))
                (bar-Sparing 40 0 (usage_percent s * 40 % 2 ^ 32 / 100)) (λ _. (tt, λ _ _. tt)),
        ))

  mem_report-Sparing : (result : ℕ) (s : MemoryStatus) → Sparing shell (mem_report (result, s))
  unfolding mem_report
  mem_report-Sparing result s =
      branch shell (result == 0) _ _
        (λ _. (
          tt,
          λ _ _. (
            tt,
            λ _ _. (
              tt,
              λ _ _. (
                tt,
                λ _ _. (tt, λ _ _. chain shell _ _ (mem_usage-Sparing s) (λ _. (tt, λ _ _. tt))),
              ),
            ),
          ),
        ))
        (λ _. (tt, λ _ _. tt))

  pub run_builtin-Sparing :
      (b : Builtin) (argv : List (List ℕ)) → Sparing shell (run_builtin b argv)
  unfolding run_builtin clear ps mem
  run_builtin-Sparing Table.clear argv = (tt, λ _ _. tt)
  run_builtin-Sparing Table.echo argv = echo-Sparing argv
  run_builtin-Sparing Table.font argv = font-Sparing argv
  run_builtin-Sparing Table.help argv = help-Sparing
  run_builtin-Sparing Table.man argv = man-Sparing argv
  run_builtin-Sparing Table.ps argv = (tt, λ l _. ps_list-Sparing l)
  run_builtin-Sparing Table.mem argv = (tt, λ s _. mem_report-Sparing s.0 s.1)
  run_builtin-Sparing Table.kill_cmd argv = kill_cmd-Sparing shell argv
  run_builtin-Sparing Table.block_cmd argv = block_cmd-Sparing shell argv
  run_builtin-Sparing Table.nice_cmd argv = nice_cmd-Sparing shell argv
