-- ===== src/Shell/Execute/Guards.antt =====
-- Userland/Shell/shell.c: kill, block and nice spare init and the shell.
use tp2_sistemas_operativos.Prelude.{
  ℕ, ◌+◌, ◌≢◌, sym, ap, subst, ◌∙◌, List, [], ◌∷◌, ◌++◌, Option, none, some, Bool, true, false,
  ◌||◌, ltb, ◌==◌, if◌then◌else◌, length, codes,
}
use tp2_sistemas_operativos.Strings.Contents.{strcasecmp, satoi}
use tp2_sistemas_operativos.Calls.{Prog, ProcessInfo, Listing, int_of}
use tp2_sistemas_operativos.Shell.Builtins.{word}
use tp2_sistemas_operativos.Shell.Builtins.Processes.{
  init_pid, not_positive, out_of_range, kill_each, kill_all, kill_one, kill_cmd, blocked_in, toggle,
  block_listed, block_one, block_cmd, nice_one, nice_cmd,
}
use tp2_sistemas_operativos.Shell.Execute.Demand.{Sparing, branch, chain, apart, differs}

module _ (shell : ℕ) where
  kill_each-Sparing :
      (ps : List ProcessInfo) (killed failed : ℕ) → Sparing shell (kill_each shell ps killed failed)
  unfolding kill_each
  kill_each-Sparing [] killed failed = tt
  kill_each-Sparing (p ∷ ps) killed failed =
      branch shell (p.pid == init_pid || p.pid == shell) _ _
        (λ _. kill_each-Sparing ps killed failed)
        (λ no. (
          apart p.pid shell no,
          λ result _.
              chain shell _ _
                (branch shell (result == 0) _ _ (λ _. (tt, λ _ _. tt)) (λ _. (tt, λ _ _. tt)))
                (λ _.
                  branch shell (result == 0) _ _ (λ _. kill_each-Sparing ps (killed + 1) failed)
                    (λ _. kill_each-Sparing ps killed (failed + 1))),
        ))

  kill_all-Sparing : (l : Option Listing) → Sparing shell (kill_all l)
  unfolding kill_all
  kill_all-Sparing none = (tt, λ _ _. tt)
  kill_all-Sparing (some l) = (
    tt,
    λ self e. (
      tt,
      λ _ _.
          chain shell (kill_each self l.entries 0 0) _
            (subst (λ x. Sparing shell (kill_each x l.entries 0 0)) (sym e)
              (kill_each-Sparing l.entries 0 0))
            (λ _. (tt, λ _ _. tt)),
    ),
  )

  kill_one-Sparing : (arg : List ℕ) (pid : ℕ) → Sparing shell (kill_one arg pid)
  unfolding kill_one
  kill_one-Sparing arg pid =
      branch shell (not_positive pid) _ _ (λ _. (tt, λ _ _. tt))
        (λ _.
          branch shell (pid == init_pid) _ _ (λ _. (tt, λ _ _. tt))
            (λ first. (
              tt,
              λ self e.
                  branch shell (pid == self) _ _ (λ _. (tt, λ _ _. tt))
                    (λ other. (
                      (
                        differs pid init_pid first,
                        differs pid shell (ap (λ x. pid == x) (sym e) ∙ other),
                      ),
                      λ result _.
                          branch shell (result == 0) _ _ (λ _. (tt, λ _ _. tt))
                            (λ _. (tt, λ _ _. tt)),
                    )),
            )))

  pub kill_cmd-Sparing : (argv : List (List ℕ)) → Sparing shell (kill_cmd argv)
  unfolding kill_cmd
  kill_cmd-Sparing argv =
      branch shell (ltb (length argv) 2) _ _ (λ _. (tt, λ _ _. tt))
        (λ _.
          branch shell (strcasecmp (word argv 1) (codes "all") == 0) _ _
            (λ _. (tt, λ l _. kill_all-Sparing l))
            (λ _. kill_one-Sparing (word argv 1) (satoi (word argv 1))))

  reported-Sparing :
      (result : ℕ) (p q : Prog ℕ)
      → Sparing shell p
      → Sparing shell q
      → Sparing shell (if result == 0 then p else q)
  reported-Sparing result p q h k = branch shell (result == 0) p q (λ _. h) (λ _. k)

  toggle-Sparing :
      (pid : ℕ) (o : Option Bool) → pid ≢ init_pid → pid ≢ shell → Sparing shell (toggle pid o)
  unfolding toggle
  toggle-Sparing pid none h k = (tt, λ _ _. tt)
  toggle-Sparing pid (some true) h k =
      (tt, λ result _. reported-Sparing result _ _ (tt, λ _ _. tt) (tt, λ _ _. tt))
  toggle-Sparing pid (some false) h k =
      ((h, k), λ result _. reported-Sparing result _ _ (tt, λ _ _. tt) (tt, λ _ _. tt))

  block_listed-Sparing :
      (pid : ℕ) (l : Option Listing)
      → pid ≢ init_pid
      → pid ≢ shell
      → Sparing shell (block_listed pid l)
  unfolding block_listed
  block_listed-Sparing pid none h k = (tt, λ _ _. tt)
  block_listed-Sparing pid (some l) h k =
      toggle-Sparing pid (blocked_in pid (l.entries ++ l.beyond)) h k

  block_one-Sparing : (pid : ℕ) → Sparing shell (block_one pid)
  unfolding block_one
  block_one-Sparing pid =
      branch shell (not_positive pid) _ _ (λ _. (tt, λ _ _. tt))
        (λ _.
          branch shell (pid == init_pid) _ _ (λ _. (tt, λ _ _. tt))
            (λ first. (
              tt,
              λ self e.
                  branch shell (pid == self) _ _ (λ _. (tt, λ _ _. tt))
                    (λ other. (
                      tt,
                      λ l _.
                          block_listed-Sparing pid l (differs pid init_pid first)
                            (differs pid shell (ap (λ x. pid == x) (sym e) ∙ other)),
                    )),
            )))

  pub block_cmd-Sparing : (argv : List (List ℕ)) → Sparing shell (block_cmd argv)
  unfolding block_cmd
  block_cmd-Sparing argv =
      branch shell (ltb (length argv) 2) _ _ (λ _. (tt, λ _ _. (tt, λ _ _. tt)))
        (λ _. block_one-Sparing (satoi (word argv 1)))

  nice_one-Sparing : (pid priority : ℕ) → Sparing shell (nice_one pid priority)
  unfolding nice_one
  nice_one-Sparing pid priority =
      branch shell (not_positive pid) _ _ (λ _. (tt, λ _ _. tt))
        (λ _.
          branch shell (out_of_range priority) _ _ (λ _. (tt, λ _ _. tt))
            (λ _. (tt, λ result _. reported-Sparing result _ _ (tt, λ _ _. tt) (tt, λ _ _. tt))))

  pub nice_cmd-Sparing : (argv : List (List ℕ)) → Sparing shell (nice_cmd argv)
  unfolding nice_cmd
  nice_cmd-Sparing argv =
      branch shell (ltb (length argv) 3) _ _ (λ _. (tt, λ _ _. (tt, λ _ _. tt)))
        (λ _. nice_one-Sparing (satoi (word argv 1)) (int_of (satoi (word argv 2))))
