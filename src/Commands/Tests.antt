-- ===== src/Commands/Tests.antt =====
-- Userland/Shell/commands.c: concrete runs.
use tp2_sistemas_operativos.Prelude.{
  ℕ, ◌≡◌, ◌⊎◌, refl, arith, List, [], ◌∷◌, ◌++◌, Option, none, some, true, false, ◌==◌,
  if◌then◌else◌, update, codes,
}
use tp2_sistemas_operativos.Calls.{
  Request, Answer, fprintf, bussy_wait, sys_clear_screen, sys_clear_input_buffer, sys_sleep_milis,
  sys_get_mem_status, sys_free, sys_ps, sys_sem_wait, sys_sem_post, sys_pipe, sys_get_fd,
  sys_read_byte,
}
use tp2_sistemas_operativos.Commands.{is_vowel, cat_wrapper, filter_wrapper}
use tp2_sistemas_operativos.Commands.Run.{run}
use tp2_sistemas_operativos.Commands.Vowels.{consonants, cat_filter}
use tp2_sistemas_operativos.Commands.WordCount.{Shown, option_words, wc_wrapper}
use tp2_sistemas_operativos.Commands.WordCount.Counting.{newlines, starts, written, wc_wrapper_lem}
use tp2_sistemas_operativos.Commands.MvarSteps.{
  System, Step, pick, wait_empty, initial, Reach, begin, later, idle, w_empty,
}
use tp2_sistemas_operativos.Commands.MvarSteps.Exclusion.{is_idle, mvar_turns, mvar_progress}

-- Every other call succeeds with 0.
abbrev quiet : (r : Request) → Answer r
quiet (fprintf _ _ _) = tt
quiet (bussy_wait _) = tt
quiet sys_clear_screen = tt
quiet sys_clear_input_buffer = tt
quiet (sys_sleep_milis _) = tt
quiet sys_get_mem_status = (0, record { total = 0; used = 0; free = 0; base = 0 })
quiet sys_free = tt
quiet sys_ps = none
quiet (sys_sem_wait _) = tt
quiet (sys_sem_post _) = tt
quiet sys_pipe = (0, (3, 4))
quiet sys_get_fd = none
quiet (sys_read_byte _) = none
quiet _ = 0

abbrev hola : List ℕ
hola = codes "Hola!"

cat_filter_example :
    let first = run quiet (0, 4) hola [] [] (cat_wrapper 9 (0, 0)) in
    let second = run quiet (3, 1) first.output [] [] (filter_wrapper 9 (0, 0)) in
    (first ≡ record { result = some 0; input = []; output = hola; closed = 4 ∷ [] })
    × (second
        ≡ record { result = some 0; input = []; output = consonants hola; closed = 3 ∷ 1 ∷ [] })
cat_filter_example = cat_filter quiet (0, 4) (3, 1) (0, 0) 9 hola (omega arith)

no_vowels : consonants hola ≡ codes "Hl!"
unfolding is_vowel
no_vowels = refl

abbrev two_lines : List ℕ
two_lines = codes "uno dos\ntres"

abbrev lines_only : Shown
lines_only = record { lines = true; words = false; chars = false; all = false }

wc_wrapper_example :
    run quiet (3, 1) two_lines [] [] (wc_wrapper 20 (0, 0) (codes "wc" ∷ codes "-l" ∷ []))
    ≡ written lines_only (3, 1) (newlines two_lines) (starts false two_lines) 12
unfolding option_words
wc_wrapper_example =
    wc_wrapper_lem quiet (3, 1) (0, 0) 20 (codes "wc") (codes "-l" ∷ []) lines_only two_lines refl
      (omega arith) (omega arith)

three_words : starts false two_lines ≡ 3
three_words = refl

-- One writer of 'A', and readers.
abbrev roles : ℕ → Option ℕ
roles i = if i == 0 then some b'A' else none

abbrev at_start : System
at_start = record { mem = initial; pc = λ _. idle }

abbrev after_wait : System
after_wait = record {
  mem = record initial { sem_empty = 0 };
  pc = update (λ _. idle) 0 (w_empty b'A');
}

waited : Reach roles after_wait
waited = later begin (pick 0 (wait_empty refl (omega arith)))

mvar_turns_example :
    ((is_idle (after_wait.pc 0) ≡ false) → (is_idle (after_wait.pc 1) ≡ false) → ◌≡◌ {A = ℕ} 0 1)
    × ((after_wait.mem.stored ≡ after_wait.mem.printed)
        ⊎ (after_wait.mem.stored ≡ after_wait.mem.printed ++ after_wait.mem.value ∷ []))
mvar_turns_example = mvar_turns roles after_wait 0 1 waited

mvar_progress_example : (t : System) × Step roles at_start t
mvar_progress_example = mvar_progress roles at_start 0 1 b'A' refl refl begin
