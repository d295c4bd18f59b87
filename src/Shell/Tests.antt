-- ===== src/Shell/Tests.antt =====
-- Userland/Shell/shell.c: concrete lines.
use tp2_sistemas_operativos.Prelude.{
  ℕ, ◌-◌, ◌≡◌, refl, arith, List, [], ◌∷◌, some, true, ltb, if◌then◌else◌, get_or, take, codes,
}
use tp2_sistemas_operativos.Strings.Token.{Tokens}
use tp2_sistemas_operativos.Strings.Contents.{satoi, strcasecmp}
use tp2_sistemas_operativos.Shell.Arguments.{max_args, parse_arguments}
use tp2_sistemas_operativos.Shell.Arguments.Fields.{fields, Strings, parse_arguments_lem}
use tp2_sistemas_operativos.Shell.Line.{
  parse_pipe_command, both, invalid, line, read_command, piped,
}
use tp2_sistemas_operativos.Shell.Line.Sides.{Means, parse_pipe_command_lem}
use tp2_sistemas_operativos.Shell.Execute.{round}
use tp2_sistemas_operativos.Shell.Execute.Demand.{Sparing}
use tp2_sistemas_operativos.Shell.Execute.Spares.{round-Sparing}

-- "nice 5 2" at the address 100.
abbrev nice_line : List ℕ
nice_line = codes "nice 5 2"

abbrev nice_memory : Tokens
nice_memory = record {
  bytes = λ x. if ltb x 100 then 0 else get_or nice_line (x - 100) 0;
  last = 0;
}

parse_arguments_example :
    (argv : List ℕ) × (u : Tokens) × (parse_arguments 9 100 nice_memory ≡ some (argv, u))
    × Strings u.bytes argv (take max_args (fields nice_line))
parse_arguments_example =
    parse_arguments_lem 9 100 nice_memory nice_line (omega arith) (omega arith)

-- Two spaces have an empty word between them.
two_spaces : fields (codes "kill  5 ") ≡ codes "kill" ∷ [] ∷ codes "5" ∷ []
two_spaces = refl

parse_pipe_command_example :
    Means (codes "cat |  filter") (parse_pipe_command (codes "cat |  filter"))
parse_pipe_command_example = parse_pipe_command_lem (codes "cat |  filter")

cat_to_filter : parse_pipe_command (codes "cat |  filter") ≡ both (codes "cat") (codes "filter")
unfolding parse_pipe_command
cat_to_filter = refl

no_right_side : parse_pipe_command (codes "cat | ") ≡ invalid
unfolding parse_pipe_command
no_right_side = refl

in_background : read_command (codes "cat|wc  &") ≡ piped (codes "cat") (codes "wc") true
unfolding read_command
in_background = refl

round-Sparing_example : Sparing 2 (round (line (codes "kill all")))
round-Sparing_example = round-Sparing 2 (line (codes "kill all"))

minus_seven : satoi (codes "-7") ≡ 18446744073709551609
unfolding satoi
minus_seven = refl

any_case : strcasecmp (codes "Increase") (codes "inCREase") ≡ 0
unfolding strcasecmp
any_case = refl
