-- ===== src/Shell/Arguments.antt =====
-- Userland/Shell/shell.c: parse_arguments, over a memory that is a function of the address.
pub mod Fields
use tp2_sistemas_operativos.Prelude.{ℕ, zero, suc, List, [], ◌∷◌, ◌++◌, Option, none, some}
use tp2_sistemas_operativos.Strings.Token.{Tokens, strtok}

abbrev pub max_args : ℕ
max_args = 64

abbrev pub space : List ℕ
space = b' ' ∷ []

-- `room` is `MAX_ARGS - *argc`, and the list holds the first `*argc` entries of `argv`. The entry
-- behind them, which is set to NULL at the end, is not kept: for an `*argc` of 64 it lies outside.
unfoldable pub collect : ℕ → ℕ → List ℕ → Option (Option ℕ × Tokens) → Option (List ℕ × Tokens)
collect fuel room argv none = none
collect fuel zero argv (some (token, t)) = some (argv, t)
collect fuel (suc room) argv (some (none, t)) = some (argv, t)
collect fuel (suc room) argv (some (some token, t)) =
    collect fuel room (argv ++ token ∷ []) (strtok fuel none space t)

unfoldable pub parse_arguments : ℕ → ℕ → Tokens → Option (List ℕ × Tokens)
parse_arguments fuel buffer t = collect fuel max_args [] (strtok fuel (some buffer) space t)
