-- ===== src/Tokens.antt =====
-- `tokenize` of src/domain/parser.rs, and `quote_argument` of src/tui/completion.rs, which writes a
-- candidate back into the command line.
pub mod Quote
use obsctl_rs.Prelude.{
  ℕ, Bool, true, false, not, ◌&&◌, ◌||◌, Option, none, some, List, [], ◌∷◌, ◌++◌, Result, ok, err,
  any, if◌then◌else◌, ◌==◌, nat_eq,
}
use obsctl_rs.Text.{Text, is_whitespace, is_empty, trim_end}
use obsctl_rs.Errors.{ObsctlError, command_parse_error, unterminated_quote}

pub record Token : Type 0 where
  pub text : Text
  pub quoted : Bool

-- The variables of the loop in `tokenize`.
pub record Lexer : Type 0 where
  pub tokens : List Token
  pub current : Text
  pub current_quoted : Bool
  pub open_quote : Option ℕ

unfoldable pub is_quote : ℕ → Bool
is_quote c = c == b'"' || c == b'\''

abbrev pub is_open : Option ℕ → Bool
is_open none = false
is_open (some q) = true

unfoldable pub push : ℕ → Lexer → Lexer
push c s = record s { current = s.current ++ c ∷ [] }

unfoldable pub on_quote : ℕ → Lexer → Lexer
on_quote c s = elim s.open_quote [
  | some q ↦ if q == c then record s { open_quote = none; current_quoted = true } else push c s
  | none ↦ record s { open_quote = some c; current_quoted = true }
]

-- The current token is finished, if there is one.
unfoldable pub finish_token : Lexer → Lexer
finish_token s = if is_empty s.current then s else record s {
  tokens = s.tokens ++ record { text = s.current; quoted = s.current_quoted } ∷ [];
  current = [];
  current_quoted = false;
}

unfoldable pub is_escape : ℕ → Lexer → Bool
is_escape c s = c == b'\\' && is_open s.open_quote

-- What the loop does on a character, less the one that an escape takes after it.
unfoldable pub on_char : ℕ → Lexer → Lexer
on_char c s =
    if is_quote c
    then on_quote c s
    else if is_escape c s
    then s
    else if (c == b' ' || c == b'\t') && not (is_open s.open_quote)
    then finish_token s
    else push c s

unfoldable pub lex : Text → Lexer → Lexer
lex [] s = s
lex (c ∷ []) s = on_char c s
lex (c ∷ next ∷ rest) s = elim (is_escape c s) [
  | true ↦ lex rest (push next s)
  | false ↦ lex (next ∷ rest) (on_char c s)
]

abbrev pub start : Lexer
start = record { tokens = []; current = []; current_quoted = false; open_quote = none }

unfoldable pub tokenize : Text → Result ObsctlError (List Token)
tokenize input =
    let s = lex input start in
    if is_open s.open_quote
    then err (command_parse_error unterminated_quote)
    else ok (finish_token s).tokens

-- `str::replace` of a character.
unfoldable pub replace : ℕ → Text → Text → Text
replace c by [] = []
replace c by (x ∷ xs) = (if x == c then by else x ∷ []) ++ replace c by xs

unfoldable pub needs_quotes : ℕ → Bool
needs_quotes c = is_whitespace c || c == b'"' || c == b'\'' || c == b'\\'

unfoldable pub quote_argument : Text → Text
quote_argument name =
    if any needs_quotes name
    then b'"' ∷ replace b'"' (b'\\' ∷ b'"' ∷ []) (replace b'\\' (b'\\' ∷ b'\\' ∷ []) name)
      ++ b'"' ∷ []
    else name

-- The completed line of a command, as it was typed, with one argument.
unfoldable pub completion : Text → Text → Text
completion cmd candidate = cmd ++ b' ' ∷ quote_argument candidate

-- A candidate of `complete_argument`: what was typed as the prefix and the command, and the name.
unfoldable pub complete_candidate : Text → Text → Text → Text
complete_candidate prefix typed_cmd candidate = completion (prefix ++ trim_end typed_cmd) candidate
