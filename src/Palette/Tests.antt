-- ===== src/Palette/Tests.antt =====
-- Runs of the palette's parser, and the theorems about it at concrete lines.
use obsctl_rs.Prelude.{
  ℕ, ◌≡◌, refl, Bool, true, false, Option, none, some, List, [], ◌∷◌, ◌++◌, ok, err, any, all, find,
  arith,
}
use obsctl_rs.Text.{Text, text, is_whitespace, is_control, is_ascii_digit, trim, to_ascii_lowercase}
use obsctl_rs.Errors.{command_parse_error, quoted_percent, percent_out_of_range, unterminated_quote}
use obsctl_rs.Numbers.{parse_unsigned}
use obsctl_rs.Names.{checked_name, normalized_name, trim_and_validate_token_with_max_len}
use obsctl_rs.Names.Laws.{IsName}
use obsctl_rs.Command.{set_scene, set_volume}
use obsctl_rs.Tokens.{
  tokenize, lex, on_char, on_quote, is_quote, is_escape, push, finish_token, needs_quotes,
  completion, complete_candidate,
}
use obsctl_rs.Tokens.Quote.{quoted_token, tokenize-completion}
use obsctl_rs.Palette.{
  palette_commands, is_palette_prefix, is_spelled, trim_prefixes, sanitize_target,
  normalize_command_name, target_of, one_target, find_spec, build_checked, dispatch, parse_tokens,
  parse, parse_volume_percent, set_volume_of, build_set_volume,
}
use obsctl_rs.Palette.Safe.{IsSafe, parse-IsSafe}
use obsctl_rs.Palette.Complete.{one_argument, parse-completion}

-- What a run of the parser unfolds.
unfoldable running : ℕ
unfolding any find text is_whitespace is_control is_ascii_digit trim to_ascii_lowercase
    parse_unsigned obsctl_rs.Numbers.parse_digits obsctl_rs.Numbers.digits_value checked_name
    normalized_name trim_and_validate_token_with_max_len tokenize lex on_char on_quote is_quote
    is_escape push finish_token needs_quotes palette_commands is_palette_prefix is_spelled
    trim_prefixes sanitize_target normalize_command_name target_of one_target find_spec
    build_checked dispatch parse_tokens parse parse_volume_percent set_volume_of build_set_volume
    one_argument
running = 0

by_alias : parse (text " :Set-Scene 'Cam \"A\"' ") ≡ some (ok (set_scene (text "Cam \"A\"")))
unfolding running
by_alias = refl

volumes :
    (parse (text "vol mic 070") ≡ some (ok (set_volume (text "mic") 70)))
    × (parse (text "vol mic 101") ≡ some (err (command_parse_error (percent_out_of_range 101))))
    × (parse (text "vol mic \"7\"0") ≡ some (err (command_parse_error quoted_percent)))
    × (parse (text "scene \"Cam") ≡ some (err (command_parse_error unterminated_quote)))
unfolding running obsctl_rs.Prelude.all
volumes = (refl, refl, refl, refl)

-- An empty pair of quotes makes no token, but its mark stays for the next one.
empty_quotes : parse (text "vol mic \"\" 70") ≡ some (err (command_parse_error quoted_percent))
unfolding running
empty_quotes = refl

abbrev cam : Text
cam = text "Cam \"1\""

cam-IsName : IsName cam
unfolding running
cam-IsName = record { plain = refl; trimmed = refl; present = refl; short = omega arith }

tokenize-completion_example :
    tokenize (completion (text "scene") cam)
    ≡ ok (record { text = text "scene"; quoted = false } ∷ quoted_token cam ∷ [])
unfolding running
tokenize-completion_example = tokenize-completion (text "scene") cam refl refl refl

colon-all : all is_palette_prefix (text ":") ≡ true
unfolding all any is_palette_prefix text
colon-all = refl

parse-completion_example :
    parse (complete_candidate (text ":") (text "scene") cam) ≡ some (ok (set_scene cam))
unfolding one_argument
parse-completion_example =
    parse-completion (text ":") (text "scene") cam set_scene colon-all (0, refl) cam-IsName

parse-IsSafe_example : IsSafe (parse (text "vol"))
parse-IsSafe_example = parse-IsSafe (text "vol")
