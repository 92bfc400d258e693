-- ===== src/Palette.antt =====
-- src/domain/parser.rs: the palette's table of commands and `parse`. An index out of range is a panic,
-- which is `none` here.
pub mod Safe
pub mod Complete
pub mod Tests
use obsctl_rs.Prelude.{
  ℕ, ◌%◌, ◌^◌, Bool, true, false, not, ◌||◌, Option, none, some, List, [], ◌∷◌, Result, ok, err,
  map_err, map_ok, ltb, any, find, length, if◌then◌else◌, ◌>>=◌, ◌==◌, nat_eq, list_eq, map,
}
use obsctl_rs.Text.{Text, text, trim, is_empty, to_ascii_lowercase}
use obsctl_rs.Errors.{
  ObsctlError, command_parse_error, empty_command, unknown_command, wrong_arity, quoted_percent,
  not_an_integer, percent_out_of_range, bad_target, bad_command,
}
use obsctl_rs.Names.{checked_name, normalized_name}
use obsctl_rs.Numbers.{u64_limit, parse_unsigned}
use obsctl_rs.Command.{
  Command, help, quit, themes, dump_config, reload_config, status, server_status, obs_status,
  validate_config, reconnect, connect, shutdown_server, set_scene, set_profile,
  set_scene_collection, set_scene_profile, clear_scene_profile, delete_scene_profile, mute, unmute,
  toggle_mute, set_volume, toggle_stream, toggle_record,
}
use obsctl_rs.Tokens.{Token, tokenize}

abbrev pub palette_prefixes : List ℕ
palette_prefixes = b'/' ∷ b':' ∷ []

abbrev pub default_palette_prefix : ℕ
default_palette_prefix = b'/'

unfoldable pub is_palette_prefix : ℕ → Bool
is_palette_prefix c = any (λ p. p == c) palette_prefixes

unfoldable pub is_supported_palette_prefix : Text → Bool
is_supported_palette_prefix value = any (λ c. value == c ∷ []) palette_prefixes

unfoldable pub palette_prefix_or_default : Text → ℕ
palette_prefix_or_default [] = default_palette_prefix
palette_prefix_or_default (c ∷ cs) = if is_palette_prefix c then c else default_palette_prefix

-- `trim_start_matches(PALETTE_PREFIXES)`.
unfoldable pub trim_prefixes : Text → Text
trim_prefixes [] = []
trim_prefixes (c ∷ cs) = if is_palette_prefix c then trim_prefixes cs else c ∷ cs

pub data ArgumentKind : Type 0 where
  no_argument scene profile scene_profile scene_collection audio_input : ArgumentKind

abbrev pub Parsed : Type 0
Parsed = Result ObsctlError Command

pub record PaletteCommandSpec : Type 0 where
  pub canonical : Text
  pub aliases : List Text
  pub arity : ℕ
  pub argument : ArgumentKind
  pub build : List Token → Option Parsed

unfoldable pub sanitize_target : Text → Result ObsctlError Text
sanitize_target value = map_err (λ e. command_parse_error (bad_target e)) (checked_name value)

unfoldable pub normalize_command_name : Text → Result ObsctlError Text
normalize_command_name value =
    map_err (λ e. command_parse_error (bad_command e)) (normalized_name value)

-- `target_of`, and the command that is made of the target.
unfoldable pub target_of : List Token → Option (Result ObsctlError Text)
target_of [] = none
target_of (first ∷ args) = some (sanitize_target first.text)

unfoldable pub one_target : (Text → Command) → List Token → Option Parsed
one_target make args = elim (target_of args) [ none ↦ none | some r ↦ some (map_ok make r) ]

unfoldable pub parse_volume_percent : Text → Result ObsctlError ℕ
parse_volume_percent value =
    if not (trim value == value)
    then err (command_parse_error (not_an_integer value))
    else elim (parse_unsigned u64_limit value) [
      | none ↦ err (command_parse_error (not_an_integer value))
      | some parsed ↦
          if ltb 100 parsed
          then err (command_parse_error (percent_out_of_range parsed))
          else ok (parsed % 2 ^ 8)
    ]

unfoldable pub set_volume_of : Token → Token → Parsed
set_volume_of target percent =
    if percent.quoted then err (command_parse_error quoted_percent) else do
      level ← parse_volume_percent percent.text
      name ← sanitize_target target.text
      ok (set_volume name level)

unfoldable pub build_set_volume : List Token → Option Parsed
build_set_volume [] = none
build_set_volume (target ∷ []) = none
build_set_volume (target ∷ percent ∷ args) = some (set_volume_of target percent)

abbrev pub spec :
    Text → List Text → ℕ → ArgumentKind → (List Token → Option Parsed) → PaletteCommandSpec
spec canonical aliases arity argument build = record {
  canonical = canonical;
  aliases = aliases;
  arity = arity;
  argument = argument;
  build = build;
}

unfoldable pub palette_commands : List PaletteCommandSpec
palette_commands =
    spec (text "help") [] 0 no_argument (λ args. some (ok help))
    ∷ spec (text "themes") (text "theme" ∷ text "settings" ∷ []) 0 no_argument
        (λ args. some (ok themes))
    ∷ spec (text "scene") (text "set-scene" ∷ []) 1 scene (one_target set_scene)
    ∷ spec (text "profile") (text "set-profile" ∷ []) 1 profile (one_target set_profile)
    ∷ spec (text "collection") (text "set-collection" ∷ text "scene-collection" ∷ []) 1
        scene_collection (one_target set_scene_collection)
    ∷ spec (text "scene-profile") (text "set-scene-profile" ∷ []) 1 scene_profile
        (one_target set_scene_profile)
    ∷ spec (text "scene-profile-off") (text "scene-profile-clear" ∷ []) 0 no_argument
        (λ args. some (ok clear_scene_profile))
    ∷ spec (text "scene-profile-delete") (text "delete-scene-profile" ∷ []) 1 scene_profile
        (one_target delete_scene_profile)
    ∷ spec (text "mute") [] 1 audio_input (one_target mute)
    ∷ spec (text "unmute") [] 1 audio_input (one_target unmute)
    ∷ spec (text "toggle-mute") [] 1 audio_input (one_target toggle_mute)
    ∷ spec (text "vol") (text "volume" ∷ []) 2 audio_input build_set_volume
    ∷ spec (text "stream") [] 0 no_argument (λ args. some (ok toggle_stream))
    ∷ spec (text "rec") (text "record" ∷ []) 0 no_argument (λ args. some (ok toggle_record))
    ∷ spec (text "status") [] 0 no_argument (λ args. some (ok status))
    ∷ spec (text "obs-status") [] 0 no_argument (λ args. some (ok obs_status))
    ∷ spec (text "server-status") [] 0 no_argument (λ args. some (ok server_status))
    ∷ spec (text "reload-config") [] 0 no_argument (λ args. some (ok reload_config))
    ∷ spec (text "dump-config") [] 0 no_argument (λ args. some (ok dump_config))
    ∷ spec (text "validate-config") [] 0 no_argument (λ args. some (ok validate_config))
    ∷ spec (text "reconnect") [] 0 no_argument (λ args. some (ok reconnect))
    ∷ spec (text "connect") [] 0 no_argument (λ args. some (ok connect))
    ∷ spec (text "shutdown-server") [] 0 no_argument (λ args. some (ok shutdown_server))
    ∷ spec (text "quit") (text "exit" ∷ []) 0 no_argument (λ args. some (ok quit))
    ∷ []

unfoldable pub canonical_palette_commands : List Text
canonical_palette_commands = map (λ s. s.canonical) palette_commands

-- Whether the row spells its name or one of its aliases so.
unfoldable pub is_spelled : Text → PaletteCommandSpec → Bool
is_spelled name s = s.canonical == name || any (λ a. a == name) s.aliases

unfoldable pub find_spec : Text → Option PaletteCommandSpec
find_spec name = find (is_spelled name) palette_commands

unfoldable pub argument_kind : Text → ArgumentKind
argument_kind name = elim (find_spec (to_ascii_lowercase name)) [
  | none ↦ no_argument
  | some s ↦ s.argument
]

unfoldable pub build_checked : List Token → PaletteCommandSpec → Option Parsed
build_checked args s =
    if not (length args == s.arity)
    then some (err (command_parse_error (wrong_arity s.canonical s.arity (length args))))
    else s.build args

unfoldable pub dispatch : Text → List Token → Option PaletteCommandSpec → Option Parsed
dispatch head args none = some (err (command_parse_error (unknown_command head)))
dispatch head args (some s) = build_checked args s

unfoldable pub parse_tokens : List Token → Option Parsed
parse_tokens [] = some (err (command_parse_error empty_command))
parse_tokens (head ∷ args) = elim (normalize_command_name head.text) [
  | ok name ↦ dispatch head.text args (find_spec name)
  | err e ↦ some (err e)
]

unfoldable pub parse : Text → Option Parsed
parse input =
    let rest = trim_prefixes (trim input) in
    if is_empty rest
    then some (err (command_parse_error empty_command))
    else elim (tokenize rest) [ ok tokens ↦ parse_tokens tokens | err e ↦ some (err e) ]
