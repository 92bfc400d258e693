-- ===== src/Config/Tests.antt =====
-- The theorems about the configuration at a small configuration.
use obsctl_rs.Prelude.{
  ℕ, ◌≡◌, ◌++◌, refl, Bool, true, false, Option, none, some, List, [], ◌∷◌, ok, any, find, retain,
  all, filter_map,
}
use obsctl_rs.Text.{Text, text, is_control, is_whitespace, trim, to_ascii_lowercase}
use obsctl_rs.Names.{
  trim_and_validate_token_with_max_len, checked_name, normalized_name,
  validate_no_control_or_whitespace, validate_no_control_characters,
}
use obsctl_rs.Names.Laws.{IsPadding}
use obsctl_rs.Sets.{contains, collect, collect_from, insert}
use obsctl_rs.Aliases.{
  ensure_unique_aliases_and_shortcuts, ensure_unique_from, claim, normalize_alias_or_shortcut,
}
use obsctl_rs.Visibility.{ActiveSceneProfile, named, resolve, is_hidden, SceneVisibility}
use obsctl_rs.Visibility.Laws.{asked_to_hide, is_hidden-resolve, is_hidden-pad}
use obsctl_rs.Password.{
  Environment, present, not_present, read_env_value, check_value, read_password_env_value,
  check_plaintext, env_password, prefer, resolve_connection_password,
}
use obsctl_rs.Password.Laws.{IsPassword, resolve_connection_password-IsPassword}
use obsctl_rs.Config.{Config, answers_to, find_profile, active_profile}
use obsctl_rs.Config.Schema.{
  Warning, Check, refuse_if, check_all, warn_if, validate_version, utf8_width, utf8_len,
  is_separator, validate_connection_host, validate_connection_config, check_name, check_profile,
  validate_resource_names, locale_warnings, validate_ui_config, validate_reconnect_config,
  validate_password_config, validate_no_duplicate_aliases, distinct_profiles, undefined_warnings,
  is_known, hidden_warnings, validate_scene_profiles, validate,
}
use obsctl_rs.Config.Schema.Sound.{IsWellFormed, validate-IsWellFormed}
use obsctl_rs.Server.Store.Tests.{floats}

abbrev pub env : Environment
env name = not_present

abbrev pub any_path : Option Text → Check
any_path path = ok tt

abbrev pub config : Config ℕ
config = record {
  version = 1;
  server = record {
    socket_path = none;
    pid_file = none;
    allow_remote_shutdown = false;
    start_embedded_if_missing = true;
  };
  connection = record {
    host = text "localhost";
    port = 4455;
    password_env = [];
    connect_timeout_ms = 5000;
    request_timeout_ms = 5000;
    password = some (text "secret");
    reconnect = none;
  };
  reconnect = record {
    enabled = true;
    endless = true;
    initial_delay_ms = 500;
    max_delay_ms = 10000;
    multiplier = 2;
    jitter_ms = 100;
  };
  ui = record {
    refresh_interval_ms = 250;
    command_palette_prefix = text "/";
    mouse = true;
    advanced_ui = true;
    show_icons = true;
    theme = [];
    custom_theme = none;
    locale = none;
  };
  scenes =
      record {
        name = text "Main";
        alias = some (text "cam");
        shortcut = none;
        group = none;
        stale = false;
        hidden = false;
      }
      ∷ record {
        name = text "main";
        alias = none;
        shortcut = some (text "m");
        group = none;
        stale = false;
        hidden = true;
      }
      ∷ [];
  scene_profiles = record { name = text "Show"; hidden = text "Main" ∷ [] } ∷ [];
  active_scene_profile = some (text "show");
  audio = record {
    inputs =
        record { name = text "Mic"; alias = none; shortcut = none; kind = []; stale = false } ∷ [];
  };
  keymap = record { quit = []; command_palette = []; reload_config = []; dump_config = [] };
}

abbrev warnings : List Warning
warnings = Warning.plaintext_password ∷ []

-- What a run of the check unfolds.
unfoldable running : ℕ
unfolding any all find retain filter_map text is_control is_whitespace trim to_ascii_lowercase
    trim_and_validate_token_with_max_len checked_name normalized_name
    validate_no_control_or_whitespace validate_no_control_characters contains collect collect_from
    insert ensure_unique_aliases_and_shortcuts ensure_unique_from claim normalize_alias_or_shortcut
    read_env_value check_value read_password_env_value check_plaintext env_password prefer
    resolve_connection_password answers_to find_profile active_profile refuse_if check_all warn_if
    validate_version utf8_width utf8_len is_separator validate_connection_host
    validate_connection_config check_name check_profile validate_resource_names locale_warnings
    validate_ui_config validate_reconnect_config validate_password_config
    validate_no_duplicate_aliases distinct_profiles undefined_warnings is_known hidden_warnings
    validate_scene_profiles validate obsctl_rs.Palette.is_supported_palette_prefix
running = 0

checked : validate floats env any_path config ≡ ok warnings
unfolding running
checked = refl

spaces-IsPadding : IsPadding (text " ")
unfolding running
spaces-IsPadding = record { white = refl; printable = refl }

validate-IsWellFormed_example : IsWellFormed config
validate-IsWellFormed_example = validate-IsWellFormed floats env any_path config warnings checked

abbrev baseline : List (Text × Bool)
baseline = (text "Main", true) ∷ (text "BRB", false) ∷ []

abbrev active : ActiveSceneProfile
active = named (text "BRB" ∷ [])

is_hidden-resolve_example :
    is_hidden (resolve baseline active) (text "brb") ≡ asked_to_hide baseline active (text "brb")
is_hidden-resolve_example = is_hidden-resolve baseline active (text "brb")

abbrev hides_brb : SceneVisibility
hides_brb = record { hidden = text "brb" ∷ [] }

is_hidden-pad_example :
    is_hidden hides_brb (text " " ++ (to_ascii_lowercase (text "BRB") ++ text " "))
    ≡ is_hidden hides_brb (text "BRB")
is_hidden-pad_example =
    is_hidden-pad hides_brb (text " ") (text "BRB") (text " ") spaces-IsPadding spaces-IsPadding

abbrev has_secret : Environment
has_secret name = present (text "secret")

secret-read : resolve_connection_password has_secret none (text "OBS") ≡ ok (some (text "secret"))
unfolding running obsctl_rs.Names.validate_env_var_name obsctl_rs.Names.starts_env_name
    obsctl_rs.Names.continues_env_name obsctl_rs.Text.is_ascii_alphabetic
    obsctl_rs.Text.is_ascii_alphanumeric
secret-read = refl

resolve_connection_password-IsPassword_example : IsPassword (some (text "secret"))
resolve_connection_password-IsPassword_example =
    resolve_connection_password-IsPassword has_secret none (text "OBS") (some (text "secret"))
      secret-read
