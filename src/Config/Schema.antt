-- ===== src/Config/Schema.antt =====
-- src/config/schema.rs: which configurations are usable, and what the user is warned of.
pub mod Sound
use obsctl_rs.Prelude.{
  is_some, ℕ, ◌+◌, Bool, true, false, not, ◌&&◌, ◌||◌, Option, none, some, List, [], ◌∷◌, ◌++◌, map,
  Result, ok, err, map_err, ltb, any, to_option, filter_map, retain, if◌then◌else◌, ◌>>=◌, ◌>>◌,
  ◌==◌, list_eq, nat_eq,
}
use obsctl_rs.Text.{Text, text, is_empty, to_ascii_lowercase}
use obsctl_rs.Volume.{Floats}
use obsctl_rs.Sets.{contains, collect}
use obsctl_rs.Errors.{
  ValidationError, ObsctlError, config_invalid, ResourceKind, scene, audio_input, Message,
  unsupported_version, bad_refresh_interval, bad_max_delay, bad_multiplier, bad_password, bad_port,
  bad_connect_timeout, bad_request_timeout, host_control_or_whitespace, host_separator, host_blank,
  host_too_long, bad_scene_name, bad_audio_name, bad_profile_name, bad_hidden_scene,
  duplicate_profile,
}
use obsctl_rs.Names.{checked_name, normalized_name, validate_no_control_or_whitespace}
use obsctl_rs.Aliases.{ensure_unique_aliases_and_shortcuts}
use obsctl_rs.Palette.{is_supported_palette_prefix}
use obsctl_rs.Password.{Environment, resolve_connection_password}
use obsctl_rs.Config.{
  Config, ConnectionConfig, ReconnectConfig, UiConfig, SceneConfig, SceneProfileConfig,
  AudioInputConfig, active_profile,
}

-- `ValidationWarning`, one constructor per `format!`.
pub data Warning : Type 0 where
  unsupported_prefix : Text → Warning
  unsupported_locale : Text → Warning
  plaintext_password : Warning
  password_env_not_set : Text → Warning
  undefined_profile : Text → Warning
  unknown_hidden_scene : Text → Text → Warning

abbrev pub Check : Type 0
Check = Result ObsctlError (Unit {0})

-- The code's `if ... { return Err(...) }`.
unfoldable pub refuse_if : Bool → Message → Check
refuse_if bad message = if bad then err (config_invalid message) else ok tt

-- A `for` loop whose body may fail.
unfoldable pub check_all : {A : Type 0} → (A → Check) → List A → Check
check_all check [] = ok tt
check_all check (x ∷ xs) = do check x; check_all check xs

unfoldable pub warn_if : Bool → Warning → List Warning
warn_if bad warning = if bad then warning ∷ [] else []

unfoldable pub validate_version : ℕ → Check
validate_version version = refuse_if (not (version == 1)) (unsupported_version version)

-- `str::len`, which counts the bytes of the UTF-8 encoding.
unfoldable pub utf8_width : ℕ → ℕ
utf8_width c = if ltb c 0x80 then 1 else if ltb c 0x800 then 2 else if ltb c 0x10000 then 3 else 4

unfoldable pub utf8_len : Text → ℕ
utf8_len [] = 0
utf8_len (c ∷ cs) = utf8_width c + utf8_len cs

unfoldable pub is_separator : ℕ → Bool
is_separator c = c == b'/' || c == b'\\' || c == b':' || c == b'@'

unfoldable pub validate_connection_host : Text → Check
validate_connection_host host = do
  map_err (λ e. config_invalid host_control_or_whitespace) (validate_no_control_or_whitespace host)
  refuse_if (any is_separator host) host_separator
  refuse_if (is_empty host) host_blank
  refuse_if (ltb 253 (utf8_len host)) host_too_long

unfoldable pub validate_connection_config : {F : Type 0} → ConnectionConfig F → Check
validate_connection_config config = do
  validate_connection_host config.host
  refuse_if (config.port == 0) bad_port
  refuse_if (config.connect_timeout_ms == 0) bad_connect_timeout
  refuse_if (config.request_timeout_ms == 0) bad_request_timeout

-- `checked_name(..).map_err(..)?` of one name.
unfoldable pub check_name : (ValidationError → Message) → Text → Check
check_name message name = do map_err (λ e. config_invalid (message e)) (checked_name name); ok tt

unfoldable pub check_profile : SceneProfileConfig → Check
check_profile profile = do
  check_name bad_profile_name profile.name
  check_all (check_name (bad_hidden_scene profile.name)) profile.hidden

unfoldable pub validate_resource_names : {F : Type 0} → Config F → Check
validate_resource_names config = do
  check_all (λ s. check_name bad_scene_name s.name) config.scenes
  check_all (λ i. check_name bad_audio_name i.name) config.audio.inputs
  check_all check_profile config.scene_profiles

abbrev pub supported_locales : List Text
unfolding text
supported_locales = text "en" ∷ text "uk" ∷ []

unfoldable pub locale_warnings : Option Text → List Warning
locale_warnings none = []
locale_warnings (some locale) =
    warn_if (not (any (λ l. l == to_ascii_lowercase locale) supported_locales))
      (unsupported_locale locale)

unfoldable pub validate_ui_config : UiConfig → Result ObsctlError (List Warning)
validate_ui_config ui = do
  refuse_if (ui.refresh_interval_ms == 0) bad_refresh_interval
  ok (
      warn_if (not (is_supported_palette_prefix ui.command_palette_prefix))
        (unsupported_prefix ui.command_palette_prefix)
      ++ locale_warnings ui.locale)

unfoldable pub validate_reconnect_config : {F : Type 0} → Floats F → ReconnectConfig F → Check
validate_reconnect_config f reconnect = do
  refuse_if (ltb reconnect.max_delay_ms reconnect.initial_delay_ms) bad_max_delay
  refuse_if (f.lt reconnect.multiplier (f.from_integer 1)) bad_multiplier

unfoldable pub validate_password_config :
    {F : Type 0} → Environment → ConnectionConfig F → Result ObsctlError (List Warning)
validate_password_config env connection = do
  resolved ←
      map_err (λ e. config_invalid (bad_password e))
        (resolve_connection_password env connection.password connection.password_env)
  ok (
      warn_if (is_some connection.password) plaintext_password
      ++ warn_if
          (not (is_empty connection.password_env)
            && not (is_some connection.password)
            && not (is_some resolved))
          (password_env_not_set connection.password_env))

unfoldable pub validate_no_duplicate_aliases : {F : Type 0} → Config F → Check
validate_no_duplicate_aliases config = do
  ensure_unique_aliases_and_shortcuts scene (map (λ s. (s.alias, s.shortcut)) config.scenes)
  ensure_unique_aliases_and_shortcuts audio_input
      (map (λ i. (i.alias, i.shortcut)) config.audio.inputs)

-- The loop over the names that were seen.
unfoldable pub distinct_profiles : List Text → List SceneProfileConfig → Check
distinct_profiles seen [] = ok tt
distinct_profiles seen (profile ∷ profiles) = elim (normalized_name profile.name) [
  | err e ↦ distinct_profiles seen profiles
  | ok normalized ↦
      if contains seen normalized
      then err (config_invalid (duplicate_profile profile.name))
      else distinct_profiles (normalized ∷ seen) profiles
]

unfoldable pub undefined_warnings : {F : Type 0} → Config F → Option Text → List Warning
undefined_warnings config none = []
undefined_warnings config (some active) =
    warn_if (not (is_some (active_profile config))) (undefined_profile active)

unfoldable pub is_known : List Text → Text → Bool
is_known configured_scenes name = elim (normalized_name name) [
  | ok normalized ↦ contains configured_scenes normalized
  | err e ↦ false
]

unfoldable pub hidden_warnings : List Text → List SceneProfileConfig → List Warning
hidden_warnings configured_scenes [] = []
hidden_warnings configured_scenes (profile ∷ profiles) =
    map (unknown_hidden_scene profile.name)
      (retain (λ s. not (is_known configured_scenes s)) profile.hidden)
    ++ hidden_warnings configured_scenes profiles

unfoldable pub validate_scene_profiles : {F : Type 0} → Config F → Result ObsctlError (List Warning)
validate_scene_profiles config = do
  distinct_profiles [] config.scene_profiles
  ok (
      undefined_warnings config config.active_scene_profile
      ++ (if is_empty config.scenes
          then []
          else hidden_warnings
              (collect (filter_map (λ s. to_option (normalized_name s.name)) config.scenes))
              config.scene_profiles))

-- The check on the socket path is given: it reads the environment and the file system.
module _ {F : Type 0} (f : Floats F) (env : Environment) (socket_path : Option Text → Check) where
  unfoldable pub validate : Config F → Result ObsctlError (List Warning)
  validate config = do
    validate_version config.version
    validate_connection_config config.connection
    validate_resource_names config
    ui ← validate_ui_config config.ui
    validate_reconnect_config f config.reconnect
    socket_path config.server.socket_path
    password ← validate_password_config env config.connection
    validate_no_duplicate_aliases config
    profiles ← validate_scene_profiles config
    ok (ui ++ password ++ profiles)
