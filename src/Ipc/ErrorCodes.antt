-- ===== src/Ipc/ErrorCodes.antt =====
-- src/ipc/protocol.rs: the public error codes, and the exit codes of clients that receive them.
pub mod Exits
use obsctl_rs.Prelude.{
  ℕ, ◌≡◌, ap, sym, ◌∙◌, refl, Bool, true, false, Option, none, some, List, [], ◌∷◌, find, get_elem?,
  PartialEq, ◌==◌, list_eq, nat_eq, same_nat, same_nat_iff, unwrap_or, map_some,
}
use obsctl_rs.Text.{Text, text}
use obsctl_rs.Errors.{ObsctlError}

-- `PublicErrorCode`.
pub data Code : Type 0 where
  config_invalid server_unavailable obs_unavailable request_timeout : Code
  obs_request_failed scene_not_found audio_input_not_found profile_not_found : Code
  scene_collection_not_found alias_ambiguous command_parse_error ipc_timeout : Code
  ipc_protocol_error shutdown_disabled server_error : Code

-- `ErrorCodeSpec`.
pub record CodeSpec : Type 0 where
  pub code : Code
  pub wire : Text
  pub exit_code : ℕ

abbrev code_row : Code → Text → ℕ → CodeSpec
code_row code wire exit_code = record { code = code; wire = wire; exit_code = exit_code }

-- `ERROR_CODES`.
abbrev pub error_codes : List CodeSpec
error_codes =
    code_row config_invalid (text "CONFIG_INVALID") 2
    ∷ code_row server_unavailable (text "SERVER_UNAVAILABLE") 3
    ∷ code_row obs_unavailable (text "OBS_UNAVAILABLE") 4
    ∷ code_row request_timeout (text "REQUEST_TIMEOUT") 4
    ∷ code_row obs_request_failed (text "OBS_REQUEST_FAILED") 4
    ∷ code_row scene_not_found (text "SCENE_NOT_FOUND") 4
    ∷ code_row audio_input_not_found (text "AUDIO_INPUT_NOT_FOUND") 4
    ∷ code_row profile_not_found (text "PROFILE_NOT_FOUND") 4
    ∷ code_row scene_collection_not_found (text "SCENE_COLLECTION_NOT_FOUND") 4
    ∷ code_row alias_ambiguous (text "ALIAS_AMBIGUOUS") 1
    ∷ code_row command_parse_error (text "COMMAND_PARSE_ERROR") 5
    ∷ code_row ipc_timeout (text "IPC_TIMEOUT") 6
    ∷ code_row ipc_protocol_error (text "IPC_PROTOCOL_ERROR") 6
    ∷ code_row shutdown_disabled (text "SHUTDOWN_DISABLED") 1
    ∷ code_row server_error (text "SERVER_ERROR") 1
    ∷ []

-- The derived `PartialEq`: the place of a constructor among the others.
abbrev pub code_place : Code → ℕ
code_place config_invalid = 0
code_place server_unavailable = 1
code_place obs_unavailable = 2
code_place request_timeout = 3
code_place obs_request_failed = 4
code_place scene_not_found = 5
code_place audio_input_not_found = 6
code_place profile_not_found = 7
code_place scene_collection_not_found = 8
code_place alias_ambiguous = 9
code_place command_parse_error = 10
code_place ipc_timeout = 11
code_place ipc_protocol_error = 12
code_place shutdown_disabled = 13
code_place server_error = 14

code_at : Code → Option Code
code_at code = map_some (λ (s : CodeSpec). s.code) (get_elem? error_codes (code_place code))

code_at_self : (c : Code) → code_at c ≡ some c
unfolding code_at
code_at_self config_invalid = refl
code_at_self server_unavailable = refl
code_at_self obs_unavailable = refl
code_at_self request_timeout = refl
code_at_self obs_request_failed = refl
code_at_self scene_not_found = refl
code_at_self audio_input_not_found = refl
code_at_self profile_not_found = refl
code_at_self scene_collection_not_found = refl
code_at_self alias_ambiguous = refl
code_at_self command_parse_error = refl
code_at_self ipc_timeout = refl
code_at_self ipc_protocol_error = refl
code_at_self shutdown_disabled = refl
code_at_self server_error = refl

pub code_place_injective : (a b : Code) → code_place a ≡ code_place b → a ≡ b
unfolding code_at
code_place_injective a b h =
    let e : some a ≡ some b = sym (code_at_self a) ∙ rw (h, code_at) refl ∙ code_at_self b in cc e

instance abbrev pub code_eq : PartialEq Code
code_eq = record {
  same = λ a b. same_nat (code_place a) (code_place b);
  sound = λ a b. (
    λ h. code_place_injective a b ((same_nat_iff (code_place a) (code_place b)).0 h),
    λ e. (same_nat_iff (code_place a) (code_place b)).1 (ap code_place e),
  );
}

-- `PublicErrorCode::spec`; the last row stands where `expect` would panic.
unfoldable pub code_spec : Code → CodeSpec
code_spec code = unwrap_or (find (λ s. s.code == code) error_codes) (code_row server_error [] 0)

unfoldable pub as_str : Code → Text
as_str code = (code_spec code).wire

unfoldable pub exit_code : Code → ℕ
exit_code code = (code_spec code).exit_code

unfoldable pub parse_code : Text → Option Code
parse_code wire = map_some (λ s. s.code) (find (λ s. s.wire == wire) error_codes)

-- `PublicErrorCode::from_obsctl_error`, which `public_error_code` calls.
unfoldable pub public_error_code : ObsctlError → Code
public_error_code (ObsctlError.config_not_found _) = config_invalid
public_error_code (ObsctlError.config_invalid _) = config_invalid
public_error_code (ObsctlError.server_unavailable _ _) = server_unavailable
public_error_code (ObsctlError.ipc_connection_failed _) = server_unavailable
public_error_code (ObsctlError.ipc_protocol_error _) = ipc_protocol_error
public_error_code (ObsctlError.ipc_timeout _) = ipc_timeout
public_error_code (ObsctlError.connection_failed _) = obs_unavailable
public_error_code ObsctlError.authentication_failed = obs_unavailable
public_error_code ObsctlError.obs_unavailable = obs_unavailable
public_error_code ObsctlError.request_timeout = request_timeout
public_error_code (ObsctlError.obs_request_failed _) = obs_request_failed
public_error_code (ObsctlError.scene_not_found _) = scene_not_found
public_error_code (ObsctlError.audio_input_not_found _) = audio_input_not_found
public_error_code (ObsctlError.profile_not_found _) = profile_not_found
public_error_code (ObsctlError.scene_collection_not_found _) = scene_collection_not_found
public_error_code (ObsctlError.alias_ambiguous _) = alias_ambiguous
public_error_code (ObsctlError.command_parse_error _) = command_parse_error
public_error_code ObsctlError.shutdown_disabled = shutdown_disabled
public_error_code (ObsctlError.dump_config_failed _) = server_error
public_error_code (ObsctlError.service_install_failed _) = server_error
public_error_code (ObsctlError.io _) = server_error

unfoldable pub exit_code_for_public_error_code : Text → ℕ
exit_code_for_public_error_code code = unwrap_or (map_some exit_code (parse_code code)) 1
