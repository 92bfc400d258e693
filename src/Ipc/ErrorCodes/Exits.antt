-- ===== src/Ipc/ErrorCodes/Exits.antt =====
-- src/ipc/protocol.rs and src/domain/errors.rs: the exit code of a client against the exit code of a
-- local command.
use obsctl_rs.Prelude.{
  ℕ, ◌≡◌, true, any, refl, some, find, map, get_elem?, In, list_eq, nat_eq, Option-cases, inl, inr,
}
use obsctl_rs.Text.{text}
use obsctl_rs.Tables.{distinct, find-key}
use obsctl_rs.Errors.{ObsctlError}
use obsctl_rs.Errors
use obsctl_rs.Ipc.ErrorCodes.{
  Code, CodeSpec, error_codes, code_place, code_at, code_at_self, code_eq, code_spec, as_str,
  exit_code, parse_code, public_error_code, exit_code_for_public_error_code,
}

wires-distinct : distinct (map (λ (s : CodeSpec). s.wire) error_codes) ≡ true
unfolding distinct text any
wires-distinct = refl

codes-distinct : distinct (map (λ (s : CodeSpec). s.code) error_codes) ≡ true
unfolding distinct any
codes-distinct = refl

code_listed : (c : Code) → (s : CodeSpec) × In s error_codes × (s.code ≡ c)
unfolding code_at
code_listed c = elim (Option-cases (get_elem? error_codes (code_place c))) [
  | inl nothing ↦ cc (rw (nothing, code_at) at (code_at_self c))
  | inr (s, hit) ↦ (s, (code_place c, hit), cc (rw (hit, code_at) at (code_at_self c)))
]

-- The row that `spec` reads is the one of the code: its `expect` does not panic.
pub code_spec-found : (s : CodeSpec) → In s error_codes → code_spec s.code ≡ s
unfolding code_spec
code_spec-found s at = rw (find-key (λ (r : CodeSpec). r.code) error_codes s codes-distinct at) refl

-- A code is read back from its string.
pub parse_code-as_str : (c : Code) → parse_code (as_str c) ≡ some c
unfolding parse_code as_str
parse_code-as_str c =
    let (s, at, e) = code_listed c in
    let found = code_spec-found s at in
    let hit = find-key (λ (r : CodeSpec). r.wire) error_codes s wires-distinct at in
    rw (← e, as_str, found, hit) refl

-- The exit codes of the errors of a failed dial of OBS differ, those of all others agree.
unfoldable pub local_exit_code : ObsctlError → ℕ
local_exit_code (ObsctlError.connection_failed _) = 4
local_exit_code ObsctlError.authentication_failed = 4
local_exit_code e = Errors.exit_code e

codes_agree : (e : ObsctlError) → exit_code (public_error_code e) ≡ local_exit_code e
unfolding exit_code code_spec find public_error_code local_exit_code Errors.exit_code
codes_agree (ObsctlError.config_not_found _) = refl
codes_agree (ObsctlError.config_invalid _) = refl
codes_agree (ObsctlError.server_unavailable _ _) = refl
codes_agree (ObsctlError.ipc_connection_failed _) = refl
codes_agree (ObsctlError.ipc_protocol_error _) = refl
codes_agree (ObsctlError.ipc_timeout _) = refl
codes_agree (ObsctlError.connection_failed _) = refl
codes_agree ObsctlError.authentication_failed = refl
codes_agree ObsctlError.obs_unavailable = refl
codes_agree ObsctlError.request_timeout = refl
codes_agree (ObsctlError.obs_request_failed _) = refl
codes_agree (ObsctlError.scene_not_found _) = refl
codes_agree (ObsctlError.audio_input_not_found _) = refl
codes_agree (ObsctlError.profile_not_found _) = refl
codes_agree (ObsctlError.scene_collection_not_found _) = refl
codes_agree (ObsctlError.alias_ambiguous _) = refl
codes_agree (ObsctlError.command_parse_error _) = refl
codes_agree ObsctlError.shutdown_disabled = refl
codes_agree (ObsctlError.dump_config_failed _) = refl
codes_agree (ObsctlError.service_install_failed _) = refl
codes_agree (ObsctlError.io _) = refl

-- For every error, the exit code that a client gives for the error's public code string is the
-- error's own exit code, except for a failed connection to OBS and a failed authentication, where
-- it is 4.
pub exit_code_for-public_error_code :
    (e : ObsctlError)
    → exit_code_for_public_error_code (as_str (public_error_code e)) ≡ local_exit_code e
unfolding exit_code_for_public_error_code
exit_code_for-public_error_code e = rw (parse_code-as_str (public_error_code e)) (codes_agree e)
