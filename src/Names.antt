-- ===== src/Names.antt =====
-- src/domain/names.rs, and the checks on tokens of src/support/validation.rs that it stands on.
pub mod Laws
pub mod Tests
use obsctl_rs.Prelude.{
  ℕ, Bool, ◌&&◌, ◌||◌, Option, none, some, List, [], ◌∷◌, Result, ok, err, map_ok, ltb, any, all,
  length, if◌then◌else◌, ◌>>=◌, ◌>>◌, ◌==◌, nat_eq, not,
}
use obsctl_rs.Text.{
  Text, is_control, is_whitespace, is_ascii_alphabetic, is_ascii_alphanumeric, is_empty, trim,
  to_ascii_lowercase,
}
use obsctl_rs.Errors.{
  ValidationError, blank, control_characters, invalid_env_var_format, contains_whitespace,
  max_length_exceeded, ResourceKind, scene, audio_input, ObsctlError, scene_not_found,
  audio_input_not_found,
}

abbrev pub max_target_token_length : ℕ
max_target_token_length = 256

abbrev pub max_path_token_length : ℕ
max_path_token_length = 1024

unfoldable pub trim_and_validate_token_with_max_len : Text → ℕ → Result ValidationError Text
trim_and_validate_token_with_max_len value max_length =
    if any is_control value
    then err control_characters
    else let trimmed = trim value in
      if is_empty trimmed
      then err blank
      else if ltb max_length (length trimmed)
      then err (max_length_exceeded max_length)
      else ok trimmed

unfoldable pub checked_name : Text → Result ValidationError Text
checked_name value = trim_and_validate_token_with_max_len value max_target_token_length

unfoldable pub normalized_name : Text → Result ValidationError Text
normalized_name value = map_ok to_ascii_lowercase (checked_name value)

-- `ResourceKind::not_found`.
unfoldable pub not_found : ResourceKind → Text → ObsctlError
not_found scene target = scene_not_found target
not_found audio_input target = audio_input_not_found target

-- The two tests on the characters of an environment variable's name.
unfoldable pub starts_env_name : ℕ → Bool
starts_env_name c = c == b'_' || is_ascii_alphabetic c

unfoldable pub continues_env_name : ℕ → Bool
continues_env_name c = c == b'_' || is_ascii_alphanumeric c

env_name_chars : Text → Result ValidationError (Unit {0})
env_name_chars [] = err blank
env_name_chars (first ∷ chars) =
    if not (starts_env_name first)
    then err invalid_env_var_format
    else if not (all continues_env_name chars)
    then err invalid_env_var_format
    else ok tt

unfoldable pub validate_env_var_name : Text → Result ValidationError Text
unfolding env_name_chars
validate_env_var_name value = do
  token ← trim_and_validate_token_with_max_len value max_path_token_length
  env_name_chars token
  ok token

unfoldable pub validate_no_control_characters : Text → Result ValidationError (Unit {0})
validate_no_control_characters value =
    if any is_control value then err control_characters else ok tt

unfoldable pub validate_no_control_or_whitespace : Text → Result ValidationError (Unit {0})
unfolding validate_no_control_characters
validate_no_control_or_whitespace value = do
  validate_no_control_characters value
  if any is_whitespace value then err contains_whitespace else ok tt
