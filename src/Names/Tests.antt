-- ===== src/Names/Tests.antt =====
-- Runs of the checks on names, and the theorems about them at concrete names.
use obsctl_rs.Prelude.{◌≡◌, refl, ok, err, any, all}
use obsctl_rs.Text.{
  Text, text, is_control, is_whitespace, trim, trim_start, trim_end, to_ascii_lowercase,
}
use obsctl_rs.Errors.{blank, control_characters, invalid_env_var_format}
use obsctl_rs.Names.{
  trim_and_validate_token_with_max_len, checked_name, normalized_name, validate_env_var_name,
}
use obsctl_rs.Names.Laws.{IsName, IsPadding, checked_name-IsName}

-- The environment variable names that the code accepts and refuses.
env_var_names :
    (validate_env_var_name (text "OBS_WEBSOCKET_PASSWORD") ≡ ok (text "OBS_WEBSOCKET_PASSWORD"))
    × (validate_env_var_name (text "1X") ≡ err invalid_env_var_format)
    × (validate_env_var_name (text "A-B") ≡ err invalid_env_var_format)
    × (validate_env_var_name (text "  ") ≡ err blank)
unfolding validate_env_var_name trim_and_validate_token_with_max_len any all is_control
    is_whitespace trim text obsctl_rs.Names.starts_env_name obsctl_rs.Names.continues_env_name
    obsctl_rs.Text.is_ascii_alphabetic obsctl_rs.Text.is_ascii_alphanumeric
env_var_names = (refl, refl, refl, refl)

control_is_refused : checked_name (text "main\tcam") ≡ err control_characters
unfolding checked_name trim_and_validate_token_with_max_len any is_control text
control_is_refused = refl

abbrev padded : Text
padded = text "  Main Camera "

padded-checked : checked_name padded ≡ ok (text "Main Camera")
unfolding checked_name trim_and_validate_token_with_max_len any is_control is_whitespace trim text
padded-checked = refl

padded-normalized : normalized_name padded ≡ ok (text "main camera")
unfolding normalized_name checked_name trim_and_validate_token_with_max_len any is_control
    is_whitespace trim text to_ascii_lowercase
padded-normalized = refl

spaces-IsPadding : IsPadding (text "  ")
unfolding all any is_whitespace is_control text
spaces-IsPadding = record { white = refl; printable = refl }

checked_name-IsName_example : IsName (text "Main Camera")
checked_name-IsName_example = checked_name-IsName padded (text "Main Camera") padded-checked
