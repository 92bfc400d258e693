-- ===== src/Password.antt =====
-- src/support/validation.rs: where the password for OBS comes from. The process environment is a
-- parameter.
pub mod Laws
use obsctl_rs.Prelude.{
  ℕ, Bool, true, false, not, Option, none, some, List, Result, ok, err, map_err, ltb, length,
  if◌then◌else◌, ◌>>=◌, ◌>>◌,
}
use obsctl_rs.Text.{Text, is_empty}
use obsctl_rs.Errors.{
  ValidationError, invalid_utf8, max_length_exceeded, PasswordConfigError,
  plaintext_password_has_control_characters, plaintext_password_too_long, password_env_error,
}
use obsctl_rs.Names.{validate_env_var_name, validate_no_control_characters}

abbrev pub max_password_length : ℕ
max_password_length = 1024

-- The answer of `std::env::var`.
pub data EnvVar : Type 0 where
  present : Text → EnvVar
  not_present not_unicode : EnvVar

abbrev pub Environment : Type 0
Environment = Text → EnvVar

unfoldable pub read_env_value : Environment → Text → Result ValidationError (Option Text)
read_env_value env name = elim (env name) [
  | present value ↦ ok (some value)
  | not_present ↦ ok none
  | not_unicode ↦ err invalid_utf8
]

-- The checks on a value that is there.
unfoldable pub check_value : Option Text → Result ValidationError (Option Text)
check_value none = ok none
check_value (some value) =
    if ltb max_password_length (length value)
    then err (max_length_exceeded max_password_length)
    else do validate_no_control_characters value; ok (some value)

unfoldable pub read_password_env_value : Environment → Text → Result ValidationError (Option Text)
read_password_env_value env name = do
  validate_env_var_name name
  value ← read_env_value env name
  check_value value

-- The checks on the password that the configuration spells out.
unfoldable pub check_plaintext : Option Text → Result PasswordConfigError (Unit {0})
check_plaintext none = ok tt
check_plaintext (some password) =
    if ltb max_password_length (length password)
    then err plaintext_password_too_long
    else map_err (λ e. plaintext_password_has_control_characters)
        (validate_no_control_characters password)

unfoldable pub env_password : Environment → Text → Result PasswordConfigError (Option Text)
env_password env password_env =
    if not (is_empty password_env)
    then map_err password_env_error (read_password_env_value env password_env)
    else ok none

-- A value of the environment that is not empty wins.
unfoldable pub prefer : Option Text → Option Text → Option Text
prefer none password = password
prefer (some value) password = if not (is_empty value) then some value else password

unfoldable pub resolve_connection_password :
    Environment → Option Text → Text → Result PasswordConfigError (Option Text)
resolve_connection_password env password password_env = do
  check_plaintext password
  value ← env_password env password_env
  ok (prefer value password)
