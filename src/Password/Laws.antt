-- ===== src/Password/Laws.antt =====
-- src/support/validation.rs: the passwords that the code lets through.
use obsctl_rs.Prelude.{
  ◌≤◌, ◌≡◌, refl, subst, false, Option, none, some, Result, ok, err, map_err, length, any, arith,
  >>=-eq-ok, Bool-cases, inl, inr,
}
use obsctl_rs.Text.{Text, is_control, is_empty}
use obsctl_rs.Errors.{PasswordConfigError}
use obsctl_rs.Names.{validate_env_var_name, validate_no_control_characters}
use obsctl_rs.Password.{
  max_password_length, Environment, read_env_value, check_value, read_password_env_value,
  check_plaintext, env_password, prefer, resolve_connection_password,
}

-- Of at most 1024 characters, none of which is a control character.
abbrev pub IsPassword : Option Text → Type 0
IsPassword none = Unit
IsPassword (some p) = (length p ≤ max_password_length) × (any is_control p ≡ false)

check_value-IsPassword : (o r : Option Text) → check_value o ≡ ok r → IsPassword r × (r ≡ o)
unfolding check_value validate_no_control_characters
check_value-IsPassword none none h = (tt, refl)
check_value-IsPassword none (some r) h = cc h
check_value-IsPassword (some v) none h = ground arith
check_value-IsPassword (some v) (some r) h = ground arith

check_plaintext-IsPassword :
    (o : Option Text) (u : Unit {0}) → check_plaintext o ≡ ok u → IsPassword o
unfolding check_plaintext validate_no_control_characters
check_plaintext-IsPassword none u h = tt
check_plaintext-IsPassword (some v) u h = ground arith

map_err-eq_ok :
    {E F A : Type 0} (g : E → F) (r : Result E A) (a : A) → map_err g r ≡ ok a → r ≡ ok a
map_err-eq_ok g (ok b) a h = ground arith
map_err-eq_ok g (err e) a h = cc h

env_password-IsPassword :
    (env : Environment) (name : Text) (r : Option Text)
    → env_password env name ≡ ok r
    → IsPassword r
unfolding env_password read_password_env_value
env_password-IsPassword env name r h = elim (Bool-cases (is_empty name)) [
  | inl unnamed ↦ from_none r (rw unnamed at h)
  | inr named ↦
      let read = map_err-eq_ok _ _ r (rw named at h) in
      let (token, _, rest) = >>=-eq-ok (validate_env_var_name name) _ read in
      let (value, _, checked) = >>=-eq-ok (read_env_value env name) _ rest in
      (check_value-IsPassword value r checked).0
]
  where
    from_none :
        (r : Option Text)
        → ◌≡◌ {A = Result PasswordConfigError (Option Text)} (ok none) (ok r)
        → IsPassword r
    from_none none h = tt
    from_none (some v) h = cc h

prefer-IsPassword :
    (value password : Option Text)
    → IsPassword value
    → IsPassword password
    → IsPassword (prefer value password)
unfolding prefer
prefer-IsPassword none password h k = k
prefer-IsPassword (some v) password h k = elim (Bool-cases (is_empty v)) [
  | inl blank ↦ rw blank k
  | inr set ↦ rw set h
]

-- A password that is resolved, from the environment or from the configuration, has at most 1024
-- characters and no control character.
pub resolve_connection_password-IsPassword :
    (env : Environment) (password : Option Text) (password_env : Text) (r : Option Text)
    → resolve_connection_password env password password_env ≡ ok r
    → IsPassword r
unfolding resolve_connection_password
resolve_connection_password-IsPassword env password password_env r h =
    let (u, plain, rest) = >>=-eq-ok (check_plaintext password) _ h in
    let (value, read, chosen) = >>=-eq-ok (env_password env password_env) _ rest in
    subst IsPassword (ok-inj _ _ chosen) (
      prefer-IsPassword value password (env_password-IsPassword env password_env value read)
        (check_plaintext-IsPassword password u plain))
  where
    ok-inj :
        (a b : Option Text)
        → ◌≡◌ {A = Result PasswordConfigError (Option Text)} (ok a) (ok b)
        → a ≡ b
    ok-inj a b e = ground arith
