-- ===== src/Server/Args.antt =====
-- src/server/command_args.rs: the checked values of a command's payload.
pub mod Checked
use obsctl_rs.Prelude.{
  ℕ, Bool, true, false, not, ◌&&◌, Option, none, some, List, [], ◌∷◌, Result, ok, err, map_err,
  map_ok, ltb, leb, length, if◌then◌else◌, ◌>>=◌, ◌>>◌, ◌==◌, list_eq, nat_eq, ok_or, and_then,
}
use obsctl_rs.Text.{Text, text, is_empty, to_ascii_lowercase}
use obsctl_rs.Sets.{contains}
use obsctl_rs.Errors.{
  ObsctlError, command_parse_error, unknown_command, missing_argument, bad_argument,
  no_list_of_scenes, too_many_scenes, bad_list_entry, no_percentage, object_required,
  unexpected_argument, missing_required_argument, no_arguments_accepted,
}
use obsctl_rs.Names.{max_target_token_length, trim_and_validate_token_with_max_len}
use obsctl_rs.Ipc.Commands.{ServerCommand, parse, name, required_args, optional_args}
use obsctl_rs.Server.Fetch.{Json}

unfoldable pub parse_server_command : Text → Result ObsctlError ServerCommand
parse_server_command wanted = ok_or (parse wanted) (command_parse_error (unknown_command wanted))

abbrev pub max_hidden_scenes_per_profile : ℕ
max_hidden_scenes_per_profile = 128

-- The two loops of `validate_object_args`.
unfoldable pub reject_unexpected :
    Text → List Text → List Text → List Text → Result ObsctlError (Unit {0})
reject_unexpected command required optional [] = ok tt
reject_unexpected command required optional (key ∷ keys) =
    if not (contains required key) && not (contains optional key)
    then err (command_parse_error (unexpected_argument command key))
    else reject_unexpected command required optional keys

unfoldable pub reject_missing : Text → List Text → List Text → Result ObsctlError (Unit {0})
reject_missing command object [] = ok tt
reject_missing command object (key ∷ keys) =
    if not (contains object key)
    then err (command_parse_error (missing_required_argument command key))
    else reject_missing command object keys

module _ {F J : Type 0} (json : Json F J) where
  open json use {get, as_array, as_str, as_u64, keys, is_null}

  unfoldable pub validate_object_args :
      J → Text → List Text → List Text → Result ObsctlError (Unit {0})
  validate_object_args args command required optional = do
    object ← ok_or (keys args) (command_parse_error (object_required command))
    reject_unexpected command required optional object
    reject_missing command object required

  unfoldable pub validate_empty_payload : J → Text → Result ObsctlError (Unit {0})
  validate_empty_payload args command = if is_null args then ok tt else elim (keys args) [
    | some [] ↦ ok tt
    | _ ↦ err (command_parse_error (no_arguments_accepted command))
  ]

  unfoldable pub validate_payload : ServerCommand → J → Result ObsctlError (Unit {0})
  validate_payload command args =
      if is_empty (required_args command) && is_empty (optional_args command)
      then validate_empty_payload args (name command)
      else validate_object_args args (name command) (required_args command) (optional_args command)

  unfoldable pub required_string : J → Text → Result ObsctlError Text
  required_string args key = do
    raw ← ok_or (and_then (get key args) as_str) (command_parse_error (missing_argument key))
    map_err (λ e. command_parse_error (bad_argument key e))
        (trim_and_validate_token_with_max_len raw max_target_token_length)

  unfoldable pub optional_string : J → Text → Result ObsctlError (Option Text)
  optional_string args key = elim (get key args) [
    | none ↦ ok none
    | some value ↦ if is_null value then ok none else map_ok some (required_string args key)
  ]

  -- The loop of `required_string_array` over the spellings that were seen.
  unfoldable pub scene_names_from : Text → List Text → List J → Result ObsctlError (List Text)
  scene_names_from key seen [] = ok []
  scene_names_from key seen (item ∷ items) = do
    raw ← ok_or (as_str item) (command_parse_error (no_list_of_scenes key))
    scene ←
        map_err (λ e. command_parse_error (bad_list_entry key e))
          (trim_and_validate_token_with_max_len raw max_target_token_length)
    if contains seen (to_ascii_lowercase scene)
        then scene_names_from key seen items
        else (scene_names_from key (to_ascii_lowercase scene ∷ seen) items >>= λ scenes.
            ok (scene ∷ scenes))

  unfoldable pub required_string_array : J → Text → Result ObsctlError (List Text)
  required_string_array args key = do
    items ← ok_or (and_then (get key args) as_array) (command_parse_error (no_list_of_scenes key))
    if ltb max_hidden_scenes_per_profile (length items)
        then err (command_parse_error (too_many_scenes key))
        else scene_names_from key [] items

  unfoldable pub required_u8_percentage : J → Text → Result ObsctlError ℕ
  required_u8_percentage args key = do
    value ← ok_or (get key args) (command_parse_error (missing_argument key))
    elim (as_u64 value) [
      | some percent ↦
          if leb percent 100 then ok percent else err (command_parse_error (no_percentage key))
      | none ↦ err (command_parse_error (no_percentage key))
    ]
