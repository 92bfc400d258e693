-- ===== src/Errors.antt =====
-- src/support/validation.rs (`ValidationError`) and src/domain/errors.rs. The wording of a message is
-- not modelled: each `format!` of the code is a constructor of `Message` with the values it prints.
use obsctl_rs.Prelude.{ℕ}
use obsctl_rs.Text.{Text}

pub data ValidationError : Type 0 where
  blank : ValidationError
  control_characters : ValidationError
  invalid_env_var_format : ValidationError
  invalid_utf8 : ValidationError
  contains_whitespace : ValidationError
  max_length_exceeded : ℕ → ValidationError

pub data PasswordConfigError : Type 0 where
  plaintext_password_has_control_characters : PasswordConfigError
  plaintext_password_too_long : PasswordConfigError
  password_env_error : ValidationError → PasswordConfigError

-- `ResourceKind` of src/domain/names.rs.
pub data ResourceKind : Type 0 where
  scene : ResourceKind
  audio_input : ResourceKind

-- What an error says. The constructors stand in the order of the modules that build them.
pub data Message : Type 0 where
  -- src/domain/aliases.rs
  bad_token : ValidationError → Message
  bad_alias_or_shortcut : ResourceKind → ValidationError → Message
  duplicate_alias : ResourceKind → Text → Message
  duplicate_shortcut : ResourceKind → Text → Message
  -- src/domain/parser.rs
  empty_command : Message
  unknown_command : Text → Message
  wrong_arity : Text → ℕ → ℕ → Message
  quoted_percent : Message
  not_an_integer : Text → Message
  percent_out_of_range : ℕ → Message
  bad_target : ValidationError → Message
  bad_command : ValidationError → Message
  unterminated_quote : Message
  -- src/config/schema.rs
  unsupported_version : ℕ → Message
  bad_refresh_interval : Message
  bad_max_delay : Message
  bad_multiplier : Message
  bad_password : PasswordConfigError → Message
  bad_port : Message
  bad_connect_timeout : Message
  bad_request_timeout : Message
  host_control_or_whitespace : Message
  host_separator : Message
  host_blank : Message
  host_too_long : Message
  bad_scene_name : ValidationError → Message
  bad_audio_name : ValidationError → Message
  bad_profile_name : ValidationError → Message
  bad_hidden_scene : Text → ValidationError → Message
  duplicate_profile : Text → Message
  -- src/obs/validation.rs, src/obs/requests.rs and src/server/snapshot_refresh.rs
  missing_list : Text → Message
  missing_name : Text → Text → Message
  non_string_entry : Text → Message
  invalid_entry : Text → ValidationError → Message
  duplicate_entry : Text → Text → Message
  missing_current_scene : Message
  invalid_current_scene : ValidationError → Message
  invalid_request_name : Text → ValidationError → Message
  invalid_multiplier : Message
  -- src/server/command_args.rs and src/server/command_executor.rs
  missing_argument : Text → Message
  bad_argument : Text → ValidationError → Message
  no_list_of_scenes : Text → Message
  too_many_scenes : Text → Message
  bad_list_entry : Text → ValidationError → Message
  no_percentage : Text → Message
  object_required : Text → Message
  unexpected_argument : Text → Text → Message
  missing_required_argument : Text → Text → Message
  no_arguments_accepted : Text → Message
  no_config_path : Message
  refusing_to_overwrite : Text → Message
  scene_profile_unknown : Text → Message
  scene_profile_taken : Text → Message
  cannot_serialize : Text → Text → Message
  -- src/config/dump.rs
  bad_resource_name : ResourceKind → ValidationError → Message
  alias_collision : ResourceKind → Text → Message
  shortcut_collision : ResourceKind → Text → Message
  -- a message that other code made
  empty_frame : Message
  other_message : Text → Message

pub data ObsctlError : Type 0 where
  config_not_found : Text → ObsctlError
  config_invalid : Message → ObsctlError
  server_unavailable : Text → Message → ObsctlError
  ipc_connection_failed : Message → ObsctlError
  ipc_protocol_error : Message → ObsctlError
  ipc_timeout : ℕ → ObsctlError
  connection_failed : Message → ObsctlError
  authentication_failed : ObsctlError
  obs_unavailable : ObsctlError
  request_timeout : ObsctlError
  obs_request_failed : Message → ObsctlError
  scene_not_found : Text → ObsctlError
  audio_input_not_found : Text → ObsctlError
  profile_not_found : Text → ObsctlError
  scene_collection_not_found : Text → ObsctlError
  alias_ambiguous : Text → ObsctlError
  command_parse_error : Message → ObsctlError
  shutdown_disabled : ObsctlError
  dump_config_failed : Message → ObsctlError
  service_install_failed : Message → ObsctlError
  io : Message → ObsctlError

-- The exit code of a failure that the local process handles.
unfoldable pub exit_code : ObsctlError → ℕ
exit_code (config_not_found _) = 2
exit_code (config_invalid _) = 2
exit_code (server_unavailable _ _) = 3
exit_code (ipc_connection_failed _) = 3
exit_code (connection_failed _) = 3
exit_code authentication_failed = 3
exit_code obs_unavailable = 4
exit_code (obs_request_failed _) = 4
exit_code request_timeout = 4
exit_code (scene_not_found _) = 4
exit_code (audio_input_not_found _) = 4
exit_code (profile_not_found _) = 4
exit_code (scene_collection_not_found _) = 4
exit_code (command_parse_error _) = 5
exit_code (ipc_protocol_error _) = 6
exit_code (ipc_timeout _) = 6
exit_code (alias_ambiguous _) = 1
exit_code shutdown_disabled = 1
exit_code (dump_config_failed _) = 1
exit_code (service_install_failed _) = 1
exit_code (io _) = 1
