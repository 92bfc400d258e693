-- ===== src/Server/Executor/Control.antt =====
-- src/server/command_executor.rs: the commands that ask OBS for something.
use obsctl_rs.Prelude.{
  Bool, true, false, not, Option, none, some, List, Result, ok, err, and_then, any, if◌then◌else◌,
  ◌==◌, list_eq, nat_eq,
}
use obsctl_rs.Text.{Text, text}
use obsctl_rs.Errors.{ObsctlError, profile_not_found, scene_collection_not_found}
use obsctl_rs.Aliases.{resolve, resolve_audio}
use obsctl_rs.Volume.{percent_to_mul}
use obsctl_rs.Obs.{ObsSnapshot}
use obsctl_rs.Obs.Requests.{
  RequestData, set_current_program_scene, set_input_mute, toggle_input_mute, set_input_volume,
  set_current_profile, set_current_scene_collection, toggle_stream, toggle_record,
}
use obsctl_rs.Server.Projection.{scene_aliases, audio_aliases}
use obsctl_rs.Server.Args.{required_string, required_u8_percentage}
use obsctl_rs.Server.Executor.{
  Setup, Action, Reply, ◌>>=◌, ◌>>◌, lift, reads, require_obs, request, serialize_result,
}

-- What differs between the profile and the scene collection.
pub record NamedSelection (F : Type 0) : Type 0 where
  pub known_names : ObsSnapshot F → List Text
  pub build_request : Text → Result ObsctlError (RequestData F)
  pub not_found : Text → ObsctlError
  pub lowercase_label : Text

abbrev pub profile : {F : Type 0} → NamedSelection F
profile = record {
  known_names = λ snap. snap.profiles;
  build_request = set_current_profile;
  not_found = profile_not_found;
  lowercase_label = text "profile";
}

abbrev pub scene_collection : {F : Type 0} → NamedSelection F
scene_collection = record {
  known_names = λ snap. snap.scene_collections;
  build_request = set_current_scene_collection;
  not_found = scene_collection_not_found;
  lowercase_label = text "scene collection";
}

-- How a toggle's answer is told.
unfoldable pub output_state : Option Bool → Text
output_state (some true) = text "started"
output_state (some false) = text "stopped"
output_state none = text "toggled"

module _ {F J Fs : Type 0} (s : Setup F J Fs) where
  unfoldable pub cmd_server_status : Action F J Fs J
  cmd_server_status = do
    status ← reads (λ d. record {
      pid = s.pid;
      uptime_seconds = s.uptime_seconds;
      socket_path = s.socket_path;
      client_count = d.clients;
      obs_connected = d.store.inner.connected;
      reconnecting = d.reconnecting;
      last_error = d.store.inner.last_error;
    })
    lift (serialize_result s (Reply.server_status status) (text "server status"))

  unfoldable pub cmd_obs_status : Action F J Fs J
  cmd_obs_status = do
    snap ← reads (λ d. d.store.inner)
    lift (
        ok (
          s.reply_value (
            Reply.obs_status snap.connected snap.current_scene snap.obs_studio_version
              snap.obs_websocket_version snap.last_error)))

  unfoldable pub cmd_get_snapshot : Action F J Fs J
  cmd_get_snapshot = do
    snap ← reads (λ d. d.store.inner)
    lift (serialize_result s (Reply.snapshot snap) (text "snapshot"))

  unfoldable pub cmd_set_scene : J → Action F J Fs J
  cmd_set_scene args = do
    target ← lift (required_string s.json args (text "target"))
    require_obs
    entries ← reads (λ d. scene_aliases d.store.inner)
    resolved ← lift (resolve target entries)
    question ← lift (set_current_program_scene resolved.name)
    request s question
    lift (ok (s.reply_value (Reply.scene_set resolved.name)))

  unfoldable pub refuse_unknown :
      NamedSelection F → List Text → Text → Result ObsctlError (Unit {0})
  refuse_unknown selection known target =
      if not (any (λ n. n == target) known) then err (selection.not_found target) else ok tt

  unfoldable pub cmd_set_named_selection : J → NamedSelection F → Action F J Fs J
  cmd_set_named_selection args selection = do
    target ← lift (required_string s.json args (text "target"))
    require_obs
    known ← reads (λ d. selection.known_names d.store.inner)
    lift (refuse_unknown selection known target)
    question ← lift (selection.build_request target)
    request s question
    lift (ok (s.reply_value (Reply.selection_set selection.lowercase_label target)))

  unfoldable pub resolve_audio_target : J → Action F J Fs Text
  resolve_audio_target args = do
    target ← lift (required_string s.json args (text "target"))
    entries ← reads (λ d. audio_aliases d.store.inner)
    resolved ← lift (resolve_audio target entries)
    lift (ok resolved.name)

  unfoldable pub cmd_set_mute : J → Bool → Action F J Fs J
  cmd_set_mute args muted = do
    require_obs
    obs_name ← resolve_audio_target args
    question ← lift (set_input_mute obs_name muted)
    request s question
    lift (ok (s.reply_value (Reply.mute_set muted obs_name)))

  unfoldable pub cmd_toggle_mute : J → Action F J Fs J
  cmd_toggle_mute args = do
    require_obs
    obs_name ← resolve_audio_target args
    question ← lift (toggle_input_mute obs_name)
    request s question
    lift (ok (s.reply_value (Reply.mute_toggled obs_name)))

  unfoldable pub cmd_set_volume : J → Action F J Fs J
  cmd_set_volume args = do
    percent ← lift (required_u8_percentage s.json args (text "percent"))
    require_obs
    obs_name ← resolve_audio_target args
    question ← lift (set_input_volume s.floats obs_name (percent_to_mul s.floats percent))
    request s question
    lift (ok (s.reply_value (Reply.volume_set percent obs_name)))

  unfoldable pub toggle_output : RequestData F → Text → Action F J Fs J
  toggle_output question output = do
    require_obs
    result ← request s question
    let state' = output_state (and_then (s.json.get (text "outputActive") result) s.json.as_bool)
    lift (ok (s.reply_value (Reply.output_toggled output state')))

  unfoldable pub cmd_toggle_stream : Action F J Fs J
  cmd_toggle_stream = toggle_output toggle_stream (text "streaming")

  unfoldable pub cmd_toggle_record : Action F J Fs J
  cmd_toggle_record = toggle_output toggle_record (text "recording")
