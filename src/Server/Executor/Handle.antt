-- ===== src/Server/Executor/Handle.antt =====
-- src/server/command_executor.rs: the dispatch of a command, its answer, and a connection's commands
-- one after the other.
use obsctl_rs.Prelude.{
  ◌+◌, true, false, none, some, List, [], ◌∷◌, Result, ok, err, not, if◌then◌else◌,
}
use obsctl_rs.Text.{Text}
use obsctl_rs.Errors.{ObsctlError, obs_unavailable, shutdown_disabled}
use obsctl_rs.Ipc.Commands.{
  ServerCommand, ping, get_server_status, get_obs_status, get_snapshot, set_scene, set_profile,
  set_scene_collection, mute, unmute, toggle_mute, set_volume, validate_config, reload_config,
  reconnect_obs, shutdown_server, dump_config, toggle_stream, toggle_record, set_scene_profile,
  clear_scene_profile, save_scene_profile, delete_scene_profile, list_scene_profiles,
}
use obsctl_rs.Ipc.ErrorCodes.{as_str, public_error_code}
use obsctl_rs.Server.Adapter.{shutdown_requested}
use obsctl_rs.Server.Hub.{ServerMessage, response}
use obsctl_rs.Server.Args.{parse_server_command, validate_payload}
use obsctl_rs.Server.Executor.{Setup, Daemon, Action, Reply, ◌>>=◌, ◌>>◌, lift, reads, changes, log}
use obsctl_rs.Server.Executor.Files.{cmd_validate_config, cmd_reload_config}
use obsctl_rs.Server.Executor.Control.{
  profile, scene_collection, cmd_server_status, cmd_obs_status, cmd_get_snapshot, cmd_set_scene,
  cmd_set_named_selection, cmd_set_mute, cmd_toggle_mute, cmd_set_volume, cmd_toggle_stream,
  cmd_toggle_record,
}
use obsctl_rs.Server.Executor.Profiles.{
  cmd_set_scene_profile, cmd_clear_scene_profile, cmd_save_scene_profile, cmd_delete_scene_profile,
  cmd_list_scene_profiles,
}
use obsctl_rs.Server.Executor.Dump.{cmd_dump_config}

-- `CommandPayload` with the request's id: what a client sends.
pub record CommandDispatch (J : Type 0) : Type 0 where
  pub id : Text
  pub name : Text
  pub args : J

module _ {F J Fs : Type 0} (s : Setup F J Fs) where
  -- A send on a channel that nobody listens to fails.
  unfoldable pub send_reconnect : Action F J Fs (Unit {0})
  send_reconnect d =
      if d.supervised
      then (ok tt, record d { reconnects = d.reconnects + 1 })
      else (err obs_unavailable, d)

  unfoldable pub cmd_reconnect_obs : Action F J Fs J
  cmd_reconnect_obs = do send_reconnect; lift (ok (s.reply_value Reply.reconnect_triggered))

  unfoldable pub send_shutdown : Action F J Fs (Unit {0})
  send_shutdown d =
      if d.watched then (ok tt, record d { shutdown = true }) else (err obs_unavailable, d)

  unfoldable pub cmd_shutdown_server : Action F J Fs J
  cmd_shutdown_server = do
    allowed ← reads (λ d. d.config.server.allow_remote_shutdown)
    lift (if not allowed then err shutdown_disabled else ok tt)
    changes (log s shutdown_requested)
    send_shutdown
    lift (ok (s.reply_value Reply.shutdown_initiated))

  -- The `match` of `handle`.
  unfoldable pub dispatch : ServerCommand → J → Action F J Fs J
  dispatch ping args = lift (ok (s.reply_value Reply.pong))
  dispatch get_server_status args = cmd_server_status s
  dispatch get_obs_status args = cmd_obs_status s
  dispatch get_snapshot args = cmd_get_snapshot s
  dispatch set_scene args = cmd_set_scene s args
  dispatch set_profile args = cmd_set_named_selection s args profile
  dispatch set_scene_collection args = cmd_set_named_selection s args scene_collection
  dispatch mute args = cmd_set_mute s args true
  dispatch unmute args = cmd_set_mute s args false
  dispatch toggle_mute args = cmd_toggle_mute s args
  dispatch set_volume args = cmd_set_volume s args
  dispatch validate_config args = cmd_validate_config s
  dispatch reload_config args = cmd_reload_config s
  dispatch reconnect_obs args = cmd_reconnect_obs
  dispatch shutdown_server args = cmd_shutdown_server
  dispatch dump_config args = cmd_dump_config s
  dispatch toggle_stream args = cmd_toggle_stream s
  dispatch toggle_record args = cmd_toggle_record s
  dispatch set_scene_profile args = cmd_set_scene_profile s args
  dispatch clear_scene_profile args = cmd_clear_scene_profile s
  dispatch save_scene_profile args = cmd_save_scene_profile s args
  dispatch delete_scene_profile args = cmd_delete_scene_profile s args
  dispatch list_scene_profiles args = cmd_list_scene_profiles s

  unfoldable pub execute : Text → J → Action F J Fs J
  execute name args = do
    command ← lift (parse_server_command name)
    lift (validate_payload s.json command args)
    dispatch command args

  -- `ErrorPayload::new` gives the code and the redacted message.
  unfoldable pub respond : Text → Result ObsctlError J → ServerMessage J
  respond id (ok data') = response id true (some data') none
  respond id (err e) =
      response id false none (some (as_str (public_error_code e), s.redact_message (s.display e)))

  unfoldable pub handle : CommandDispatch J → Daemon F J Fs → ServerMessage J × Daemon F J Fs
  handle c d = let (r, d') = execute c.name c.args d in (respond c.id r, d')

  -- The loop of `serve`: what is answered to each command of a connection.
  unfoldable pub serve :
      List (CommandDispatch J) → Daemon F J Fs → List (ServerMessage J) × Daemon F J Fs
  serve [] d = ([], d)
  serve (c ∷ cs) d =
      let (answer, d') = handle c d in let (answers, d'') = serve cs d' in (answer ∷ answers, d'')
