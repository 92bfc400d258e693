-- ===== src/Server/Executor/Quiet/Serve.antt =====
-- src/server/command_executor.rs: what a connection's commands send while OBS is away.
use obsctl_rs.Prelude.{arith, ◌≡◌, refl, true, false, List, [], ◌∷◌, inl, inr, Bool-cases}
use obsctl_rs.Text.{Text}
use obsctl_rs.Ipc.Commands.{
  ServerCommand, ping, get_server_status, get_obs_status, get_snapshot, set_scene, set_profile,
  set_scene_collection, mute, unmute, toggle_mute, set_volume, validate_config, reload_config,
  reconnect_obs, shutdown_server, dump_config, toggle_stream, toggle_record, set_scene_profile,
  clear_scene_profile, save_scene_profile, delete_scene_profile, list_scene_profiles,
}
use obsctl_rs.Server.Executor.{Setup, Daemon}
use obsctl_rs.Server.Executor.Files.{cmd_validate_config}
use obsctl_rs.Server.Executor.Control.{
  cmd_server_status, cmd_obs_status, cmd_get_snapshot, cmd_toggle_stream, cmd_toggle_record,
}
use obsctl_rs.Server.Executor.Profiles.{cmd_list_scene_profiles}
use obsctl_rs.Server.Executor.Handle.{
  send_reconnect, cmd_reconnect_obs, send_shutdown, cmd_shutdown_server, dispatch, execute, handle,
  CommandDispatch, serve,
}
use obsctl_rs.Server.Executor.Quiet.Control.{
  cmd_set_scene-IsQuiet, cmd_set_named_selection-IsQuiet, cmd_set_mute-IsQuiet,
  cmd_toggle_mute-IsQuiet, cmd_set_volume-IsQuiet, toggle_output-IsQuiet,
}
use obsctl_rs.Server.Executor.Quiet.Commands.{
  log-IsQuiet, Quiet-changes, cmd_set_scene_profile-IsQuiet, cmd_clear_scene_profile-IsQuiet,
  cmd_save_scene_profile-IsQuiet, cmd_delete_scene_profile-IsQuiet, cmd_reload_config-IsQuiet,
  cmd_dump_config-IsQuiet,
}
use obsctl_rs.Server.Executor.Quiet.{
  IsQuiet, Keeps, Keeps-bind, Keeps-then, Keeps-lift, Keeps-reads, IsSteady-IsPreorder,
  IsQuiet-IsPreorder,
}

module _ {F J Fs : Type 0} (s : Setup F J Fs) where
  send_reconnect-IsQuiet : Keeps IsQuiet (send_reconnect s)
  unfolding send_reconnect
  send_reconnect-IsQuiet = record {
    along = λ d. elim (Bool-cases d.supervised) [
      | inl listened ↦ ground arith
      | inr deaf ↦ ground arith
    ];
  }

  send_shutdown-IsQuiet : Keeps IsQuiet (send_shutdown s)
  unfolding send_shutdown
  send_shutdown-IsQuiet = record {
    along =
        λ d. elim (Bool-cases d.watched) [ inl listened ↦ ground arith | inr deaf ↦ ground arith ];
  }

  cmd_shutdown_server-IsQuiet : Keeps IsQuiet (cmd_shutdown_server s)
  unfolding cmd_shutdown_server
  cmd_shutdown_server-IsQuiet = Keeps-bind (Keeps-reads _) λ allowed. Keeps-then (Keeps-lift _) (
      Keeps-then (Quiet-changes s _ (log-IsQuiet s _))
        (Keeps-then send_shutdown-IsQuiet (Keeps-lift _)))

  dispatch-IsQuiet : (c : ServerCommand) (args : J) → Keeps IsQuiet (dispatch s c args)
  unfolding dispatch cmd_server_status cmd_obs_status cmd_get_snapshot cmd_toggle_stream
      cmd_toggle_record cmd_list_scene_profiles cmd_validate_config cmd_reconnect_obs
  dispatch-IsQuiet ping args = Keeps-lift _
  dispatch-IsQuiet get_server_status args = Keeps-bind (Keeps-reads _) λ status. Keeps-lift _
  dispatch-IsQuiet get_obs_status args = Keeps-bind (Keeps-reads _) λ snap. Keeps-lift _
  dispatch-IsQuiet get_snapshot args = Keeps-bind (Keeps-reads _) λ snap. Keeps-lift _
  dispatch-IsQuiet set_scene args = cmd_set_scene-IsQuiet s args
  dispatch-IsQuiet set_profile args = cmd_set_named_selection-IsQuiet s args _
  dispatch-IsQuiet set_scene_collection args = cmd_set_named_selection-IsQuiet s args _
  dispatch-IsQuiet mute args = cmd_set_mute-IsQuiet s args true
  dispatch-IsQuiet unmute args = cmd_set_mute-IsQuiet s args false
  dispatch-IsQuiet toggle_mute args = cmd_toggle_mute-IsQuiet s args
  dispatch-IsQuiet set_volume args = cmd_set_volume-IsQuiet s args
  dispatch-IsQuiet validate_config args =
      Keeps-bind (Keeps-reads _) λ config. Keeps-bind (Keeps-lift _) λ warnings. Keeps-lift _
  dispatch-IsQuiet reload_config args = cmd_reload_config-IsQuiet s
  dispatch-IsQuiet reconnect_obs args = Keeps-then send_reconnect-IsQuiet (Keeps-lift _)
  dispatch-IsQuiet shutdown_server args = cmd_shutdown_server-IsQuiet
  dispatch-IsQuiet dump_config args = cmd_dump_config-IsQuiet s
  dispatch-IsQuiet toggle_stream args = toggle_output-IsQuiet s _ _
  dispatch-IsQuiet toggle_record args = toggle_output-IsQuiet s _ _
  dispatch-IsQuiet set_scene_profile args = cmd_set_scene_profile-IsQuiet s args
  dispatch-IsQuiet clear_scene_profile args = cmd_clear_scene_profile-IsQuiet s
  dispatch-IsQuiet save_scene_profile args = cmd_save_scene_profile-IsQuiet s args
  dispatch-IsQuiet delete_scene_profile args = cmd_delete_scene_profile-IsQuiet s args
  dispatch-IsQuiet list_scene_profiles args = Keeps-bind (Keeps-reads _) λ config. Keeps-lift _

  execute-IsQuiet : (name : Text) (args : J) → Keeps IsQuiet (execute s name args)
  unfolding execute
  execute-IsQuiet name args =
      Keeps-bind (Keeps-lift _) λ command. Keeps-then (Keeps-lift _) (dispatch-IsQuiet command args)

  handle-IsQuiet : (c : CommandDispatch J) (d : Daemon F J Fs) → IsQuiet d (handle s c d).1
  unfolding handle
  handle-IsQuiet c d = (execute-IsQuiet c.name c.args).along d

  serve-IsQuiet : (cs : List (CommandDispatch J)) (d : Daemon F J Fs) → IsQuiet d (serve s cs d).1
  unfolding serve
  serve-IsQuiet [] d = record { obs = refl; sent = λ away. refl }
  serve-IsQuiet (c ∷ cs) d =
      IsQuiet-IsPreorder.transitive _ _ _ (handle-IsQuiet c d) (serve-IsQuiet cs (handle s c d).1)

  -- While OBS is away, the commands of a connection, whatever they are, send no request to OBS.
  pub serve-sent :
      (cs : List (CommandDispatch J)) (d : Daemon F J Fs)
      → d.obs ≡ false
      → (serve s cs d).1.sent ≡ d.sent
  serve-sent cs d away = (serve-IsQuiet cs d).sent away
