-- ===== src/Command.antt =====
-- src/domain/command.rs.
use obsctl_rs.Prelude.{ℕ}
use obsctl_rs.Text.{Text}

pub data Command : Type 0 where
  help quit themes dump_config reload_config status server_status obs_status : Command
  validate_config reconnect connect shutdown_server : Command
  set_scene : Text → Command
  set_profile : Text → Command
  set_scene_collection : Text → Command
  set_scene_profile : Text → Command
  clear_scene_profile : Command
  delete_scene_profile : Text → Command
  mute : Text → Command
  unmute : Text → Command
  toggle_mute : Text → Command
  set_volume : Text → ℕ → Command
  toggle_stream toggle_record : Command
