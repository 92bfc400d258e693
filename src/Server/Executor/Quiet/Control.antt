-- ===== src/Server/Executor/Quiet/Control.antt =====
-- src/server/command_executor.rs: what the commands that ask OBS send while it is away.
use obsctl_rs.Prelude.{refl, Bool, Result, ok}
use obsctl_rs.Text.{Text}
use obsctl_rs.Errors.{ObsctlError}
use obsctl_rs.Obs.Requests.{RequestData}
use obsctl_rs.Server.Executor.{Setup, ◌>>=◌, ◌>>◌, lift, request}
use obsctl_rs.Server.Executor.Control.{
  NamedSelection, cmd_set_scene, cmd_set_named_selection, resolve_audio_target, cmd_set_mute,
  cmd_toggle_mute, cmd_set_volume, toggle_output,
}
use obsctl_rs.Server.Executor.Dump.{fetch_dumpable_obs_resources}
use obsctl_rs.Server.Executor.Quiet.{
  IsQuiet, IsSteady, Keeps, Keeps-bind, Keeps-then, Keeps-lift, Keeps-reads, require_obs-Quiet,
  IsSteady-IsPreorder, IsQuiet-IsPreorder,
}

module _ {F J Fs : Type 0} (s : Setup F J Fs) where
  request-IsSteady : (r : RequestData F) → Keeps IsSteady (request s r)
  unfolding request
  request-IsSteady r = record { along = λ d. record { obs = refl } }

  -- The commands that ask OBS.
  pub cmd_set_scene-IsQuiet : (args : J) → Keeps IsQuiet (cmd_set_scene s args)
  unfolding cmd_set_scene
  cmd_set_scene-IsQuiet args = Keeps-bind (Keeps-lift _) λ target. require_obs-Quiet (
      Keeps-bind (Keeps-reads _) λ entries. Keeps-bind (Keeps-lift _) λ resolved.
        Keeps-bind (Keeps-lift _) λ question. Keeps-then (request-IsSteady question) (Keeps-lift _))

  pub cmd_set_named_selection-IsQuiet :
      (args : J) (selection : NamedSelection F)
      → Keeps IsQuiet (cmd_set_named_selection s args selection)
  unfolding cmd_set_named_selection
  cmd_set_named_selection-IsQuiet args selection = Keeps-bind (Keeps-lift _) λ target.
      require_obs-Quiet (
        Keeps-bind (Keeps-reads _) λ known. Keeps-then (Keeps-lift _) (
          Keeps-bind (Keeps-lift _)
            λ question. Keeps-then (request-IsSteady question) (Keeps-lift _)))

  resolve_audio_target-IsSteady : (args : J) → Keeps IsSteady (resolve_audio_target s args)
  unfolding resolve_audio_target
  resolve_audio_target-IsSteady args = Keeps-bind (Keeps-lift _) λ target.
      Keeps-bind (Keeps-reads _) λ entries. Keeps-bind (Keeps-lift _) λ resolved. Keeps-lift _

  -- A question about the input that the target means.
  audio_request-IsSteady :
      (args : J) (question : Text → Result ObsctlError (RequestData F)) (answer : Text → J)
      → Keeps IsSteady (
          resolve_audio_target s args >>= λ obs_name.
          lift (question obs_name) >>= λ q. request s q >> lift (ok (answer obs_name)))
  audio_request-IsSteady args question answer =
      Keeps-bind (resolve_audio_target-IsSteady args)
        λ obs_name. Keeps-bind (Keeps-lift _) λ q. Keeps-then (request-IsSteady q) (Keeps-lift _)

  pub cmd_set_mute-IsQuiet : (args : J) (muted : Bool) → Keeps IsQuiet (cmd_set_mute s args muted)
  unfolding cmd_set_mute
  cmd_set_mute-IsQuiet args muted = require_obs-Quiet (audio_request-IsSteady args _ _)

  pub cmd_toggle_mute-IsQuiet : (args : J) → Keeps IsQuiet (cmd_toggle_mute s args)
  unfolding cmd_toggle_mute
  cmd_toggle_mute-IsQuiet args = require_obs-Quiet (audio_request-IsSteady args _ _)

  pub cmd_set_volume-IsQuiet : (args : J) → Keeps IsQuiet (cmd_set_volume s args)
  unfolding cmd_set_volume
  cmd_set_volume-IsQuiet args =
      Keeps-bind (Keeps-lift _) λ percent. require_obs-Quiet (audio_request-IsSteady args _ _)

  pub toggle_output-IsQuiet :
      (question : RequestData F) (output : Text) → Keeps IsQuiet (toggle_output s question output)
  unfolding toggle_output
  toggle_output-IsQuiet question output =
      require_obs-Quiet (Keeps-bind (request-IsSteady question) λ result. Keeps-lift _)

  pub fetch_dumpable_obs_resources-IsQuiet : Keeps IsQuiet (fetch_dumpable_obs_resources s)
  unfolding fetch_dumpable_obs_resources
  fetch_dumpable_obs_resources-IsQuiet = require_obs-Quiet (
      Keeps-bind (request-IsSteady _) λ scene_resp. Keeps-bind (Keeps-lift _) λ scenes.
        Keeps-bind (request-IsSteady _)
          λ input_resp. Keeps-bind (Keeps-lift _) λ inputs. Keeps-lift _)
