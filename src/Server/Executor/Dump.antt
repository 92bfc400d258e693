-- ===== src/Server/Executor/Dump.antt =====
-- src/server/command_executor.rs: the command that writes OBS's scenes and inputs to the
-- configuration's file.
use obsctl_rs.Prelude.{Option, none, some, List, [], ok, err, ok_or, is_some, length}
use obsctl_rs.Text.{Text, text}
use obsctl_rs.Errors.{config_invalid, no_config_path}
use obsctl_rs.Config.Schema.{Warning}
use obsctl_rs.Config.Dump.{ObsResources, merge}
use obsctl_rs.Obs.Requests.{get_scene_list, get_input_list}
use obsctl_rs.Server.Adapter.{dump_reload_failed}
use obsctl_rs.Server.Fetch.{extract_resource_names}
use obsctl_rs.Server.Executor.{
  Setup, Action, Reply, ◌>>=◌, ◌>>◌, lift, reads, require_obs, request, log, serialize_result,
}
use obsctl_rs.Server.Executor.Files.{
  load_with_warnings, write_atomic, config_write_base, log_config_warnings,
}

pub record DumpReloadOutcome : Type 0 where
  pub warnings : List Warning
  pub error : Option Text

module _ {F J Fs : Type 0} (s : Setup F J Fs) where
  unfoldable pub fetch_dumpable_obs_resources : Action F J Fs ObsResources
  fetch_dumpable_obs_resources = do
    require_obs
    scene_resp ← request s get_scene_list
    scenes ← lift (extract_resource_names s.json scene_resp (text "scenes") (text "sceneName"))
    input_resp ← request s get_input_list
    inputs ← lift (extract_resource_names s.json input_resp (text "inputs") (text "inputName"))
    lift (ok (record { scenes = scenes; inputs = inputs }))

  -- `fs::write_atomic_with_temp_file` of the backup.
  unfoldable pub write_backup : Action F J Fs (Unit {0})
  write_backup d = let (r, file) = s.write_backup d.file in (r, record d { file = file })

  -- The new configuration is kept, but the snapshot takes nothing from it.
  unfoldable pub reload_after_dump : Action F J Fs DumpReloadOutcome
  reload_after_dump d = elim (load_with_warnings s d.file) [
    | ok loaded ↦ (
      ok (record { warnings = loaded.1; error = none }),
      record (log_config_warnings s (text "after dump reload") loaded.1 d) { config = loaded.0 },
    )
    | err e ↦
        (ok (record { warnings = []; error = some (s.display e) }), log s (dump_reload_failed e) d)
  ]

  unfoldable pub cmd_dump_config : Action F J Fs J
  cmd_dump_config = do
    path ← lift (ok_or s.config_path (config_invalid no_config_path))
    obs_resources ← fetch_dumpable_obs_resources
    base ← reads (λ d. config_write_base s d.file d.config)
    merged ← lift (merge base.config obs_resources)
    write_backup
    write_atomic s merged
    reload ← reload_after_dump
    lift (
        serialize_result s
          (Reply.config_dumped (record {
            merge_base_error = base.error;
            reload_failed = is_some reload.error;
            warnings = reload.warnings;
            reload_error = reload.error;
            scenes = length merged.scenes;
            inputs = length merged.audio.inputs;
          }))
          (text "dump-config result"))
