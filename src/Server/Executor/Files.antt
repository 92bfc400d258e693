-- ===== src/Server/Executor/Files.antt =====
-- src/server/command_executor.rs: the commands that read the configuration's file, and the edit of
-- that file. src/config/loader.rs and src/config/writer.rs: the reading and writing, without the checks
-- of the directory, which belong to the file system that is given.
use obsctl_rs.Prelude.{
  ℕ, Bool, true, false, not, ◌&&◌, Option, none, some, List, [], ◌∷◌, Result, ok, err, map_err,
  ok_or, ltb, length, if◌then◌else◌, ◌==◌, list_eq, nat_eq, Result-cases,
}
use obsctl_rs.Prelude
use obsctl_rs.Text.{Text, text}
use obsctl_rs.Errors.{
  ObsctlError, config_invalid, config_not_found, other_message, no_config_path,
  refusing_to_overwrite,
}
use obsctl_rs.Config.{Config, from_document}
use obsctl_rs.Config.Schema.{Warning, validate}
use obsctl_rs.Server.Adapter.{
  config_warning, config_reloaded, config_reloaded_with_warnings, config_reload_failed,
}
use obsctl_rs.Server.Projection.{from_config}
use obsctl_rs.Server.Store.{merge_config}
use obsctl_rs.Server.Executor.{Setup, Daemon, Action, Reply, ◌>>=◌, ◌>>◌, lift, reads, changes, log}

-- `ConfigWriteBase`.
pub record ConfigWriteBase (F : Type 0) : Type 0 where
  pub config : Config F
  pub error : Option Text
  pub missing : Bool

unfoldable pub is_not_found : ObsctlError → Bool
is_not_found (config_not_found path) = true
is_not_found _ = false

module _ {F J Fs : Type 0} (s : Setup F J Fs) where
  unfoldable pub check : Config F → Result ObsctlError (List Warning)
  check config = validate s.floats s.environment s.socket_check config

  -- `serde_yaml::from_str` into a configuration, by its `#[serde(from = "ConfigDocument")]`.
  unfoldable pub parse_config : Text → Result Text (Config F)
  parse_config content = Prelude.map_ok (from_document s.default_reconnect) (s.from_yaml content)

  unfoldable pub load_with_warnings : Fs → Result ObsctlError (Config F × List Warning)
  load_with_warnings file = Prelude.◌>>=◌ (s.read_file file) λ content.
      Prelude.◌>>=◌ (map_err (λ e. config_invalid (other_message e)) (parse_config content))
        λ config. Prelude.◌>>=◌ (check config) λ warnings. ok (config, warnings)

  -- Without YAML nothing is written.
  unfoldable pub write_atomic : Config F → Action F J Fs (Unit {0})
  write_atomic config d = elim (s.to_yaml config) [
    | err e ↦ (err (config_invalid (other_message e)), d)
    | ok content ↦ let (r, file) = s.replace_file content d.file in (r, record d { file = file })
  ]

  unfoldable pub config_write_base : Fs → Config F → ConfigWriteBase F
  config_write_base file in_memory = elim (load_with_warnings file) [
    | ok loaded ↦ record { config = loaded.0; error = none; missing = false }
    | err e ↦ record { config = in_memory; error = some (s.display e); missing = is_not_found e }
  ]

  unfoldable pub config_file_would_change : Config F → Config F → Bool
  config_file_would_change before after = elim (s.to_yaml before) [
    | err e ↦ true
    | ok old ↦ elim (s.to_yaml after) [ err e ↦ true | ok new ↦ not (old == new) ]
  ]

  unfoldable pub refuse_unreadable : ConfigWriteBase F → Result ObsctlError (Unit {0})
  refuse_unreadable base = elim base.error [
    | none ↦ ok tt
    | some e ↦ if not base.missing then err (config_invalid (refusing_to_overwrite e)) else ok tt
  ]

  unfoldable pub log_config_warnings : Text → List Warning → Daemon F J Fs → Daemon F J Fs
  log_config_warnings context [] d = d
  log_config_warnings context (w ∷ ws) d =
      log_config_warnings context ws (log s (config_warning context w) d)

  -- The new configuration in memory, and what the snapshot takes from it.
  unfoldable pub adopt : Config F → Daemon F J Fs → Daemon F J Fs
  adopt config d = record d {
    config = config;
    store = merge_config s.floats s.wire (from_config config) s.now store;
  }
    where
      open d use {store}

  -- `edit_config_file`; beside the configuration the edit gives what its closure notes.
  unfoldable pub edit_config_file :
      {B : Type 0}
      → (Config F → Result ObsctlError (Config F × B))
      → Action F J Fs (Config F × List Warning × B)
  edit_config_file edit = do
    path ← lift (ok_or s.config_path (config_invalid no_config_path))
    base ← reads (λ d. config_write_base d.file d.config)
    lift (refuse_unreadable base)
    edited ← lift (edit base.config)
    warnings ← lift (check edited.0)
    if config_file_would_change base.config edited.0 then write_atomic edited.0 else lift (ok tt)
    changes (adopt edited.0)
    changes (log_config_warnings (text "after scene profile change") warnings)
    lift (ok (edited.0, warnings, edited.1))

  unfoldable pub cmd_validate_config : Action F J Fs J
  cmd_validate_config = do
    config ← reads (λ d. d.config)
    warnings ← lift (check config)
    lift (ok (s.reply_value (Reply.config_valid warnings)))

  unfoldable pub reload_config_from_disk : Action F J Fs (List Warning)
  reload_config_from_disk = do
    path ← lift (ok_or s.config_path (config_invalid no_config_path))
    file ← reads (λ d. d.file)
    loaded ← lift (load_with_warnings file)
    changes (log_config_warnings (text "on reload") loaded.1)
    changes (adopt loaded.0)
    lift (ok loaded.1)

  -- The lines about a reload that are published.
  unfoldable pub report_reload : Result ObsctlError (List Warning) → Daemon F J Fs → Daemon F J Fs
  report_reload (err e) d = log s (config_reload_failed e) d
  report_reload (ok warnings) d =
      let logged = log s config_reloaded d in
      if ltb 0 (length warnings)
      then log s (config_reloaded_with_warnings (length warnings)) logged
      else logged

  unfoldable pub cmd_reload_config : Action F J Fs J
  cmd_reload_config d =
      let (r, d') = reload_config_from_disk d in
      (Prelude.map_ok (λ ws. s.reply_value (Reply.config_reloaded ws)) r, report_reload r d')
