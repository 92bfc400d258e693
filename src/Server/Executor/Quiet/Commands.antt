-- ===== src/Server/Executor/Quiet/Commands.antt =====
-- src/server/command_executor.rs: what each command sends while OBS is away.
use obsctl_rs.Prelude.{
  refl, List, [], ◌∷◌, Result, ok, err, Result-cases, inl, inr, Bool-cases, ltb, length,
}
use obsctl_rs.Text.{Text, text}
use obsctl_rs.Errors.{ObsctlError}
use obsctl_rs.Config.{Config}
use obsctl_rs.Config.Schema.{Warning}
use obsctl_rs.Server.Adapter.{LogLine}
use obsctl_rs.Server.Executor.{Setup, Daemon, changes, log}
use obsctl_rs.Server.Executor.Files.{
  load_with_warnings, write_atomic, log_config_warnings, adopt, edit_config_file,
  reload_config_from_disk, report_reload, cmd_reload_config,
}
use obsctl_rs.Server.Executor.Profiles.{
  cmd_set_scene_profile, cmd_clear_scene_profile, cmd_save_scene_profile, cmd_delete_scene_profile,
}
use obsctl_rs.Server.Executor.Dump.{write_backup, reload_after_dump, cmd_dump_config}
use obsctl_rs.Server.Executor.Quiet.Control.{fetch_dumpable_obs_resources-IsQuiet}
use obsctl_rs.Server.Executor.Quiet.{
  IsQuiet, Keeps, Keeps-bind, Keeps-then, Keeps-lift, Keeps-reads, Keeps-if, IsSteady-IsPreorder,
  IsQuiet-IsPreorder,
}

module _ {F J Fs : Type 0} (s : Setup F J Fs) where
  -- The steps that touch the file and the memory.
  pub log-IsQuiet : (line : LogLine F) (d : Daemon F J Fs) → IsQuiet d (log s line d)
  unfolding log
  log-IsQuiet line d = record { obs = refl; sent = λ away. refl }

  log_config_warnings-IsQuiet :
      (context : Text) (ws : List Warning) (d : Daemon F J Fs)
      → IsQuiet d (log_config_warnings s context ws d)
  unfolding log_config_warnings
  log_config_warnings-IsQuiet context [] d = record { obs = refl; sent = λ away. refl }
  log_config_warnings-IsQuiet context (w ∷ ws) d =
      IsQuiet-IsPreorder.transitive _ _ _ (log-IsQuiet _ d)
        (log_config_warnings-IsQuiet context ws (log s _ d))

  pub Quiet-changes :
      (f : Daemon F J Fs → Daemon F J Fs)
      → ((d : Daemon F J Fs) → IsQuiet d (f d))
      → Keeps IsQuiet (changes f)
  unfolding changes
  Quiet-changes f h = record { along = h }

  adopt-IsQuiet : (config : Config F) (d : Daemon F J Fs) → IsQuiet d (adopt s config d)
  unfolding adopt
  adopt-IsQuiet config d = record { obs = refl; sent = λ away. refl }

  write_atomic-IsQuiet : (config : Config F) → Keeps IsQuiet (write_atomic s config)
  unfolding write_atomic
  write_atomic-IsQuiet config = record {
    along = λ d. elim (Result-cases (s.to_yaml config)) [
      | inl (content, good) ↦ rw (good, write_atomic) (record { obs = refl; sent = λ away. refl })
      | inr (e, bad) ↦ rw (bad, write_atomic) (record { obs = refl; sent = λ away. refl })
    ];
  }

  edit_config_file-IsQuiet :
      {B : Type 0} (edit : Config F → Result ObsctlError (Config F × B))
      → Keeps IsQuiet (edit_config_file s edit)
  unfolding edit_config_file
  edit_config_file-IsQuiet edit = Keeps-bind (Keeps-lift _) λ path.
      Keeps-bind (Keeps-reads _) λ base. Keeps-then (Keeps-lift _) (
        Keeps-bind (Keeps-lift _) λ edited. Keeps-bind (Keeps-lift _) λ warnings.
          Keeps-then (Keeps-if _ (write_atomic-IsQuiet _) (Keeps-lift _)) (
            Keeps-then (Quiet-changes _ (adopt-IsQuiet _))
              (Keeps-then (Quiet-changes _ (log_config_warnings-IsQuiet _ _)) (Keeps-lift _))))

  pub cmd_set_scene_profile-IsQuiet : (args : J) → Keeps IsQuiet (cmd_set_scene_profile s args)
  unfolding cmd_set_scene_profile
  cmd_set_scene_profile-IsQuiet args = Keeps-bind (Keeps-lift _) λ target.
      Keeps-bind (edit_config_file-IsQuiet _)
        λ edited. Keeps-bind (Keeps-reads _) λ hidden. Keeps-lift _

  pub cmd_save_scene_profile-IsQuiet : (args : J) → Keeps IsQuiet (cmd_save_scene_profile s args)
  unfolding cmd_save_scene_profile
  cmd_save_scene_profile-IsQuiet args = Keeps-bind (Keeps-lift _) λ name.
      Keeps-bind (Keeps-lift _) λ hidden. Keeps-bind (Keeps-lift _) λ rename.
        Keeps-bind (edit_config_file-IsQuiet _)
          λ edited. Keeps-bind (Keeps-reads _) λ effective. Keeps-lift _

  pub cmd_delete_scene_profile-IsQuiet :
      (args : J) → Keeps IsQuiet (cmd_delete_scene_profile s args)
  unfolding cmd_delete_scene_profile
  cmd_delete_scene_profile-IsQuiet args =
      Keeps-bind (Keeps-lift _)
        λ target. Keeps-bind (edit_config_file-IsQuiet _) λ edited. Keeps-lift _

  pub cmd_clear_scene_profile-IsQuiet : Keeps IsQuiet (cmd_clear_scene_profile s)
  unfolding cmd_clear_scene_profile
  cmd_clear_scene_profile-IsQuiet = Keeps-then (edit_config_file-IsQuiet _) (Keeps-lift _)

  report_reload-IsQuiet :
      (r : Result ObsctlError (List Warning)) (d : Daemon F J Fs) → IsQuiet d (report_reload s r d)
  unfolding report_reload
  report_reload-IsQuiet (err e) d = log-IsQuiet _ d
  report_reload-IsQuiet (ok ws) d = elim (Bool-cases (ltb 0 (length ws))) [
    | inl some_warning ↦
        rw (some_warning, report_reload)
          (IsQuiet-IsPreorder.transitive _ _ _ (log-IsQuiet _ d) (log-IsQuiet _ (log s _ d)))
    | inr no_warning ↦ rw (no_warning, report_reload) (log-IsQuiet _ d)
  ]

  reload_config_from_disk-IsQuiet : Keeps IsQuiet (reload_config_from_disk s)
  unfolding reload_config_from_disk
  reload_config_from_disk-IsQuiet = Keeps-bind (Keeps-lift _) λ path.
      Keeps-bind (Keeps-reads _) λ file. Keeps-bind (Keeps-lift _) λ loaded.
        Keeps-then (Quiet-changes _ (log_config_warnings-IsQuiet _ _))
          (Keeps-then (Quiet-changes _ (adopt-IsQuiet _)) (Keeps-lift _))

  pub cmd_reload_config-IsQuiet : Keeps IsQuiet (cmd_reload_config s)
  unfolding cmd_reload_config
  cmd_reload_config-IsQuiet = record {
    along = λ d.
        IsQuiet-IsPreorder.transitive _ _ _ (reload_config_from_disk-IsQuiet.along d)
          (report_reload-IsQuiet (reload_config_from_disk s d).0 (reload_config_from_disk s d).1);
  }

  write_backup-IsQuiet : Keeps IsQuiet (write_backup s)
  unfolding write_backup
  write_backup-IsQuiet = record { along = λ d. record { obs = refl; sent = λ away. refl } }

  reload_after_dump-IsQuiet : Keeps IsQuiet (reload_after_dump s)
  unfolding reload_after_dump
  reload_after_dump-IsQuiet = record {
    along = λ d. elim (Result-cases (load_with_warnings s d.file)) [
      | inl (loaded, good) ↦
          rw (good, reload_after_dump)
            (let q = log_config_warnings-IsQuiet (text "after dump reload") loaded.1 d in
              record { obs = q.obs; sent = q.sent })
      | inr (e, bad) ↦ rw (bad, reload_after_dump) (log-IsQuiet _ d)
    ];
  }

  pub cmd_dump_config-IsQuiet : Keeps IsQuiet (cmd_dump_config s)
  unfolding cmd_dump_config
  cmd_dump_config-IsQuiet = Keeps-bind (Keeps-lift _) λ path.
      Keeps-bind (fetch_dumpable_obs_resources-IsQuiet s) λ resources.
        Keeps-bind (Keeps-reads _) λ base. Keeps-bind (Keeps-lift _) λ merged.
          Keeps-then write_backup-IsQuiet (
            Keeps-then (write_atomic-IsQuiet merged)
              (Keeps-bind reload_after_dump-IsQuiet λ reload. Keeps-lift _))
