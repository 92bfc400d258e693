-- ===== src/Server/Executor/Profiles/Transaction.antt =====
-- src/server/command_executor.rs: a command on scene profiles, as a whole.
use obsctl_rs.Prelude.{◌≡◌, refl, ap, Bool, true, false, some, List, Result, ok, err}
use obsctl_rs.Text.{Text, to_ascii_lowercase}
use obsctl_rs.Errors.{ObsctlError}
use obsctl_rs.Names.{normalized_name}
use obsctl_rs.Names.Laws.{IsName, IsName-checked_name}
use obsctl_rs.Config.{Config}
use obsctl_rs.Config.Schema.{Warning}
use obsctl_rs.Ipc.Commands.{
  ServerCommand, parse, set_scene_profile, clear_scene_profile, save_scene_profile,
  delete_scene_profile,
}
use obsctl_rs.Server.Args.{parse_server_command}
use obsctl_rs.Server.Args.Checked.{required_string-IsName}
use obsctl_rs.Server.Executor.{Setup, Daemon, Action, resume, ◌>>=◌, ◌>>◌, lift, reads}
use obsctl_rs.Server.Executor.Files.{check, edit_config_file}
use obsctl_rs.Server.Executor.Handle.{dispatch, execute, handle}
use obsctl_rs.Server.Executor.Profiles.Kept.{
  IsProfileEdit, activate-IsProfileEdit, deactivate-IsProfileEdit, save-IsProfileEdit,
  delete-IsProfileEdit,
}
use obsctl_rs.Server.Executor.Migrated.{IsMigrated}
use obsctl_rs.Server.Executor.Edit.{IsFileSystem, IsBase, IsStored, Ends, edit_config_file-Ends}
use obsctl_rs.Server.Executor.Profiles.{
  activate, deactivate, save, delete, cmd_set_scene_profile, cmd_clear_scene_profile,
  cmd_save_scene_profile, cmd_delete_scene_profile,
}
use obsctl_rs.Server.Executor.Profiles.Pointer.{
  IsPointed, activate-IsPointed, deactivate-IsPointed, delete-IsPointed, save-IsPointed,
}

module _ {F J Fs : Type 0} (s : Setup F J Fs) where
  -- What a command leaves: the state as it was; or a configuration that was checked, in memory and on
  -- disk, which has no legacy section, differs from the edited one in its scene profiles alone, and
  -- defines the profile that is switched on, if the edited one did.
  pub data IsTransaction (d d' : Daemon F J Fs) : Type 0 where
    unchanged : d' ≡ d → IsTransaction d d'
    edited :
        (base config : Config F) (ws : List Warning)
        → IsBase s d base
        → check s config ≡ ok ws
        → IsMigrated config
        → IsProfileEdit base config
        → d'.config ≡ config
        → IsStored s d d' config ws
        → (IsPointed base → IsPointed config)
        → IsTransaction d d'

  -- An edit of the scene profiles that keeps the switched-on one defined.
  abbrev Points : {B : Type 0} → (Config F → Result ObsctlError (Config F × B)) → Type 0
  Points {B} edit =
      (config config' : Config F) (out : B)
      → edit config ≡ ok (config', out)
      → IsProfileEdit config config' × (IsPointed config → IsPointed config')

  module _ {B : Type 0} (edit : Config F → Result ObsctlError (Config F × B)) where
    ended :
        (d : Daemon F J Fs) (r : Result ObsctlError (Config F × List Warning × B) × Daemon F J Fs)
        → Points edit
        → Ends s edit d r
        → IsTransaction d r.1
    ended d (err e, d') points same = unchanged same
    ended d (ok (config, ws, out), d') points h =
        let (rest, pointed) = points h.base config out h.edited in
        edited h.base config ws h.from h.valid h.migrated rest h.memory h.disk pointed

    resumed :
        {A : Type 0} (k : Config F × List Warning × B → Action F J Fs A)
        (r : Result ObsctlError (Config F × List Warning × B) × Daemon F J Fs)
        → ((x : Config F × List Warning × B) (d : Daemon F J Fs) → (k x d).1 ≡ d)
        → (resume k r).1 ≡ r.1
    resumed k (ok x, d) still = still x d
    resumed k (err e, d) still = refl

    edit_then-IsTransaction :
        {A : Type 0} (k : Config F × List Warning × B → Action F J Fs A) (d : Daemon F J Fs)
        → IsFileSystem s
        → IsMigrated d.config
        → Points edit
        → ((x : Config F × List Warning × B) (d : Daemon F J Fs) → (k x d).1 ≡ d)
        → IsTransaction d ((edit_config_file s edit >>= k) d).1
    unfolding ◌>>=◌
    edit_then-IsTransaction k d law m points still =
        rw (resumed k (edit_config_file s edit d) still) (
          ended d (edit_config_file s edit d) points (
            edit_config_file-Ends s law edit d
              (λ c c' out h. ap (λ x. x.connection) (points c c' out h).0) m))

  lift-IsTransaction :
      {A B : Type 0} (r : Result ObsctlError A) (k : A → Action F J Fs B) (d : Daemon F J Fs)
      → ((a : A) → r ≡ ok a → IsTransaction d (k a d).1)
      → IsTransaction d ((lift r >>= k) d).1
  unfolding lift ◌>>=◌
  lift-IsTransaction (ok a) k d h = h a refl
  lift-IsTransaction (err e) k d h = unchanged refl

  reads-lift :
      {A B : Type 0} (f : Daemon F J Fs → A) (g : A → Result ObsctlError B) (d : Daemon F J Fs)
      → ((reads f >>= λ a. lift (g a)) d).1 ≡ d
  unfolding reads lift ◌>>=◌
  reads-lift f g d = refl

  lift_still : {A : Type 0} (r : Result ObsctlError A) (d : Daemon F J Fs) → (lift r d).1 ≡ d
  unfolding lift
  lift_still r d = refl

  name-normal : (name : Text) → IsName name → (n : Text) × (normalized_name name ≡ ok n)
  unfolding normalized_name
  name-normal name h = (to_ascii_lowercase name, rw (IsName-checked_name name h) refl)

  cmd_set_scene_profile-IsTransaction :
      (args : J) (d : Daemon F J Fs)
      → IsFileSystem s
      → IsMigrated d.config
      → IsTransaction d (cmd_set_scene_profile s args d).1
  unfolding cmd_set_scene_profile
  cmd_set_scene_profile-IsTransaction args d law m = lift-IsTransaction _ _ d λ target given.
      edit_then-IsTransaction (activate target) _ d law m
        (λ c c' p h.
          (activate-IsProfileEdit target c c' p h, λ pointed. activate-IsPointed target c c' p h))
        (λ x d'. reads-lift _ _ d')

  cmd_save_scene_profile-IsTransaction :
      (args : J) (d : Daemon F J Fs)
      → IsFileSystem s
      → IsMigrated d.config
      → IsTransaction d (cmd_save_scene_profile s args d).1
  unfolding cmd_save_scene_profile
  cmd_save_scene_profile-IsTransaction args d law m = lift-IsTransaction _ _ d λ name given.
      lift-IsTransaction _ _ d λ hidden listed. lift-IsTransaction _ _ d λ rename asked.
        let (n, normal) = name-normal name (required_string-IsName s.json args _ name given) in
        edit_then-IsTransaction (save (record { name = name; hidden = hidden }) rename) _ d law m
          (λ c c' out h.
            (save-IsProfileEdit _ rename c c' out h, save-IsPointed _ rename c c' out n normal h))
          (λ x d'. reads-lift _ _ d')

  cmd_delete_scene_profile-IsTransaction :
      (args : J) (d : Daemon F J Fs)
      → IsFileSystem s
      → IsMigrated d.config
      → IsTransaction d (cmd_delete_scene_profile s args d).1
  unfolding cmd_delete_scene_profile
  cmd_delete_scene_profile-IsTransaction args d law m = lift-IsTransaction _ _ d λ target given.
      edit_then-IsTransaction (delete target) _ d law m
        (λ c c' out h. (delete-IsProfileEdit target c c' out h, delete-IsPointed target c c' out h))
        (λ x d'. lift_still _ d')

  cmd_clear_scene_profile-IsTransaction :
      (d : Daemon F J Fs)
      → IsFileSystem s
      → IsMigrated d.config
      → IsTransaction d (cmd_clear_scene_profile s d).1
  unfolding cmd_clear_scene_profile ◌>>◌ lift
  cmd_clear_scene_profile-IsTransaction d law m =
      edit_then-IsTransaction deactivate _ d law m
        (λ c c' u h. (deactivate-IsProfileEdit c c' u h, λ pointed. deactivate-IsPointed c c' u h))
        (λ x d'. refl)

  -- The commands that edit scene profiles.
  abbrev pub edits_profiles : ServerCommand → Bool
  edits_profiles set_scene_profile = true
  edits_profiles clear_scene_profile = true
  edits_profiles save_scene_profile = true
  edits_profiles delete_scene_profile = true
  edits_profiles _ = false

  dispatch-IsTransaction :
      (c : ServerCommand) (args : J) (d : Daemon F J Fs)
      → IsFileSystem s
      → IsMigrated d.config
      → edits_profiles c ≡ true
      → IsTransaction d (dispatch s c args d).1
  unfolding dispatch
  dispatch-IsTransaction set_scene_profile args d law m h =
      cmd_set_scene_profile-IsTransaction args d law m
  dispatch-IsTransaction clear_scene_profile args d law m h =
      cmd_clear_scene_profile-IsTransaction d law m
  dispatch-IsTransaction save_scene_profile args d law m h =
      cmd_save_scene_profile-IsTransaction args d law m
  dispatch-IsTransaction delete_scene_profile args d law m h =
      cmd_delete_scene_profile-IsTransaction args d law m
  dispatch-IsTransaction _ args d law m h = cc h

  -- If a write of the configuration's file replaces it whole or leaves it, what is written is read
  -- back without the legacy section, which is not written, and the configuration in memory has
  -- none: then a command on scene profiles, whatever it answers, leaves either the state as it was,
  -- or a configuration in memory that passes the check, has no legacy section and is in the file,
  -- or is the one that was in memory before while there is no file; it differs in its scene
  -- profiles and the one that is switched on alone from the configuration that was edited, which is
  -- the file's, or the one in memory if there is no file; and the profile that is switched on is
  -- defined in it if it was in that one.
  pub handle-IsTransaction :
      (id name : Text) (args : J) (c : ServerCommand) (d : Daemon F J Fs)
      → IsFileSystem s
      → IsMigrated d.config
      → parse name ≡ some c
      → edits_profiles c ≡ true
      → IsTransaction d (handle s (record { id = id; name = name; args = args }) d).1
  unfolding handle execute parse_server_command ◌>>◌
  handle-IsTransaction id name args c d law m known edits = lift-IsTransaction _ _ d λ c' parsed.
      lift-IsTransaction _ _ d λ _ valid.
        dispatch-IsTransaction c' args d law m
          (let same : c' ≡ c = cc (rw (known, parse_server_command) at parsed) in rw same edits)
