-- ===== src/Server/Executor/Profiles.antt =====
-- src/server/command_executor.rs: the commands on scene profiles.
pub mod Places
pub mod Names
pub mod Pointer
pub mod Kept
pub mod Transaction
use obsctl_rs.Prelude.{
  ℕ, zero, suc, Bool, true, false, not, Option, none, some, List, [], ◌∷◌, ◌++◌, Result, ok, err,
  and_then, is_some_and, map, map_some, find, retain, length, get_elem?, if◌then◌else◌, ◌==◌,
  list_eq, nat_eq,
}
use obsctl_rs.Text.{Text, text, is_empty}
use obsctl_rs.Errors.{ObsctlError, config_invalid, scene_profile_unknown, scene_profile_taken}
use obsctl_rs.Names.{normalized_name}
use obsctl_rs.Visibility.{named, is_hidden}
use obsctl_rs.Visibility
use obsctl_rs.Config.{Config, SceneProfileConfig, active_profile}
use obsctl_rs.Ipc.Commands.{rename_from}
use obsctl_rs.Obs.{ObsSnapshot}
use obsctl_rs.Server.Args.{required_string, optional_string, required_string_array}
use obsctl_rs.Server.Executor.{
  Setup, Action, Reply, ◌>>=◌, ◌>>◌, lift, reads, serialize_result, SceneProfileListing,
}
use obsctl_rs.Server.Executor.Files.{edit_config_file}

unfoldable pub same_scene_profile_name : Text → Text → Bool
same_scene_profile_name left right = elim (normalized_name left) [
  | err e ↦ false
  | ok l ↦ elim (normalized_name right) [ err e ↦ false | ok r ↦ l == r ]
]

-- `Iterator::position`.
unfoldable pub position {ℓ} : {A : Type ℓ} → (A → Bool) → List A → Option ℕ
position p [] = none
position p (x ∷ xs) = let rest = position p xs in if p x then some 0 else map_some (λ i. suc i) rest

-- `list[index] = value`, where the index is in range.
unfoldable pub set_at {ℓ} : {A : Type ℓ} → List A → ℕ → A → List A
set_at [] i value = []
set_at (x ∷ xs) zero value = value ∷ xs
set_at (x ∷ xs) (suc i) value = x ∷ set_at xs i value

-- `Vec::remove`, what stays.
unfoldable pub remove_at {ℓ} : {A : Type ℓ} → List A → ℕ → List A
remove_at [] i = []
remove_at (x ∷ xs) zero = xs
remove_at (x ∷ xs) (suc i) = x ∷ remove_at xs i

-- What a save notes: whether it created a profile, and whether it renamed one.
pub record Saved : Type 0 where
  pub created : Bool
  pub renamed : Bool

unfoldable pub is_other : ℕ → Option ℕ → Bool
is_other from by_name = is_some_and by_name (λ other. not (from == other))

module _ {F : Type 0} where
  unfoldable pub find_scene_profile : Config F → Text → Option SceneProfileConfig
  find_scene_profile config target =
      find (λ p. same_scene_profile_name p.name target) config.scene_profiles

  unfoldable pub scene_profile_position : Config F → Text → Option ℕ
  scene_profile_position config target =
      position (λ p. same_scene_profile_name p.name target) config.scene_profiles

  unfoldable pub is_active : Config F → Text → Bool
  is_active config name =
      is_some_and config.active_scene_profile (λ active. same_scene_profile_name active name)

  -- The closure of `cmd_set_scene_profile`.
  unfoldable pub activate : Text → Config F → Result ObsctlError (Config F × SceneProfileConfig)
  activate target config = elim (find_scene_profile config target) [
    | none ↦ err (config_invalid (scene_profile_unknown target))
    | some p ↦ ok (record config { active_scene_profile = some p.name }, p)
  ]

  unfoldable pub deactivate : Config F → Result ObsctlError (Config F × Unit {0})
  deactivate config = ok (record config { active_scene_profile = none }, tt)

  -- A save onto the profile at `from`, whose name may change.
  unfoldable pub replace_profile :
      SceneProfileConfig → ℕ → SceneProfileConfig → Config F → Config F × Saved
  replace_profile profile from previous config = (
    record config {
      scene_profiles = set_at config.scene_profiles from profile;
      active_scene_profile =
          if is_active config previous.name then some profile.name else config.active_scene_profile;
    },
    record { created = false; renamed = not (same_scene_profile_name previous.name profile.name) },
  )

  -- A save that replaces what has the same name, or adds.
  unfoldable pub write_profile : SceneProfileConfig → Option ℕ → Config F → Config F × Saved
  write_profile profile (some index) config = (
    record config { scene_profiles = set_at config.scene_profiles index profile },
    record { created = false; renamed = false },
  )
  write_profile profile none config = (
    record config { scene_profiles = config.scene_profiles ++ profile ∷ [] },
    record { created = true; renamed = false },
  )

  -- The closure of `cmd_save_scene_profile`; the index out of range, where the code would panic, is
  -- an error of a name that is not defined.
  unfoldable pub save :
      SceneProfileConfig → Option Text → Config F → Result ObsctlError (Config F × Saved)
  save profile rename config =
      let by_name = scene_profile_position config profile.name in
      elim (and_then rename (λ previous. scene_profile_position config previous)) [
        | none ↦ ok (write_profile profile by_name config)
        | some from ↦
            if is_other from by_name
            then err (config_invalid (scene_profile_taken profile.name))
            else elim (get_elem? config.scene_profiles from) [
              | none ↦ err (config_invalid (scene_profile_unknown profile.name))
              | some previous ↦ ok (replace_profile profile from previous config)
            ]
      ]

  -- The closure of `cmd_delete_scene_profile`, with the name that was deleted and whether the profile
  -- was on.
  unfoldable pub delete : Text → Config F → Result ObsctlError (Config F × (Text × Bool))
  delete target config = elim (scene_profile_position config target) [
    | none ↦ err (config_invalid (scene_profile_unknown target))
    | some index ↦ elim (get_elem? config.scene_profiles index) [
      | none ↦ err (config_invalid (scene_profile_unknown target))
      | some removed ↦
          let was_active = is_active config removed.name in
          ok (
            record config {
              scene_profiles = remove_at config.scene_profiles index;
              active_scene_profile = if was_active then none else config.active_scene_profile;
            },
            (removed.name, was_active),
          )
    ]
  ]

  unfoldable pub scenes_hidden_by : ObsSnapshot F → List Text → ℕ
  scenes_hidden_by snapshot hidden =
      if is_empty snapshot.scenes
      then length hidden
      else length (
          retain (λ scene. is_hidden (Visibility.resolve [] (named hidden)) scene.name)
            snapshot.scenes)

  unfoldable pub listing : Config F → SceneProfileListing
  listing config = record {
    active = map_some (λ p. p.name) (active_profile config);
    profiles = map (λ p. record { name = p.name; hidden = p.hidden }) config.scene_profiles;
  }

module _ {F J Fs : Type 0} (s : Setup F J Fs) where
  unfoldable pub cmd_set_scene_profile : J → Action F J Fs J
  cmd_set_scene_profile args = do
    target ← lift (required_string s.json args (text "target"))
    edited ← edit_config_file s (activate target)
    hidden ← reads (λ d. scenes_hidden_by d.store.inner edited.2.hidden)
    lift (
        serialize_result s
          (Reply.profile_set (record {
            name = edited.2.name;
            hidden = hidden;
            listed = length edited.2.hidden;
            warnings = edited.1;
          }))
          (text "scene profile set result"))

  unfoldable pub cmd_clear_scene_profile : Action F J Fs J
  cmd_clear_scene_profile = do
    edit_config_file s deactivate
    lift (ok (s.reply_value Reply.profile_cleared))

  unfoldable pub cmd_save_scene_profile : J → Action F J Fs J
  cmd_save_scene_profile args = do
    name ← lift (required_string s.json args (text "target"))
    hidden ← lift (required_string_array s.json args (text "hidden"))
    rename ← lift (optional_string s.json args rename_from)
    edited ← edit_config_file s (save (record { name = name; hidden = hidden }) rename)
    effective ← reads (λ d. scenes_hidden_by d.store.inner hidden)
    lift (
        serialize_result s
          (Reply.profile_saved (record {
            name = name;
            hidden = effective;
            listed = length hidden;
            created = edited.2.created;
            renamed = edited.2.renamed;
            active = is_active edited.0 name;
            warnings = edited.1;
          }))
          (text "scene profile save result"))

  unfoldable pub cmd_delete_scene_profile : J → Action F J Fs J
  cmd_delete_scene_profile args = do
    target ← lift (required_string s.json args (text "target"))
    edited ← edit_config_file s (delete target)
    lift (
        serialize_result s
          (Reply.profile_deleted (record { name = edited.2.0; deactivated = edited.2.1 }))
          (text "scene profile delete result"))

  unfoldable pub cmd_list_scene_profiles : Action F J Fs J
  cmd_list_scene_profiles = do
    config ← reads (λ d. d.config)
    lift
        (serialize_result s (Reply.profile_listing (listing config)) (text "scene profile listing"))
