-- ===== src/Server/Executor/Profiles/Kept.antt =====
-- src/server/command_executor.rs: what the edits of the scene profiles leave alone.
use obsctl_rs.Prelude.{
  ℕ, ◌≡◌, refl, ap, subst, Bool, Option, none, some, Result, ok, and_then, get_elem?, Bool-cases,
  Option-cases, inl, inr, ok_injective,
}
use obsctl_rs.Text.{Text}
use obsctl_rs.Errors.{ObsctlError}
use obsctl_rs.Config.{Config, SceneProfileConfig}
use obsctl_rs.Server.Executor.Profiles.{
  Saved, is_other, find_scene_profile, scene_profile_position, activate, deactivate,
  replace_profile, write_profile, save, delete,
}

-- Nothing but the scene profiles and the one that is switched on differs.
abbrev pub IsProfileEdit : {F : Type 0} → Config F → Config F → Type 0
IsProfileEdit config config' = config' ≡ record config {
  scene_profiles = config'.scene_profiles;
  active_scene_profile = config'.active_scene_profile;
}

module _ {F : Type 0} where
  given_by :
      {B : Type 0} (config c config' : Config F) (b out : B)
      → ◌≡◌ {A = Result ObsctlError (Config F × B)} (ok (c, b)) (ok (config', out))
      → IsProfileEdit config c
      → IsProfileEdit config config'
  given_by config c config' b out h edit =
      subst (IsProfileEdit config) (ap (λ r. r.0) (ok_injective _ _ h)) edit

  pub activate-IsProfileEdit :
      (target : Text) (config config' : Config F) (p : SceneProfileConfig)
      → activate target config ≡ ok (config', p)
      → IsProfileEdit config config'
  unfolding activate
  activate-IsProfileEdit target config config' p h =
      elim (Option-cases (find_scene_profile config target)) [
        | inl nothing ↦ cc (rw (nothing, activate) at h)
        | inr (q, found) ↦ given_by config _ config' q p (rw (found, activate) at h) refl
      ]

  pub deactivate-IsProfileEdit :
      (config config' : Config F) (u : Unit {0})
      → deactivate config ≡ ok (config', u)
      → IsProfileEdit config config'
  unfolding deactivate
  deactivate-IsProfileEdit config config' u h = given_by config _ config' tt u h refl

  write_profile-IsProfileEdit :
      (profile : SceneProfileConfig) (o : Option ℕ) (config config' : Config F) (saved : Saved)
      → ◌≡◌ {A = Result ObsctlError (Config F × Saved)}
          (ok (write_profile profile o config))
          (ok (config', saved))
      → IsProfileEdit config config'
  unfolding write_profile
  write_profile-IsProfileEdit profile none config config' saved h =
      given_by config _ config' _ saved h refl
  write_profile-IsProfileEdit profile (some i) config config' saved h =
      given_by config _ config' _ saved h refl

  pub save-IsProfileEdit :
      (profile : SceneProfileConfig) (rename : Option Text) (config config' : Config F)
      (saved : Saved)
      → save profile rename config ≡ ok (config', saved)
      → IsProfileEdit config config'
  unfolding save replace_profile
  save-IsProfileEdit profile rename config config' saved h =
      elim (Option-cases (and_then rename (λ previous. scene_profile_position config previous))) [
        | inl fresh ↦
            write_profile-IsProfileEdit profile (scene_profile_position config profile.name) config
              config' saved (rw (fresh, save) at h)
        | inr (from, at) ↦
            elim (Bool-cases (is_other from (scene_profile_position config profile.name))) [
              | inl taken ↦ cc (rw (at, taken, save) at h)
              | inr free ↦ elim (Option-cases (get_elem? config.scene_profiles from)) [
                | inl gone ↦ cc (rw (at, free, gone, save) at h)
                | inr (previous, here) ↦
                    given_by config _ config' _ saved (rw (at, free, here, save) at h) refl
              ]
            ]
      ]

  pub delete-IsProfileEdit :
      (target : Text) (config config' : Config F) (out : Text × Bool)
      → delete target config ≡ ok (config', out)
      → IsProfileEdit config config'
  unfolding delete
  delete-IsProfileEdit target config config' out h =
      elim (Option-cases (scene_profile_position config target)) [
        | inl nothing ↦ cc (rw (nothing, delete) at h)
        | inr (i, found) ↦ elim (Option-cases (get_elem? config.scene_profiles i)) [
          | inl gone ↦ cc (rw (found, gone, delete) at h)
          | inr (old, at) ↦ given_by config _ config' _ out (rw (found, at, delete) at h) refl
        ]
      ]
