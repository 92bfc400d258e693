-- ===== src/Server/Executor/Profiles/Pointer.antt =====
-- src/server/command_executor.rs: the profile that is switched on, under the edits of the profiles.
use obsctl_rs.Prelude.{
  ℕ, ◌≡◌, inl, inr, ap, sym, ◌∙◌, Bool, true, false, Option, none, some, Result, ok, find,
  Bool-cases, Option-cases, In-find, ok_injective,
}
use mathlib.Core.Path.{fun_ext}
use obsctl_rs.Text.{Text}
use obsctl_rs.Errors.{ObsctlError}
use obsctl_rs.Names.{normalized_name}
use obsctl_rs.Config.{Config, SceneProfileConfig}
use obsctl_rs.Server.Executor.Profiles.{
  same_scene_profile_name, find_scene_profile, scene_profile_position, is_active, activate,
  deactivate, Saved, replace_profile, write_profile, is_other, save, delete,
}
use obsctl_rs.Server.Executor.Profiles.Places.{find-remove_at_other}
use obsctl_rs.Server.Executor.Profiles.Names.{
  same-normal, normal-same, same-false, IsReplaced, IsSaved, position-found, save-IsSaved,
}

same-sym : (a b : Text) → same_scene_profile_name a b ≡ true → same_scene_profile_name b a ≡ true
same-sym a b h = let (n, an, bn) = same-normal a b h in normal-same b a n bn an

same-sym_false :
    (a b : Text) → same_scene_profile_name a b ≡ false → same_scene_profile_name b a ≡ false
same-sym_false a b h = elim (Bool-cases (same_scene_profile_name b a)) [
  | inr other ↦ other
  | inl same ↦ cc (same-sym b a same, h)
]

-- Two spellings of a name are the same to a third.
same-both :
    (x a b : Text)
    → same_scene_profile_name a b ≡ true
    → same_scene_profile_name x a ≡ same_scene_profile_name x b
same-both x a b ab = elim (Bool-cases (same_scene_profile_name x a)) [
  | inl xa ↦
      (let (n, xn, an) = same-normal x a xa in
        let (m, am, bm) = same-normal a b ab in
        let equal : n ≡ m = ok_injective _ _ (sym an ∙ am) in
        xa ∙ sym (normal-same x b m (rw equal at xn) bm))
  | inr xa ↦
      xa ∙ sym (same-sym_false b x (same-false b a x (same-sym a b ab) (same-sym_false x a xa)))
]

module _ {F : Type 0} where
  find-same :
      (config : Config F) (a b : Text)
      → same_scene_profile_name a b ≡ true
      → find_scene_profile config a ≡ find_scene_profile config b
  unfolding find_scene_profile
  find-same config a b h =
      ap (λ p. find p config.scene_profiles)
        (fun_ext (λ (x : SceneProfileConfig). same-both x.name a b h))

  -- The profile that is switched on is defined.
  abbrev pub IsPointed : Config F → Type 0
  IsPointed config =
      (active : Text)
      → config.active_scene_profile ≡ some active
      → (p : SceneProfileConfig) × (find_scene_profile config active ≡ some p)

  find-list :
      (c c' : Config F) (a : Text)
      → c'.scene_profiles ≡ c.scene_profiles
      → find_scene_profile c' a ≡ find_scene_profile c a
  unfolding find_scene_profile
  find-list c c' a e = ap (λ l. find (λ p. same_scene_profile_name p.name a) l) e

  found-same :
      (c : Config F) (t : Text) (q : SceneProfileConfig)
      → find_scene_profile c t ≡ some q
      → same_scene_profile_name q.name t ≡ true
  unfolding find_scene_profile
  found-same c t q h =
      (In-find (λ (p : SceneProfileConfig). same_scene_profile_name p.name t) c.scene_profiles q
        h).1

  pub activate-IsPointed :
      (target : Text) (config config' : Config F) (p : SceneProfileConfig)
      → activate target config ≡ ok (config', p)
      → IsPointed config'
  unfolding activate
  activate-IsPointed target config config' p h active on =
      elim (Option-cases (find_scene_profile config target)) [
        | inl nothing ↦ cc (rw (nothing, activate) at h)
        | inr (q, found) ↦
            (let e = ok_injective _ _ (rw (found, activate) at h) in
              let named : some q.name ≡ some active = ap (λ r. r.0.active_scene_profile) e ∙ on in
              let same : q.name ≡ active = cc named in
              (
                q,
                rw (← same) (
                    find-list config config' q.name (sym (ap (λ r. r.0.scene_profiles) e))
                    ∙ find-same config q.name target (found-same config target q found)
                    ∙ found),
              ))
      ]

  pub deactivate-IsPointed :
      (config config' : Config F) (u : Unit {0})
      → deactivate config ≡ ok (config', u)
      → IsPointed config'
  unfolding deactivate
  deactivate-IsPointed config config' u h active on =
      let e = ok_injective _ _ h in
      let off : none ≡ some active = ap (λ r. r.0.active_scene_profile) e ∙ on in cc off

  -- A profile stays switched on where its name is not the one of a profile that was replaced.
  pointed-on :
      (profile : SceneProfileConfig) (rename : Option Text) (config config' : Config F)
      (active : Text)
      → IsSaved profile rename config config'
      → ¬ IsReplaced rename active
      → (p : SceneProfileConfig) × (find_scene_profile config active ≡ some p)
      → (p : SceneProfileConfig) × (find_scene_profile config' active ≡ some p)
  pointed-on profile rename config config' active saved kept (p, found) =
      elim (Bool-cases (same_scene_profile_name profile.name active)) [
        | inl same ↦ (profile, sym (find-same config' profile.name active same) ∙ saved.found)
        | inr other ↦ (p, saved.others active other kept ∙ found)
      ]

  pub delete-IsPointed :
      (target : Text) (config config' : Config F) (out : Text × Bool)
      → delete target config ≡ ok (config', out)
      → IsPointed config
      → IsPointed config'
  unfolding delete is_active find_scene_profile
  delete-IsPointed target config config' out h pointed active on =
      elim (Option-cases (scene_profile_position config target)) [
        | inl nothing ↦ cc (rw (nothing, delete) at h)
        | inr (i, found) ↦
            (let (old, at, same) = position-found config target i found in
              let e = ok_injective _ _ (rw (found, at, delete) at h) in
              let list = ap (λ r. r.0.scene_profiles) e in
              let left = ap (λ r. r.0.active_scene_profile) e ∙ on in
              elim (Option-cases config.active_scene_profile) [
                | inl off ↦ cc (rw off at left)
                | inr (a, was) ↦ elim (Bool-cases (same_scene_profile_name a old.name)) [
                  | inl switched_off ↦ cc (rw (was, switched_off) at left)
                  | inr other ↦
                      (let kept : some a ≡ some active = rw (was, other) at left in
                        let equal : a ≡ active = cc kept in
                        let (p, there) = pointed a was in
                        (
                          p,
                          rw (← equal) (
                              rw (← list, find_scene_profile)
                                (find-remove_at_other _ config.scene_profiles i old at
                                    (same-sym_false a old.name other)
                                  ∙ (unfold find_scene_profile in there))),
                        ))
                ]
              ])
      ]

  -- A save that replaces by name, or adds, leaves what is switched on.
  written-active :
      (profile : SceneProfileConfig) (by_name : Option ℕ) (config config' : Config F)
      (saved : Saved)
      → ◌≡◌ {A = Result ObsctlError (Config F × Saved)}
          (ok (write_profile profile by_name config))
          (ok (config', saved))
      → config'.active_scene_profile ≡ config.active_scene_profile
  unfolding write_profile
  written-active profile none config config' saved e =
      sym (ap (λ r. r.0.active_scene_profile) (ok_injective _ _ e))
  written-active profile (some i) config config' saved e =
      sym (ap (λ r. r.0.active_scene_profile) (ok_injective _ _ e))

  unreplaced-IsPointed :
      (profile : SceneProfileConfig) (config config' : Config F) (saved : Saved) (n : Text)
      → normalized_name profile.name ≡ ok n
      → save profile none config ≡ ok (config', saved)
      → IsPointed config
      → IsPointed config'
  unfolding save
  unreplaced-IsPointed profile config config' saved n normal h pointed active on =
      let same =
        written-active profile (scene_profile_position config profile.name) config config' saved
          h in
      pointed-on profile none config config' active
        (save-IsSaved profile none config config' saved n normal h) (λ no. no)
        (pointed active (sym same ∙ on))

  -- A save onto the profile that `previous` names.
  replaced-IsPointed :
      (profile : SceneProfileConfig) (previous : Text) (from : ℕ) (config config' : Config F)
      (saved : Saved) (n : Text)
      → normalized_name profile.name ≡ ok n
      → scene_profile_position config previous ≡ some from
      → save profile (some previous) config ≡ ok (config', saved)
      → IsPointed config
      → IsPointed config'
  unfolding save replace_profile is_active
  replaced-IsPointed profile previous from config config' saved n normal found h pointed active on =
      let kept = save-IsSaved profile (some previous) config config' saved n normal h in
      let (old, at, same) = position-found config previous from found in
      elim (Bool-cases (is_other from (scene_profile_position config profile.name))) [
        | inl taken ↦ cc (rw (found, taken, save) at h)
        | inr free ↦
            (let e = ok_injective _ _ (rw (found, free, at, save) at h) in
              let left = ap (λ r. r.0.active_scene_profile) e ∙ on in
              elim (Option-cases config.active_scene_profile) [
                | inl off ↦ cc (rw off at left)
                | inr (a, was) ↦ elim (Bool-cases (same_scene_profile_name a old.name)) [
                  | inl moved ↦
                      (let new : some profile.name ≡ some active = rw (was, moved) at left in
                        let equal : profile.name ≡ active = cc new in
                        (profile, rw (← equal) kept.found))
                  | inr other ↦
                      (let stays : some a ≡ some active = rw (was, other) at left in
                        let equal : a ≡ active = cc stays in
                        rw (← equal) (
                          pointed-on profile (some previous) config config' a kept
                            (λ again. cc (
                              same-sym_false a old.name other,
                              same-both old.name previous a again,
                              same,
                            ))
                            (pointed a was)))
                ]
              ])
      ]

  pub save-IsPointed :
      (profile : SceneProfileConfig) (rename : Option Text) (config config' : Config F)
      (saved : Saved) (n : Text)
      → normalized_name profile.name ≡ ok n
      → save profile rename config ≡ ok (config', saved)
      → IsPointed config
      → IsPointed config'
  unfolding save
  save-IsPointed profile none config config' saved n normal h pointed =
      unreplaced-IsPointed profile config config' saved n normal h pointed
  save-IsPointed profile (some previous) config config' saved n normal h pointed =
      elim (Option-cases (scene_profile_position config previous)) [
        | inl nothing ↦
            unreplaced-IsPointed profile config config' saved n normal (rw (nothing, save) at h)
              pointed
        | inr (from, found) ↦
            replaced-IsPointed profile previous from config config' saved n normal found h pointed
      ]
