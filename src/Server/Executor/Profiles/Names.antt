-- ===== src/Server/Executor/Profiles/Names.antt =====
-- src/server/command_executor.rs: which profile a name finds after a save or a deletion.
use obsctl_rs.Prelude.{
  ℕ, ◌≡◌, ◌⊎◌, inl, inr, refl, ap, sym, ◌∙◌, true, false, Option, none, some, [], ◌∷◌, ◌++◌, arith,
  Result, ok, get_elem?, and_then, Bool-cases, Option-cases, Result-cases, ==_iff, ==_refl, list_eq,
  nat_eq, ok_injective,
}
use obsctl_rs.Text.{Text}
use obsctl_rs.Errors.{ObsctlError}
use obsctl_rs.Names.{normalized_name}
use obsctl_rs.Config.{Config, SceneProfileConfig}
use obsctl_rs.Server.Executor.Profiles.{
  same_scene_profile_name, set_at, find_scene_profile, scene_profile_position, Saved,
  replace_profile, write_profile, is_other, save,
}
use obsctl_rs.Server.Executor.Profiles.Places.{
  position-eq_some, find-set_at, find-set_at_other, find-append, find-append_other,
}

pub same-normal :
    (a b : Text)
    → same_scene_profile_name a b ≡ true
    → (n : Text) × (normalized_name a ≡ ok n) × (normalized_name b ≡ ok n)
unfolding same_scene_profile_name
same-normal a b h = elim (Result-cases (normalized_name a)) [
  | inr (e, bad) ↦ cc (rw (bad, same_scene_profile_name) at h)
  | inl (n, good) ↦ elim (Result-cases (normalized_name b)) [
    | inr (e, bad) ↦ cc (rw (good, bad, same_scene_profile_name) at h)
    | inl (m, fine) ↦
        (let equal = (==_iff n m).0 (rw (good, fine, same_scene_profile_name) at h) in
          (n, good, rw equal fine))
  ]
]

pub normal-same :
    (a b n : Text)
    → normalized_name a ≡ ok n
    → normalized_name b ≡ ok n
    → same_scene_profile_name a b ≡ true
unfolding same_scene_profile_name
normal-same a b n good fine = rw (good, fine, same_scene_profile_name) (==_refl n)

-- Two names of one profile do not differ in what else they name.
pub same-false :
    (a b c : Text)
    → same_scene_profile_name a b ≡ true
    → same_scene_profile_name b c ≡ false
    → same_scene_profile_name a c ≡ false
same-false a b c ab bc = elim (Bool-cases (same_scene_profile_name a c)) [
  | inr other ↦ other
  | inl ac ↦
      (let (n, an, bn) = same-normal a b ab in
        let (m, am, cm) = same-normal a c ac in
        let equal : n ≡ m = ok_injective _ _ (sym an ∙ am) in
        cc (normal-same b c m (rw equal at bn) cm, bc))
]

-- A name of the profile that a save replaces, beside the name that it is saved under.
abbrev pub IsReplaced : Option Text → Text → Type 0
IsReplaced none target = ⊥
IsReplaced (some previous) target = same_scene_profile_name previous target ≡ true

module _ {F : Type 0} where
  -- What a save leaves of the profiles.
  pub record IsSaved (profile : SceneProfileConfig) (rename : Option Text)
      (config config' : Config F) : Type 0 where
    pub found : find_scene_profile config' profile.name ≡ some profile
    pub others :
        (target : Text)
        → same_scene_profile_name profile.name target ≡ false
        → ¬ IsReplaced rename target
        → find_scene_profile config' target ≡ find_scene_profile config target

  set_at-IsSaved :
      (profile : SceneProfileConfig) (rename : Option Text) (config config' : Config F) (i : ℕ)
      (old : SceneProfileConfig) (by : Text)
      → config'.scene_profiles ≡ set_at config.scene_profiles i profile
      → get_elem? config.scene_profiles i ≡ some old
      → (scene_profile_position config profile.name ≡ none)
        ⊎ (scene_profile_position config profile.name ≡ some i)
      → same_scene_profile_name profile.name profile.name ≡ true
      → same_scene_profile_name old.name by ≡ true
      → ((target : Text)
          → same_scene_profile_name profile.name target ≡ false
          → ¬ IsReplaced rename target
          → same_scene_profile_name by target ≡ false)
      → IsSaved profile rename config config'
  unfolding find_scene_profile scene_profile_position
  set_at-IsSaved profile rename config config' i old by list at first usable same apart = record {
    found = rw list (find-set_at _ config.scene_profiles i old profile at first usable);
    others = λ target other kept. rw list (
        find-set_at_other _ config.scene_profiles i old profile at
          (same-false old.name by target same (apart target other kept)) other);
  }

  append-IsSaved :
      (profile : SceneProfileConfig) (rename : Option Text) (config config' : Config F)
      → config'.scene_profiles ≡ config.scene_profiles ++ profile ∷ []
      → scene_profile_position config profile.name ≡ none
      → same_scene_profile_name profile.name profile.name ≡ true
      → IsSaved profile rename config config'
  unfolding find_scene_profile scene_profile_position
  append-IsSaved profile rename config config' list new usable = record {
    found = rw list (find-append _ config.scene_profiles profile new usable);
    others = λ target other kept. rw list (find-append_other _ config.scene_profiles profile other);
  }

  pub position-found :
      (config : Config F) (name : Text) (i : ℕ)
      → scene_profile_position config name ≡ some i
      → (old : SceneProfileConfig) × (get_elem? config.scene_profiles i ≡ some old)
        × (same_scene_profile_name old.name name ≡ true)
  unfolding scene_profile_position
  position-found config name i h =
      position-eq_some (λ (p : SceneProfileConfig). same_scene_profile_name p.name name)
        config.scene_profiles i h

  -- After a save of a scene profile under a usable name, that name finds the saved profile, and
  -- every text that names neither it nor the profile which the save was asked to replace finds what
  -- it found before.
  pub save-IsSaved :
      (profile : SceneProfileConfig) (rename : Option Text) (config config' : Config F)
      (saved : Saved) (n : Text)
      → normalized_name profile.name ≡ ok n
      → save profile rename config ≡ ok (config', saved)
      → IsSaved profile rename config config'
  unfolding save is_other write_profile position-found replace_profile
  save-IsSaved profile rename config config' saved n normal h =
      let usable = normal-same profile.name profile.name n normal normal in
      elim (replaced rename) [
        | inl fresh ↦
            (let e = rw (fresh, save) at h in
              elim (Option-cases (scene_profile_position config profile.name)) [
                | inl new ↦
                    append-IsSaved profile rename config config'
                      (listed (rw (new, write_profile) at e)) new usable
                | inr (i, found) ↦
                    (let (old, at, same) = position-found config profile.name i found in
                      set_at-IsSaved profile rename config config' i old profile.name
                        (listed (rw (found, write_profile) at e)) at (inr found) usable same
                        (λ target other kept. other))
              ])
        | inr (previous, from, given, found) ↦
            (let (old, at, same) = position-found config previous from found in
              elim (Bool-cases (is_other from (scene_profile_position config profile.name))) [
                | inl taken ↦ cc (rw (given, found, taken, save) at h)
                | inr free ↦
                    set_at-IsSaved profile rename config config' from old previous
                      (listed (rw (given, found, free, at, replace_profile, save) at h)) at
                      (own from (scene_profile_position config profile.name) free) usable same
                      (λ target other kept. apart previous target given kept)
              ])
      ]
    where
      listed :
          {c : Config F} {x : Saved}
          → ◌≡◌ {A = Result ObsctlError (Config F × Saved)} (ok (c, x)) (ok (config', saved))
          → config'.scene_profiles ≡ c.scene_profiles
      listed e = sym (ap (λ p. p.0.scene_profiles) (ok_injective _ _ e))

      own :
          (from : ℕ) (by_name : Option ℕ)
          → is_other from by_name ≡ false
          → (by_name ≡ none) ⊎ (by_name ≡ some from)
      own from none e = inl refl
      own from (some j) e = inr (ground arith)

      apart :
          (previous target : Text)
          → rename ≡ some previous
          → ¬ IsReplaced rename target
          → same_scene_profile_name previous target ≡ false
      apart previous target given kept =
          elim (Bool-cases (same_scene_profile_name previous target)) [
            | inr other ↦ other
            | inl same ↦ absurd (kept (rw given same))
          ]

      replaced :
          (r : Option Text)
          → (and_then r (λ previous. scene_profile_position config previous) ≡ none)
            ⊎ ((previous : Text) × (from : ℕ) × (r ≡ some previous)
                × (scene_profile_position config previous ≡ some from))
      replaced none = inl refl
      replaced (some previous) = elim (Option-cases (scene_profile_position config previous)) [
        | inl nothing ↦ inl nothing
        | inr (from, found) ↦ inr (previous, from, refl, found)
      ]
