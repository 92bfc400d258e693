-- ===== src/Config/Schema/Sound.antt =====
-- src/config/schema.rs: what the other components ask of a configuration, and the check.
use obsctl_rs.Prelude.{
  ℕ, retain, ◌+◌, ◌≤◌, ◌<◌, ◌≡◌, refl, subst, Bool, true, false, not, Option, some, List, [], ◌∷◌,
  map, Result, ok, err, map_err, ltb, any, length, All, arith, if◌then◌else◌, ◌==◌, ==_iff, nat_eq,
  list_eq, >>=-eq-ok, Result-cases, Bool-cases, inl, inr,
}
use obsctl_rs.Text.{Text, is_control, is_whitespace, is_empty, to_ascii_lowercase}
use obsctl_rs.Volume.{Floats}
use obsctl_rs.Sets.{contains}
use obsctl_rs.Errors.{ValidationError, ObsctlError, scene, audio_input, Message}
use obsctl_rs.Names.{
  checked_name, normalized_name, validate_no_control_or_whitespace, validate_no_control_characters,
}
use obsctl_rs.Aliases.{ensure_unique_aliases_and_shortcuts}
use obsctl_rs.Aliases.Match.{IsUsable}
use obsctl_rs.Password.{Environment}
use obsctl_rs.Config.{Config, SceneProfileConfig, answers_to}
use obsctl_rs.Config.Schema.{
  Warning, Check, refuse_if, check_all, validate_version, utf8_len, is_separator,
  validate_connection_host, validate_connection_config, check_name, check_profile,
  validate_resource_names, validate_ui_config, validate_reconnect_config, validate_password_config,
  validate_no_duplicate_aliases, distinct_profiles, validate_scene_profiles, validate,
}

-- A host name that can stand in a URL.
pub record IsHost (host : Text) : Type 0 where
  pub printable : any is_control host ≡ false
  pub solid : any is_whitespace host ≡ false
  pub plain : any is_separator host ≡ false
  pub present : is_empty host ≡ false
  pub short : utf8_len host ≤ 253

abbrev pub IsUsableName : Text → Type 0
IsUsableName name = IsUsable (some name)

refuse_if-eq_ok : (b : Bool) (m : Message) (u : Unit {0}) → refuse_if b m ≡ ok u → b ≡ false
unfolding refuse_if
refuse_if-eq_ok true m u h = cc h
refuse_if-eq_ok false m u h = refl

check_all-All :
    {A : Type 0} (P : A → Type 0) (check : A → Check) (xs : List A) (u : Unit {0})
    → ((x : A) (v : Unit {0}) → check x ≡ ok v → P x)
    → check_all check xs ≡ ok u
    → All P xs
unfolding check_all
check_all-All P check [] u each h = tt
check_all-All P check (x ∷ xs) u each h =
    let (v, here, rest) = >>=-eq-ok (check x) _ h in
    (each x v here, check_all-All P check xs u each rest)

check_name-IsUsableName :
    (m : ValidationError → Message) (name : Text) (u : Unit {0})
    → check_name m name ≡ ok u
    → IsUsableName name
unfolding check_name normalized_name
check_name-IsUsableName m name u h = elim (Result-cases (checked_name name)) [
  | inl (n, good) ↦ (to_ascii_lowercase n, rw good refl)
  | inr (e, bad) ↦ cc (rw bad at h)
]

map_err-eq_ok :
    {E F A : Type 0} (g : E → F) (r : Result E A) (a : A) → map_err g r ≡ ok a → r ≡ ok a
map_err-eq_ok g (ok b) a h = ground arith
map_err-eq_ok g (err e) a h = cc h

no_control_or_whitespace :
    (host : Text) (u : Unit {0})
    → validate_no_control_or_whitespace host ≡ ok u
    → (any is_control host ≡ false) × (any is_whitespace host ≡ false)
unfolding validate_no_control_or_whitespace validate_no_control_characters
no_control_or_whitespace host u h = ground arith

validate_connection_host-IsHost :
    (host : Text) (u : Unit {0}) → validate_connection_host host ≡ ok u → IsHost host
unfolding validate_connection_host
validate_connection_host-IsHost host u h =
    let (a, first, h1) = >>=-eq-ok (map_err _ (validate_no_control_or_whitespace host)) _ h in
    let (printable, solid) = no_control_or_whitespace host a (map_err-eq_ok _ _ a first) in
    let (b, second, h2) = >>=-eq-ok (refuse_if (any is_separator host) _) _ h1 in
    let (c, third, fourth) = >>=-eq-ok (refuse_if (is_empty host) _) _ h2 in
    record {
      printable = printable;
      solid = solid;
      plain = refuse_if-eq_ok _ _ b second;
      present = refuse_if-eq_ok _ _ c third;
      short = within (utf8_len host) (refuse_if-eq_ok _ _ u fourth);
    }
  where
    within : (n : ℕ) → ltb 253 n ≡ false → n ≤ 253
    within n h = ground arith

unseen :
    (b : Bool) (e : ObsctlError) (r : Check) (u : Unit {0})
    → (if b then err e else r) ≡ ok u
    → b ≡ false
unseen true e r u h = cc h
unseen false e r u h = refl

-- No two profiles answer to the same name.
distinct_profiles-le :
    (seen : List Text) (profiles : List SceneProfileConfig) (name : Text) (u : Unit {0})
    → distinct_profiles seen profiles ≡ ok u
    → (if contains seen name then 1 else 0) + length (retain (answers_to name) profiles) ≤ 1
unfolding distinct_profiles retain answers_to contains any
distinct_profiles-le seen [] name u h = ground arith
distinct_profiles-le seen (p ∷ profiles) name u h = elim (Result-cases (normalized_name p.name)) [
  | inr (e, bad) ↦
      rw (bad, retain, answers_to)
        (distinct_profiles-le seen profiles name u (rw (bad, distinct_profiles) at h))
  | inl (n, good) ↦
      let fresh : contains seen n ≡ false = unseen _ _ _ u (rw (good, distinct_profiles) at h) in
      let rest =
        distinct_profiles-le (n ∷ seen) profiles name u
          (rw (fresh) at (rw (good, distinct_profiles) at h)) in
      elim (Bool-cases (n == name)) [
        | inl same ↦
            let unused : contains seen name ≡ false =
              subst (λ x. contains seen x ≡ false) ((==_iff n name).0 same) fresh in
            rw (good, retain, answers_to, same) (ground (arith, unused, same, rest))
        | inr differ ↦ rw (good, retain, answers_to, differ) (ground (arith, differ, rest))
      ]
]

distinct_profiles_unique :
    (profiles : List SceneProfileConfig) (name : Text) (u : Unit {0})
    → distinct_profiles [] profiles ≡ ok u
    → length (retain (answers_to name) profiles) ≤ 1
unfolding contains any
distinct_profiles_unique profiles name u h =
    omega (arith, distinct_profiles-le [] profiles name u h)

-- What the other components rely on.
pub record IsWellFormed {F : Type 0} (config : Config F) : Type 0 where
  pub version : config.version ≡ 1
  pub host : IsHost config.connection.host
  pub port : 0 < config.connection.port
  pub connect_timeout : 0 < config.connection.connect_timeout_ms
  pub request_timeout : 0 < config.connection.request_timeout_ms
  pub delays : config.reconnect.initial_delay_ms ≤ config.reconnect.max_delay_ms
  pub refresh_interval : 0 < config.ui.refresh_interval_ms
  pub scene_names : All (λ s. IsUsableName s.name) config.scenes
  pub input_names : All (λ i. IsUsableName i.name) config.audio.inputs
  pub profile_names :
      All (λ p. IsUsableName p.name × All IsUsableName p.hidden) config.scene_profiles
  pub scenes_unique :
      ensure_unique_aliases_and_shortcuts scene (map (λ s. (s.alias, s.shortcut)) config.scenes)
      ≡ ok tt
  pub inputs_unique :
      ensure_unique_aliases_and_shortcuts audio_input
        (map (λ i. (i.alias, i.shortcut)) config.audio.inputs)
      ≡ ok tt
  pub profiles_distinct :
      (name : Text) → length (retain (answers_to name) config.scene_profiles) ≤ 1

nonzero : (n : ℕ) → (n == 0) ≡ false → 0 < n
nonzero n h = ground arith

check_profile-usable :
    (p : SceneProfileConfig) (u : Unit {0})
    → check_profile p ≡ ok u
    → IsUsableName p.name × All IsUsableName p.hidden
unfolding check_profile
check_profile-usable p u h =
    let (a, first, second) = >>=-eq-ok (check_name _ p.name) _ h in
    (
      check_name-IsUsableName _ p.name a first,
      check_all-All IsUsableName _ p.hidden u (λ x v e. check_name-IsUsableName _ x v e) second,
    )

module _ {F : Type 0} (f : Floats F) (env : Environment) (socket_path : Option Text → Check) where
  -- A configuration that passes the check has version 1, a host that fits in a URL, a port and
  -- times that are not zero, a largest delay no smaller than the first, names with normalized
  -- forms, aliases and shortcuts that the uniqueness check accepts, and no two scene profiles of
  -- one normalized name.
  pub validate-IsWellFormed :
      (config : Config F) (warnings : List Warning)
      → validate f env socket_path config ≡ ok warnings
      → IsWellFormed config
  unfolding validate validate_version validate_connection_config validate_resource_names
      validate_ui_config validate_reconnect_config validate_no_duplicate_aliases
      validate_scene_profiles
  validate-IsWellFormed config warnings h =
      let (u1, version, h1) = >>=-eq-ok (validate_version config.version) _ h in
      let (u2, connection, h2) = >>=-eq-ok (validate_connection_config config.connection) _ h1 in
      let (u3, names, h3) = >>=-eq-ok (validate_resource_names config) _ h2 in
      let (u4, ui, h4) = >>=-eq-ok (validate_ui_config config.ui) _ h3 in
      let (u5, reconnect, h5) = >>=-eq-ok (validate_reconnect_config f config.reconnect) _ h4 in
      let (u6, _, h6) = >>=-eq-ok (socket_path config.server.socket_path) _ h5 in
      let (u7, _, h7) = >>=-eq-ok (validate_password_config env config.connection) _ h6 in
      let (u8, aliases, h8) = >>=-eq-ok (validate_no_duplicate_aliases config) _ h7 in
      let (u9, profiles, _) = >>=-eq-ok (validate_scene_profiles config) _ h8 in
      let (c1, host, k1) =
        >>=-eq-ok (validate_connection_host config.connection.host) _ connection in
      let (c2, port, k2) = >>=-eq-ok (refuse_if (config.connection.port == 0) _) _ k1 in
      let (c3, timeout, k3) =
        >>=-eq-ok (refuse_if (config.connection.connect_timeout_ms == 0) _) _ k2 in
      let (n1, scenes, m1) = >>=-eq-ok (check_all _ config.scenes) _ names in
      let (n2, inputs, m2) = >>=-eq-ok (check_all _ config.audio.inputs) _ m1 in
      let (r1, refresh, _) = >>=-eq-ok (refuse_if (config.ui.refresh_interval_ms == 0) _) _ ui in
      let (d1, delays, _) =
        >>=-eq-ok
          (refuse_if (ltb config.reconnect.max_delay_ms config.reconnect.initial_delay_ms) _) _
          reconnect in
      let (a1, unique, unique') =
        >>=-eq-ok (ensure_unique_aliases_and_shortcuts scene _) _ aliases in
      let (p1, distinct, _) = >>=-eq-ok (distinct_profiles [] config.scene_profiles) _ profiles in
      record {
        version = (==_iff config.version 1).0 (not-false _ (refuse_if-eq_ok _ _ u1 version));
        host = validate_connection_host-IsHost config.connection.host c1 host;
        port = nonzero _ (refuse_if-eq_ok _ _ c2 port);
        connect_timeout = nonzero _ (refuse_if-eq_ok _ _ c3 timeout);
        request_timeout = nonzero _ (refuse_if-eq_ok _ _ u2 k3);
        delays = not_less _ _ (refuse_if-eq_ok _ _ d1 delays);
        refresh_interval = nonzero _ (refuse_if-eq_ok _ _ r1 refresh);
        scene_names =
            check_all-All _ _ config.scenes n1 (λ s v e. check_name-IsUsableName _ s.name v e)
              scenes;
        input_names =
            check_all-All _ _ config.audio.inputs n2 (λ i v e. check_name-IsUsableName _ i.name v e)
              inputs;
        profile_names = check_all-All _ _ config.scene_profiles u3 check_profile-usable m2;
        scenes_unique = unit_ok unique;
        inputs_unique = unit_ok unique';
        profiles_distinct = λ name. distinct_profiles_unique config.scene_profiles name p1 distinct;
      }
    where
      not-false : (b : Bool) → not b ≡ false → b ≡ true
      not-false true e = refl
      not-false false e = cc e

      not_less : (a b : ℕ) → ltb a b ≡ false → b ≤ a
      not_less a b e = ground arith

      unit_ok : {r : Result ObsctlError (Unit {0})} {u : Unit {0}} → r ≡ ok u → r ≡ ok tt
      unit_ok e = e
