-- ===== src/Server/Executor/Loads.antt =====
-- src/config/loader.rs: a configuration that was loaded.
use obsctl_rs.Prelude.{
  ℕ, ◌≡◌, ◌⊎◌, refl, ap, sym, ◌∙◌, subst, Bool, true, false, not, Option, none, some, List, [], ◌∷◌,
  Result, ok, err, arith, Bool-cases, inl, inr, Result-cases, map_err, ok_or, ◌==◌, ==_iff, list_eq,
  nat_eq, if◌then◌else◌, ok_injective, map_err-eq_ok,
}
use obsctl_rs.Prelude
use obsctl_rs.Text.{Text}
use obsctl_rs.Config.{Config}
use obsctl_rs.Config.Schema.{Warning}
use obsctl_rs.Server.Executor.{Setup}
use obsctl_rs.Server.Executor.Files.{check, parse_config, load_with_warnings}
use obsctl_rs.Server.Executor.Migrated.{
  document_of, IsMigrated, from_document-document_of, from_document-IsMigrated,
}

module _ {F J Fs : Type 0} (s : Setup F J Fs) where
  pub load-eq_ok :
      (fs : Fs) (content : Text) (config : Config F) (ws : List Warning)
      → s.read_file fs ≡ ok content
      → s.from_yaml content ≡ ok (document_of config)
      → IsMigrated config
      → check s config ≡ ok ws
      → load_with_warnings s fs ≡ ok (config, ws)
  unfolding load_with_warnings parse_config
  load-eq_ok fs content config ws h k m v =
      rw (load_with_warnings, h, k, from_document-document_of s.default_reconnect config m, v) refl

  pub load-valid :
      (fs : Fs) (config : Config F) (ws : List Warning)
      → load_with_warnings s fs ≡ ok (config, ws)
      → check s config ≡ ok ws
  unfolding load_with_warnings
  load-valid fs config ws h =
      let (content, read, h1) = Prelude.>>=-eq-ok (s.read_file fs) _ h in
      let (c, parsed, h2) = Prelude.>>=-eq-ok (map_err _ (parse_config s content)) _ h1 in
      let (w, good, h3) = Prelude.>>=-eq-ok (check s c) _ h2 in
      let same : (c, w) ≡ (config, ws) = ok_injective _ _ h3 in
      rw (← ap (λ p. p.0) same, ← ap (λ p. p.1) same) good

  parse_config-IsMigrated :
      (content : Text) (config : Config F) → parse_config s content ≡ ok config → IsMigrated config
  unfolding parse_config
  parse_config-IsMigrated content config h = elim (Result-cases (s.from_yaml content)) [
    | inr (e, bad) ↦ cc (rw bad at h)
    | inl (document, read) ↦
        subst IsMigrated (ok_injective _ _ (rw read at h))
          (from_document-IsMigrated s.default_reconnect document)
  ]

  pub load-IsMigrated :
      (fs : Fs) (config : Config F) (ws : List Warning)
      → load_with_warnings s fs ≡ ok (config, ws)
      → IsMigrated config
  unfolding load_with_warnings
  load-IsMigrated fs config ws h =
      let (content, read, h1) = Prelude.>>=-eq-ok (s.read_file fs) _ h in
      let (c, parsed, h2) = Prelude.>>=-eq-ok (map_err _ (parse_config s content)) _ h1 in
      let (w, good, h3) = Prelude.>>=-eq-ok (check s c) _ h2 in
      let same : (c, w) ≡ (config, ws) = ok_injective _ _ h3 in
      subst IsMigrated (ap (λ p. p.0) same)
        (parse_config-IsMigrated content c (map_err-eq_ok _ (parse_config s content) c parsed))
