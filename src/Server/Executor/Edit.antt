-- ===== src/Server/Executor/Edit.antt =====
-- src/server/command_executor.rs: an edit of the configuration's file, as a whole.
use obsctl_rs.Prelude.{
  ◌≡◌, refl, ap, sym, ◌∙◌, true, false, some, List, [], ◌∷◌, Result, ok, err, arith, Bool-cases,
  inl, inr, Result-cases, ◌==◌, ==_iff, list_eq, nat_eq, ok_injective,
}
use obsctl_rs.Text.{Text, text}
use obsctl_rs.Errors.{ObsctlError}
use obsctl_rs.Config.{Config, from_document}
use obsctl_rs.Config.Schema.{Warning}
use obsctl_rs.Server.Executor.{Setup, Daemon, Action, ◌>>=◌, ◌>>◌, lift, reads, changes, log}
use obsctl_rs.Server.Executor.Files.{
  is_not_found, check, load_with_warnings, write_atomic, config_write_base,
  config_file_would_change, refuse_unreadable, log_config_warnings, adopt, edit_config_file,
}
use obsctl_rs.Server.Executor.Migrated.{document_of, IsMigrated, from_document-document_of, Keeps}
use obsctl_rs.Server.Executor.Loads.{load-eq_ok, load-valid, load-IsMigrated}

module _ {F J Fs : Type 0} (s : Setup F J Fs) where
  -- What the code relies on: a file that was replaced holds the new content, one that could not be
  -- replaced is as it was, and what the serializer wrote is read back, without the legacy section,
  -- which it skips.
  pub record IsFileSystem : Type 0 where
    pub replaced :
        (content : Text) (fs : Fs)
        → (s.replace_file content fs).0 ≡ ok tt
        → s.read_file (s.replace_file content fs).1 ≡ ok content
    pub untouched :
        (content : Text) (fs : Fs) (e : ObsctlError)
        → (s.replace_file content fs).0 ≡ err e
        → (s.replace_file content fs).1 ≡ fs
    pub rereads :
        (config : Config F) (content : Text)
        → s.to_yaml config ≡ ok content
        → s.from_yaml content ≡ ok (document_of config)

  -- The configuration that an edit starts from: the file's, or, if there is no file, the one in memory.
  pub data IsBase (d : Daemon F J Fs) (base : Config F) : Type 0 where
    on_disk : (ws : List Warning) → load_with_warnings s d.file ≡ ok (base, ws) → IsBase d base
    in_memory :
        (e : ObsctlError)
        → load_with_warnings s d.file ≡ err e
        → is_not_found e ≡ true
        → base ≡ d.config
        → IsBase d base

  -- What is on disk after an edit: the new configuration; or still nothing, if there was no file and
  -- the edit changed nothing.
  pub data IsStored (d d' : Daemon F J Fs) (config : Config F) (ws : List Warning) : Type 0 where
    stored : load_with_warnings s d'.file ≡ ok (config, ws) → IsStored d d' config ws
    absent :
        (e : ObsctlError)
        → load_with_warnings s d.file ≡ err e
        → is_not_found e ≡ true
        → config ≡ d.config
        → d'.file ≡ d.file
        → IsStored d d' config ws

  module _ {B : Type 0} (edit : Config F → Result ObsctlError (Config F × B)) where
    pub record IsEdited (d d' : Daemon F J Fs) (config : Config F) (ws : List Warning) (out : B)
        : Type 0 where
      pub base : Config F
      pub from : IsBase d base
      pub edited : edit base ≡ ok (config, out)
      pub valid : check s config ≡ ok ws
      pub migrated : IsMigrated config
      pub memory : d'.config ≡ config
      pub disk : IsStored d d' config ws

    -- How an edit ends.
    abbrev pub Ends :
        Daemon F J Fs → Result ObsctlError (Config F × List Warning × B) × Daemon F J Fs → Type 0
    Ends d (err e, d') = d' ≡ d
    Ends d (ok (config, ws, out), d') = IsEdited d d' config ws out

  -- A step that may fail at once.
  lift_elim :
      {A C : Type 0} (P : Result ObsctlError C × Daemon F J Fs → Type 0) (r : Result ObsctlError A)
      (k : A → Action F J Fs C) (d : Daemon F J Fs)
      → ((e : ObsctlError) → P (err e, d))
      → ((a : A) → r ≡ ok a → P (k a d))
      → P ((lift r >>= k) d)
  unfolding lift ◌>>=◌
  lift_elim P (ok a) k d failed good = good a refl
  lift_elim P (err e) k d failed good = failed e

  lift_then_elim :
      {A C : Type 0} (P : Result ObsctlError C × Daemon F J Fs → Type 0) (r : Result ObsctlError A)
      (k : Action F J Fs C) (d : Daemon F J Fs)
      → ((e : ObsctlError) → P (err e, d))
      → ((a : A) → r ≡ ok a → P (k d))
      → P ((lift r >> k) d)
  unfolding ◌>>◌
  lift_then_elim P r k d failed good = lift_elim P r (λ unused. k) d failed good

  reads_elim :
      {A C : Type 0} (P : Result ObsctlError C × Daemon F J Fs → Type 0) (f : Daemon F J Fs → A)
      (k : A → Action F J Fs C) (d : Daemon F J Fs)
      → P (k (f d) d)
      → P ((reads f >>= k) d)
  unfolding reads ◌>>=◌
  reads_elim P f k d h = h

  log_config_warnings-memory :
      (context : Text) (ws : List Warning) (d : Daemon F J Fs)
      → ((log_config_warnings s context ws d).config ≡ d.config)
        × ((log_config_warnings s context ws d).file ≡ d.file)
  unfolding log_config_warnings log
  log_config_warnings-memory context [] d = (refl, refl)
  log_config_warnings-memory context (w ∷ ws) d = log_config_warnings-memory context ws (log s _ d)

  IsBase-IsMigrated :
      (d : Daemon F J Fs) (base : Config F) → IsMigrated d.config → IsBase d base → IsMigrated base
  IsBase-IsMigrated d base m (on_disk ws good) = load-IsMigrated s d.file base ws good
  IsBase-IsMigrated d base m (in_memory e bad missing mine) = rw mine m

  -- An edit that changes nothing on disk is no edit.
  unchanged :
      IsFileSystem
      → (before after : Config F) → IsMigrated before
      → IsMigrated after
      → config_file_would_change s before after ≡ false
      → before ≡ after
  unfolding config_file_would_change
  unchanged law before after m m' h = elim (Result-cases (s.to_yaml before)) [
    | inr (e, bad) ↦ cc (rw (bad, config_file_would_change) at h)
    | inl (old, was) ↦ elim (Result-cases (s.to_yaml after)) [
      | inr (e, bad) ↦ cc (rw (was, bad, config_file_would_change) at h)
      | inl (new, is) ↦
          (let same : (old == new) ≡ true =
              ground (arith, rw (was, is, config_file_would_change) at h) in
            let equal = (==_iff old new).0 same in
            let documents : document_of before ≡ document_of after =
              ok_injective _ _
                (sym (law.rereads before old was) ∙ rw equal (law.rereads after new is)) in
            sym (from_document-document_of s.default_reconnect before m)
            ∙ ap (from_document s.default_reconnect) documents
            ∙ from_document-document_of s.default_reconnect after m')
    ]
  ]

  base-unreadable :
      (d : Daemon F J Fs) (e : ObsctlError)
      → load_with_warnings s d.file ≡ err e
      → config_write_base s d.file d.config
        ≡ record { config = d.config; error = some (s.display e); missing = is_not_found e }
  unfolding config_write_base
  base-unreadable d e bad = rw (bad, config_write_base) refl

  config_write_base-IsBase :
      (d : Daemon F J Fs)
      → refuse_unreadable s (config_write_base s d.file d.config) ≡ ok tt
      → IsBase d (config_write_base s d.file d.config).config
  unfolding refuse_unreadable config_write_base
  config_write_base-IsBase d h = elim (Result-cases (load_with_warnings s d.file)) [
    | inl ((config, ws), good) ↦ rw (good, config_write_base) (on_disk ws good)
    | inr (e, bad) ↦ elim (Bool-cases (is_not_found e)) [
      | inl missing ↦ rw (bad, config_write_base) (in_memory e bad missing refl)
      | inr broken ↦ cc (rw (base-unreadable d e bad, broken) at h)
    ]
  ]

  write_elim :
      {A : Type 0} (P : Result ObsctlError A × Daemon F J Fs → Type 0)
      → IsFileSystem
      → (config : Config F) (k : Action F J Fs A) (d : Daemon F J Fs)
      → ((e : ObsctlError) → P (err e, d))
      → ((content : Text) (fs : Fs)
          → s.to_yaml config ≡ ok content
          → s.read_file fs ≡ ok content
          → P (k (record d { file = fs })))
      → P ((write_atomic s config >> k) d)
  unfolding write_atomic ◌>>◌ ◌>>=◌
  write_elim P law config k d failed good = elim (Result-cases (s.to_yaml config)) [
    | inr (e, bad) ↦ rw (bad, write_atomic) (failed _)
    | inl (content, text) ↦
        rw (text, write_atomic)
          (elim (Result-cases (s.replace_file content d.file).0) [
            | inl (_, done) ↦ rw done (
                good content (s.replace_file content d.file).1 text
                  (law.replaced content d.file done))
            | inr (e, bad) ↦ rw (bad, law.untouched content d.file e bad) (failed e)
          ])
  ]

  -- The last steps: the memory takes the new configuration over, and the warnings are logged.
  finish :
      {B : Type 0} (edit : Config F → Result ObsctlError (Config F × B)) (d d1 : Daemon F J Fs)
      (base config : Config F) (out : B) (ws : List Warning)
      → IsBase d base
      → edit base ≡ ok (config, out)
      → check s config ≡ ok ws
      → IsMigrated config
      → IsStored d d1 config ws
      → Ends edit d (
          (changes (adopt s config)
              >> (changes (log_config_warnings s (text "after scene profile change") ws)
                  >> lift (ok (config, ws, out))))
            d1)
  unfolding changes ◌>>◌ ◌>>=◌ lift adopt
  finish edit d d1 base config out ws from edited valid m disk =
      let kept =
        log_config_warnings-memory (text "after scene profile change") ws (adopt s config d1) in
      record {
        base = base;
        from = from;
        edited = edited;
        valid = valid;
        migrated = m;
        memory = kept.0;
        disk = carried disk kept.1;
      }
    where
      carried :
          {d2 : Daemon F J Fs}
          → IsStored d d1 config ws
          → d2.file ≡ d1.file
          → IsStored d d2 config ws
      carried (stored h) e = stored (rw e h)
      carried (absent e bad missing same still) e' = absent e bad missing same (e' ∙ still)

  -- Without a change to write, the configuration is what is there already.
  kept_on_disk :
      (d : Daemon F J Fs) (base config : Config F) (ws : List Warning)
      → IsBase d base
      → base ≡ config
      → check s config ≡ ok ws
      → IsStored d d config ws
  kept_on_disk d base config ws (on_disk ws' good) same valid =
      let again = load-valid s d.file base ws' good in
      let equal : ws' ≡ ws = ok_injective _ _ (sym again ∙ rw same valid) in
      stored (rw (same, equal) at good)
  kept_on_disk d base config ws (in_memory e bad missing mine) same valid =
      absent e bad missing (sym same ∙ mine) refl

  -- An edit of the file either changes nothing at all, or leaves in memory and on disk the
  -- configuration that was edited.
  pub edit_config_file-Ends :
      {B : Type 0}
      → IsFileSystem
      → (edit : Config F → Result ObsctlError (Config F × B)) (d : Daemon F J Fs) → Keeps edit
      → IsMigrated d.config
      → Ends edit d (edit_config_file s edit d)
  unfolding edit_config_file
  edit_config_file-Ends law edit d keeps m =
      lift_elim (Ends edit d) _ _ d (λ e. refl)
        λ path has_path. reads_elim (Ends edit d) _ _ d (
          lift_then_elim (Ends edit d) _ _ d (λ e. refl)
            λ _ usable.
              lift_elim (Ends edit d) _ _ d (λ e. refl)
                λ edited done.
                  lift_elim (Ends edit d) _ _ d (λ e. refl)
                    λ ws valid.
                      let from = config_write_base-IsBase d usable in
                      let old = IsBase-IsMigrated d _ m from in
                      let new : IsMigrated (edited.0) =
                        ap (λ c. c.reconnect) (keeps _ edited.0 edited.1 done) ∙ old in
                      elim (Bool-cases (
                        config_file_would_change s (config_write_base s d.file d.config).config
                          edited.0)) [
                            | inl change ↦ rw change (
                                write_elim (Ends edit d) law edited.0 _ d (λ e. refl)
                                  λ content fs written read.
                                    finish edit d (record d { file = fs }) _ edited.0 edited.1 ws
                                      from done valid new
                                      (stored (
                                        load-eq_ok s fs content edited.0 ws read
                                          (law.rereads edited.0 content written) new valid)))
                            | inr still ↦ rw still (
                                lift_then_elim (Ends edit d) _ _ d (λ e. refl)
                                  λ _ _.
                                    finish edit d d _ edited.0 edited.1 ws from done valid new (
                                      kept_on_disk d _ edited.0 ws from
                                        (unchanged law _ edited.0 old new still) valid))
                          ])
