-- ===== src/Aliases/Ambiguous.antt =====
-- src/domain/aliases.rs: the choice of `resolve_with`, written as a table, and the targets that it refuses as ambiguous.
use obsctl_rs.Prelude.{
  ◌≤◌, ◌≡◌, refl, none, some, List, [], ◌∷◌, arith, Result, ok, err, length, All, Option-cases, inl,
  inr, list_eq, nat_eq, option_eq, ◌↔◌,
}
use obsctl_rs.Text.{Text, trim}
use obsctl_rs.Errors.{
  ResourceKind, scene, audio_input, ObsctlError, alias_ambiguous, scene_not_found,
  audio_input_not_found,
}
use obsctl_rs.Aliases.Reference.{exact, first, row, first_exact-exact, numbered_row-row}
use obsctl_rs.Aliases.Resolve.{first-none}
use obsctl_rs.Names.{normalized_name, not_found}
use obsctl_rs.Aliases.{
  AliasEntry, read_alias, read_name, normalized_token, case_insensitive_match_order, first_folded,
  resolve_loosely, resolve_with,
}
use obsctl_rs.Aliases.Match.{IsUsable, hits, verdict, unique_case_insensitive_match-verdict}
use obsctl_rs.Aliases.Unique.{IsUnique, ensure_unique-hits, ensure_unique-IsUsable}

-- The entries that fold to the target by their alias, those that do by their name, and what is left.
unfoldable pub choose :
    Text
    → List AliasEntry
    → List AliasEntry
    → Result ObsctlError AliasEntry
    → Result ObsctlError AliasEntry
choose target [] [] other = other
choose target [] (e ∷ []) other = ok e
choose target [] (e ∷ f ∷ rest) other = err (alias_ambiguous target)
choose target (e ∷ []) names other = ok e
choose target (e ∷ f ∷ rest) names other = err (alias_ambiguous target)

-- The error for a target that means nothing.
unfoldable pub missing : ResourceKind → Text → ObsctlError
missing scene target = scene_not_found target
missing audio_input target = audio_input_not_found target

-- The row that a scene's number names, or the error of the kind.
unfoldable pub by_number : Text → List AliasEntry → ResourceKind → Result ObsctlError AliasEntry
by_number target entries kind = elim (row kind (trim target) entries) [
  | some e ↦ ok e
  | none ↦ err (missing kind target)
]

-- What a target with the normalized form `folded` is to mean.
unfoldable pub choice : Text → Text → List AliasEntry → ResourceKind → Result ObsctlError AliasEntry
choice target folded entries kind = elim (first (exact (trim target) entries)) [
  | some e ↦ ok e
  | none ↦
      choose target (hits (λ e. e.alias) folded entries) (hits (λ e. some e.name) folded entries)
        (by_number target entries kind)
]

-- The entries' aliases and names have normalized forms.
pub record AreUsable (entries : List AliasEntry) : Type 0 where
  pub aliases : All (λ e. IsUsable (read_alias e)) entries
  pub names : All (λ e. IsUsable (read_name e)) entries

not_found-missing :
    (kind : ResourceKind) (target : Text) → not_found kind target ≡ missing kind target
unfolding not_found missing
not_found-missing scene target = refl
not_found-missing audio_input target = refl

module _ (folded target : Text) (entries : List AliasEntry) (kind : ResourceKind)
    (u : AreUsable entries) where
  resolve_loosely-choose :
      resolve_loosely folded target entries kind
      ≡ choose target
          (hits read_alias folded entries)
          (hits read_name folded entries)
          (by_number target entries kind)
  unfolding resolve_loosely first_folded case_insensitive_match_order by_number choose verdict
  resolve_loosely-choose = ground (
    arith,
    numbered_row-row kind (trim target) entries,
    not_found-missing kind target,
    unique_case_insensitive_match-verdict read_alias folded target entries u.aliases,
    unique_case_insensitive_match-verdict read_name folded target entries u.names,
  )

-- For a target with a normalized form, over entries whose aliases and names have normalized forms,
-- the resolver answers the first entry whose shortcut is the trimmed target, else whose alias, else
-- whose name is; else the only entry whose alias folds to the target, or an ambiguity if there are
-- several; else so for the names; else, for a scene and a target of digits, the row of that number,
-- counted from 1; else the error of the kind that nothing was found.
pub resolve_with-choose :
    (target folded : Text) (entries : List AliasEntry) (kind : ResourceKind)
    → normalized_name target ≡ ok folded
    → AreUsable entries
    → resolve_with target entries kind ≡ choice target folded entries kind
unfolding resolve_with normalized_token choice
resolve_with-choose target folded entries kind good u = ground (
  arith,
  good,
  first_exact-exact (trim target) entries,
  resolve_loosely-choose folded target entries kind u,
)

-- A unique alias is never ambiguous: then two names are.
choose-ambiguous :
    (target raw : Text) (aliases names : List AliasEntry) (entries : List AliasEntry)
    (kind : ResourceKind)
    → length aliases ≤ 1
    → choose target aliases names (by_number target entries kind) ≡ err (alias_ambiguous raw)
    → (raw ≡ target) × (aliases ≡ []) × (2 ≤ length names)
unfolding choose by_number missing
choose-ambiguous target raw [] [] entries kind few h = ground arith
choose-ambiguous target raw [] (e ∷ []) entries kind few h = cc h
choose-ambiguous target raw [] (e ∷ f ∷ rest) entries kind few h = ground arith
choose-ambiguous target raw (e ∷ []) names entries kind few h = cc h
choose-ambiguous target raw (e ∷ f ∷ rest) names entries kind few h = absurd (omega arith)

choose-names :
    (target : Text) (aliases names : List AliasEntry) (other : Result ObsctlError AliasEntry)
    → aliases ≡ []
    → 2 ≤ length names
    → choose target aliases names other ≡ err (alias_ambiguous target)
unfolding choose
choose-names target aliases [] other none_alias many = absurd (omega arith)
choose-names target aliases (e ∷ []) other none_alias many = absurd (omega arith)
choose-names target aliases (e ∷ f ∷ rest) other none_alias many = rw none_alias refl

-- What makes a target ambiguous: no exact match, no alias, and two names that differ in case alone.
pub record IsAmbiguous (target folded : Text) (entries : List AliasEntry) : Type 0 where
  pub inexact : exact (trim target) entries ≡ []
  pub no_alias : hits read_alias folded entries ≡ []
  pub two_names : 2 ≤ length (hits read_name folded entries)

-- Over entries whose aliases passed the uniqueness check and whose names have normalized forms, a
-- target with a normalized form is refused as ambiguous exactly when nothing is spelled as it is,
-- no alias folds to it and two or more names do.
pub resolve_with-IsAmbiguous :
    (target folded : Text) (entries : List AliasEntry) (kind checked : ResourceKind)
    → normalized_name target ≡ ok folded
    → IsUnique checked entries
    → All (λ e. IsUsable (read_name e)) entries
    → (resolve_with target entries kind ≡ err (alias_ambiguous target))
      ↔ IsAmbiguous target folded entries
unfolding choice first hits
resolve_with-IsAmbiguous target folded entries kind checked good unique names = (only_if, if_so)
  where
    usable : AreUsable entries
    usable = record { aliases = ensure_unique-IsUsable checked entries unique; names = names }

    only_if :
        resolve_with target entries kind ≡ err (alias_ambiguous target)
        → IsAmbiguous target folded entries
    only_if h = elim (Option-cases (first (exact (trim target) entries))) [
      | inr (e, hit) ↦
          cc (rw (resolve_with-choose target folded entries kind good usable, choice, hit) at h)
      | inl miss ↦
          (let r =
              choose-ambiguous target target (hits read_alias folded entries)
                (hits read_name folded entries) entries kind
                (ensure_unique-hits checked entries folded unique)
                (rw (resolve_with-choose target folded entries kind good usable, choice, miss) at
                  h) in
            record { inexact = first-none _ miss; no_alias = r.1; two_names = r.2 })
    ]

    if_so :
        IsAmbiguous target folded entries
        → resolve_with target entries kind ≡ err (alias_ambiguous target)
    if_so a =
        rw (resolve_with-choose target folded entries kind good usable, choice, a.inexact, first)
          (choose-names target (hits read_alias folded entries) (hits read_name folded entries) _
            a.no_alias a.two_names)
