-- ===== src/Aliases/Match.antt =====
-- src/domain/aliases.rs: `unique_case_insensitive_match` and its specification, which filters the
-- entries and counts them.
use obsctl_rs.Prelude.{
  ◌≡◌, refl, Bool, false, Option, none, some, List, [], ◌∷◌, arith, Result, ok, err, retain, All,
  Bool-cases, inl, inr, if◌then◌else◌, ◌==◌, list_eq, nat_eq,
}
use obsctl_rs.Text.{Text}
use obsctl_rs.Errors.{ObsctlError, alias_ambiguous}
use obsctl_rs.Names.{normalized_name}
use obsctl_rs.Aliases.{
  AliasEntry, Reader, normalized_token, consider, match_from, unique_case_insensitive_match,
}

-- Whether a spelling folds to the text `folded`.
unfoldable pub folds_to : Text → Option Text → Bool
folds_to folded none = false
folds_to folded (some value) = elim (normalized_name value) [ ok n ↦ n == folded | err e ↦ false ]

-- The entries that a case-insensitive match may mean.
unfoldable pub hits : Reader → Text → List AliasEntry → List AliasEntry
hits read folded entries = retain (λ e. folds_to folded (read e)) entries

-- A spelling that is there has a normalized form.
abbrev pub IsUsable : Option Text → Type 0
IsUsable none = Unit
IsUsable (some value) = (n : Text) × (normalized_name value ≡ ok n)

-- No hit is no match, one hit is the match, and more are an ambiguity.
unfoldable pub verdict :
    Text → Option AliasEntry → List AliasEntry → Result ObsctlError (Option AliasEntry)
verdict raw matched [] = ok matched
verdict raw none (e ∷ []) = ok (some e)
verdict raw none (e ∷ f ∷ rest) = err (alias_ambiguous raw)
verdict raw (some m) (e ∷ rest) = err (alias_ambiguous raw)

-- What the body of the loop does with a usable entry.
consider_usable :
    (folded raw : Text) (o : Option Text) (entry : AliasEntry) (matched : Option AliasEntry)
    → IsUsable o
    → consider folded raw o entry matched ≡ (
        if folds_to folded o
        then (elim matched [ some _ ↦ err (alias_ambiguous raw) | none ↦ ok (some entry) ])
        else ok matched)
unfolding consider folds_to normalized_token
consider_usable folded raw none entry matched u = refl
consider_usable folded raw (some v) entry matched (n, h) = rw h (ground arith)

module _ (read : Reader) (folded raw : Text) where
  match_from-verdict :
      (matched : Option AliasEntry) (entries : List AliasEntry)
      → All (λ e. IsUsable (read e)) entries
      → match_from read folded raw matched entries ≡ verdict raw matched (hits read folded entries)
  unfolding match_from hits retain verdict
  match_from-verdict none [] u = refl
  match_from-verdict (some m) [] u = refl
  match_from-verdict none (entry ∷ entries) u =
      let (u0, us) = u in
      elim (Bool-cases (folds_to folded (read entry))) [
        | inl hit ↦
            rw
              (
                consider_usable folded raw (read entry) entry none u0,
                hit,
                match_from-verdict (some entry) entries us,
              )
              (ground arith)
        | inr miss ↦
            rw (consider_usable folded raw (read entry) entry none u0, miss)
              (match_from-verdict none entries us)
      ]
  match_from-verdict (some m) (entry ∷ entries) u =
      let (u0, us) = u in
      elim (Bool-cases (folds_to folded (read entry))) [
        | inl hit ↦ rw (consider_usable folded raw (read entry) entry (some m) u0, hit) refl
        | inr miss ↦
            rw (consider_usable folded raw (read entry) entry (some m) u0, miss)
              (match_from-verdict (some m) entries us)
      ]

  -- Over entries whose spellings have normalized forms, the case-insensitive match is no entry, the
  -- only entry that folds to the target, or an ambiguity, as the number of such entries says.
  pub unique_case_insensitive_match-verdict :
      (entries : List AliasEntry)
      → All (λ e. IsUsable (read e)) entries
      → unique_case_insensitive_match entries read folded raw
        ≡ verdict raw none (hits read folded entries)
  unfolding unique_case_insensitive_match
  unique_case_insensitive_match-verdict entries u = match_from-verdict none entries u
