-- ===== src/Aliases/Resolve.antt =====
-- src/domain/aliases.rs: why `resolve_with` answers an entry.
use obsctl_rs.Prelude.{
  ◌≡◌, ◌⊎◌, refl, sym, ap, ◌∙◌, Option, none, some, List, [], ◌∷◌, Result, ok, err, >>=-eq-ok, All,
  Option-cases, inl, inr, list_eq, nat_eq, Result-cases, ok_injective,
}
use obsctl_rs.Text.{Text, trim}
use obsctl_rs.Errors.{ResourceKind, ObsctlError}
use obsctl_rs.Names.{normalized_name, not_found}
use obsctl_rs.Aliases.{
  AliasEntry, Reader, read_alias, read_name, normalized_token, exact_match_order,
  case_insensitive_match_order, first_exact, first_folded, unique_case_insensitive_match, consider,
  match_from, numbered_row, resolve_loosely, resolve_with,
}
use obsctl_rs.Aliases.Match.{IsUsable, hits, verdict, unique_case_insensitive_match-verdict}
use obsctl_rs.Aliases.Reference.{exact, first, row, first_exact-exact, numbered_row-row}

-- Why an entry is the answer to a target: it is the first that is spelled as the target; or no entry is,
-- and it is the only one whose alias folds to the target; or no alias does either, and it is the only one
-- whose name does; or no name does either, and the target is its row's number.
pub data Answers (target folded : Text) (kind : ResourceKind) (entries : List AliasEntry)
    (e : AliasEntry) : Type 0 where
  exactly : first (exact (trim target) entries) ≡ some e → Answers target folded kind entries e
  by_alias :
      exact (trim target) entries ≡ []
      → hits (λ x. x.alias) folded entries ≡ e ∷ []
      → Answers target folded kind entries e
  by_name :
      exact (trim target) entries ≡ []
      → hits (λ x. x.alias) folded entries ≡ []
      → hits (λ x. some x.name) folded entries ≡ e ∷ []
      → Answers target folded kind entries e
  by_row :
      exact (trim target) entries ≡ []
      → hits (λ x. x.alias) folded entries ≡ []
      → hits (λ x. some x.name) folded entries ≡ []
      → row kind (trim target) entries ≡ some e
      → Answers target folded kind entries e

pub first-none : (es : List AliasEntry) → first es ≡ none → es ≡ []
unfolding first
first-none [] h = refl
first-none (e ∷ es) h = cc h

consider-IsUsable :
    (folded raw : Text) (o : Option Text) (x : AliasEntry) (matched found : Option AliasEntry)
    → consider folded raw o x matched ≡ ok found
    → IsUsable o
unfolding consider normalized_token
consider-IsUsable folded raw none x matched found h = tt
consider-IsUsable folded raw (some v) x matched found h = elim (Result-cases (normalized_name v)) [
  | inr (e, bad) ↦ cc (rw bad at h)
  | inl (n, good) ↦ (n, good)
]

-- A match that succeeds has read the normalized form of every spelling.
match_from-IsUsable :
    (read : Reader) (folded raw : Text) (entries : List AliasEntry)
    (matched found : Option AliasEntry)
    → match_from read folded raw matched entries ≡ ok found
    → All (λ e. IsUsable (read e)) entries
unfolding match_from
match_from-IsUsable read folded raw [] matched found h = tt
match_from-IsUsable read folded raw (x ∷ entries) matched found h =
    let (next, here, more) = >>=-eq-ok (consider folded raw (read x) x matched) _ h in
    (
      consider-IsUsable folded raw (read x) x matched next here,
      match_from-IsUsable read folded raw entries next found more,
    )

match-cases :
    (r : Result ObsctlError (Option AliasEntry))
    → (r ≡ ok none) ⊎ (((x : AliasEntry) × (r ≡ ok (some x))) ⊎ ((e : ObsctlError) × (r ≡ err e)))
match-cases (ok none) = inl refl
match-cases (ok (some x)) = inr (inl (x, refl))
match-cases (err e) = inr (inr (e, refl))

-- The hits of a match, as a match that succeeds counts them.
abbrev Counts : Option AliasEntry → List AliasEntry → Type 0
Counts none es = es ≡ []
Counts (some e) es = es ≡ e ∷ []

verdict-Counts :
    (raw : Text) (es : List AliasEntry) (found : Option AliasEntry)
    → verdict raw none es ≡ ok found
    → Counts found es
unfolding verdict
verdict-Counts raw [] none h = refl
verdict-Counts raw [] (some e) h = cc h
verdict-Counts raw (x ∷ []) none h = cc h
verdict-Counts raw (x ∷ []) (some e) h = let same : x ≡ e = cc h in rw same refl
verdict-Counts raw (x ∷ y ∷ es) found h = cc h

unique_match-Counts :
    (read : Reader) (folded raw : Text) (entries : List AliasEntry) (found : Option AliasEntry)
    → unique_case_insensitive_match entries read folded raw ≡ ok found
    → Counts found (hits read folded entries)
unfolding unique_case_insensitive_match
unique_match-Counts read folded raw entries found h =
    let usable = match_from-IsUsable read folded raw entries none found h in
    verdict-Counts raw (hits read folded entries) found
      (sym (unique_case_insensitive_match-verdict read folded raw entries usable) ∙ h)

module _ (folded target : Text) (entries : List AliasEntry) (kind : ResourceKind) where
  numbered-Answers :
      (e : AliasEntry)
      → exact (trim target) entries ≡ []
      → hits read_alias folded entries ≡ []
      → hits read_name folded entries ≡ []
      → (elim (numbered_row kind (trim target) entries) [
        | some entry ↦ ok entry
        | none ↦ err (not_found kind target)
      ])
        ≡ ok e
      → Answers target folded kind entries e
  numbered-Answers e inexact no_alias no_name h =
      elim (Option-cases (numbered_row kind (trim target) entries)) [
        | inl nothing ↦ cc (rw nothing at h)
        | inr (x, hit) ↦
            (let same : x ≡ e = ok_injective _ _ (rw hit at h) in
              by_row inexact no_alias no_name
                (sym (numbered_row-row kind (trim target) entries) ∙ hit ∙ ap some same))
      ]

  resolve_loosely-Answers :
      (e : AliasEntry)
      → exact (trim target) entries ≡ []
      → resolve_loosely folded target entries kind ≡ ok e
      → Answers target folded kind entries e
  unfolding resolve_loosely first_folded case_insensitive_match_order
  resolve_loosely-Answers e inexact h =
      elim (match-cases (unique_case_insensitive_match entries read_alias folded target)) [
        | inr (inr (bad, failed)) ↦ cc (rw failed at h)
        | inr (inl (x, hit)) ↦
            (let same : x ≡ e = ok_injective _ _ (rw hit at h) in
              by_alias inexact (
                unique_match-Counts read_alias folded target entries (some x) hit
                ∙ ap (λ y. y ∷ []) same))
        | inl no_alias ↦
            elim (match-cases (unique_case_insensitive_match entries read_name folded target)) [
              | inr (inr (bad, failed)) ↦ cc (rw (no_alias, failed) at h)
              | inr (inl (x, hit)) ↦
                  (let same : x ≡ e = ok_injective _ _ (rw (no_alias, hit) at h) in
                    by_name inexact
                      (unique_match-Counts read_alias folded target entries none no_alias)
                      (unique_match-Counts read_name folded target entries (some x) hit
                        ∙ ap (λ y. y ∷ []) same))
              | inl no_name ↦
                  numbered-Answers e inexact
                    (unique_match-Counts read_alias folded target entries none no_alias)
                    (unique_match-Counts read_name folded target entries none no_name)
                    (rw (no_alias, no_name) at h)
            ]
      ]

-- When the resolver answers an entry, over any entries, the target has a normalized form, and the
-- entry is the first one in the list of those whose shortcut, then those whose alias, then those
-- whose name is the trimmed target; or no entry is spelled so and it is the only one whose alias
-- folds to the target; or no alias does either and it is the only one whose name does; or no name
-- does either and it is the scene's row that the target's digits number.
pub resolve_with-Answers :
    (target : Text) (entries : List AliasEntry) (kind : ResourceKind) (e : AliasEntry)
    → resolve_with target entries kind ≡ ok e
    → (folded : Text) × (normalized_name target ≡ ok folded) × Answers target folded kind entries e
unfolding resolve_with normalized_token
resolve_with-Answers target entries kind e h = elim (Result-cases (normalized_name target)) [
  | inr (bad, wrong) ↦ cc (rw wrong at h)
  | inl (folded, good) ↦ (
    folded,
    good,
    elim (Option-cases (first_exact exact_match_order (trim target) entries)) [
      | inl miss ↦
          resolve_loosely-Answers folded target entries kind e
            (first-none _ (sym (first_exact-exact (trim target) entries) ∙ miss))
            (rw (good, miss) at h)
      | inr (x, hit) ↦
          (let same : x ≡ e = ok_injective _ _ (rw (good, hit) at h) in
            exactly (sym (first_exact-exact (trim target) entries) ∙ hit ∙ ap some same))
    ],
  )
]
