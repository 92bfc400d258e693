-- ===== src/Aliases/Unique.antt =====
-- src/domain/aliases.rs: `ensure_unique_aliases_and_shortcuts` and the resolver's matches.
use obsctl_rs.Prelude.{
  ℕ, ◌+◌, ◌≤◌, ◌≡◌, Bool, Option, none, some, List, [], ◌∷◌, map, arith, ok, >>=-eq-ok, length, any,
  retain, All, inl, inr, if◌then◌else◌, ==_iff, list_eq, nat_eq, Result-cases,
}
use obsctl_rs.Sets.{contains}
use obsctl_rs.Text.{Text}
use obsctl_rs.Errors.{ResourceKind, Message, duplicate_alias, duplicate_shortcut}
use obsctl_rs.Names.{normalized_name}
use obsctl_rs.Aliases.{
  AliasEntry, read_alias, normalize_alias_or_shortcut, claim, ensure_unique_from,
  ensure_unique_aliases_and_shortcuts,
}
use obsctl_rs.Aliases.Match.{IsUsable, folds_to, hits}

abbrev pub labels : AliasEntry → Option Text × Option Text
labels entry = (entry.alias, entry.shortcut)

abbrev one_if : Bool → ℕ
one_if b = if b then 1 else 0

-- A claim that is granted makes the value usable, and takes it for the first time.
module _ (kind : ResourceKind) (duplicate : Text → Message) where
  claim-IsUsable :
      (o : Option Text) (taken taken' : List Text)
      → claim kind duplicate o taken ≡ ok taken'
      → IsUsable o
  unfolding claim normalize_alias_or_shortcut
  claim-IsUsable none taken taken' h = tt
  claim-IsUsable (some v) taken taken' h = elim (Result-cases (normalized_name v)) [
    | inr (e, bad) ↦ cc (rw bad at h)
    | inl good ↦ good
  ]

  claim-count :
      (o : Option Text) (taken taken' : List Text) (folded : Text)
      → claim kind duplicate o taken ≡ ok taken'
      → one_if (contains taken' folded)
        ≡ one_if (contains taken folded) + one_if (folds_to folded o)
  unfolding claim normalize_alias_or_shortcut contains any folds_to
  claim-count none taken taken' folded h = ground arith
  claim-count (some v) taken taken' folded h = elim (Result-cases (normalized_name v)) [
    | inr (e, bad) ↦ cc (rw bad at h)
    | inl (n, good) ↦ ground (arith, good, ==_iff n folded)
  ]

ensure_unique_from-cons :
    (kind : ResourceKind) (taken shortcuts : List Text) (entry : AliasEntry)
    (entries : List AliasEntry)
    → ensure_unique_from kind taken shortcuts (map labels (entry ∷ entries)) ≡ ok tt
    → (taken' shortcuts' : List Text) × (claim kind (duplicate_alias kind) entry.alias taken
        ≡ ok taken')
      × (ensure_unique_from kind taken' shortcuts' (map labels entries) ≡ ok tt)
unfolding ensure_unique_from
ensure_unique_from-cons kind taken shortcuts entry entries h =
    let (taken', claimed, rest) =
      >>=-eq-ok (claim kind (duplicate_alias kind) entry.alias taken) _ h in
    let (shortcuts', claimed', rest') =
      >>=-eq-ok (claim kind (duplicate_shortcut kind) entry.shortcut shortcuts)
        (λ s. ensure_unique_from kind taken' s (map labels entries)) rest in
    (taken', shortcuts', claimed, rest')

-- How many entries answer to `folded` by their alias, those already seen included.
ensure_unique_from-aliases :
    (kind : ResourceKind) (taken shortcuts : List Text) (entries : List AliasEntry) (folded : Text)
    → ensure_unique_from kind taken shortcuts (map labels entries) ≡ ok tt
    → one_if (contains taken folded) + length (hits read_alias folded entries) ≤ 1
unfolding hits retain
ensure_unique_from-aliases kind taken shortcuts [] folded h = ground arith
ensure_unique_from-aliases kind taken shortcuts (entry ∷ entries) folded h =
    let (taken', shortcuts', claimed, rest) =
      ensure_unique_from-cons kind taken shortcuts entry entries h in
    ground (
      arith,
      claim-count kind (duplicate_alias kind) entry.alias taken taken' folded claimed,
      ensure_unique_from-aliases kind taken' shortcuts' entries folded rest,
    )

ensure_unique_from-IsUsable :
    (kind : ResourceKind) (taken shortcuts : List Text) (entries : List AliasEntry)
    → ensure_unique_from kind taken shortcuts (map labels entries) ≡ ok tt
    → All (λ e. IsUsable e.alias) entries
ensure_unique_from-IsUsable kind taken shortcuts [] h = tt
ensure_unique_from-IsUsable kind taken shortcuts (entry ∷ entries) h =
    let (taken', shortcuts', claimed, rest) =
      ensure_unique_from-cons kind taken shortcuts entry entries h in
    (
      claim-IsUsable kind (duplicate_alias kind) entry.alias taken taken' claimed,
      ensure_unique_from-IsUsable kind taken' shortcuts' entries rest,
    )

-- The check a configuration's entries pass.
abbrev pub IsUnique : ResourceKind → List AliasEntry → Type 0
IsUnique kind entries = ensure_unique_aliases_and_shortcuts kind (map labels entries) ≡ ok tt

-- Of the entries that passed the uniqueness check, at most one has an alias with a given normalized
-- form.
pub ensure_unique-hits :
    (kind : ResourceKind) (entries : List AliasEntry) (folded : Text)
    → IsUnique kind entries
    → length (hits read_alias folded entries) ≤ 1
unfolding ensure_unique_aliases_and_shortcuts
ensure_unique-hits kind entries folded h =
    omega (arith, ensure_unique_from-aliases kind [] [] entries folded h)

pub ensure_unique-IsUsable :
    (kind : ResourceKind) (entries : List AliasEntry)
    → IsUnique kind entries
    → All (λ e. IsUsable e.alias) entries
unfolding ensure_unique_aliases_and_shortcuts
ensure_unique-IsUsable kind entries h = ensure_unique_from-IsUsable kind [] [] entries h
