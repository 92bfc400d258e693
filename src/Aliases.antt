-- ===== src/Aliases.antt =====
-- src/domain/aliases.rs: which entry a target means, and when a set of entries is unambiguous.
pub mod Match
pub mod Reference
pub mod Resolve
pub mod Unique
pub mod Ambiguous
pub mod Tests
use obsctl_rs.Prelude.{
  ℕ, zero, suc, ◌-◌, Bool, true, false, ◌&&◌, not, Option, none, some, List, [], ◌∷◌, Result, ok,
  err, map_err, leb, all, any, find, get_elem?, if◌then◌else◌, ◌==◌, list_eq, option_eq, nat_eq,
  ◌>>=◌, ◌>>◌,
}
use obsctl_rs.Text.{Text, is_ascii_digit, is_empty, trim}
use obsctl_rs.Sets.{contains}
use obsctl_rs.Numbers.{u64_limit, parse_unsigned}
use obsctl_rs.Errors.{
  ResourceKind, scene, audio_input, Message, bad_token, bad_alias_or_shortcut, duplicate_alias,
  duplicate_shortcut, ObsctlError, config_invalid, alias_ambiguous,
}
use obsctl_rs.Names.{normalized_name, not_found}

pub record AliasEntry : Type 0 where
  pub name : Text
  pub alias : Option Text
  pub shortcut : Option Text

unfoldable pub normalized_token : Text → Result ObsctlError Text
normalized_token value = map_err (λ e. config_invalid (bad_token e)) (normalized_name value)

unfoldable pub normalize_alias_or_shortcut : Text → ResourceKind → Result ObsctlError Text
normalize_alias_or_shortcut value kind =
    map_err (λ e. config_invalid (bad_alias_or_shortcut kind e)) (normalized_name value)

-- One of the two checks on an entry: a value that is there must be usable and new.
unfoldable pub claim :
    ResourceKind → (Text → Message) → Option Text → List Text → Result ObsctlError (List Text)
claim kind duplicate none taken = ok taken
claim kind duplicate (some value) taken = do
  normalized ← normalize_alias_or_shortcut value kind
  if contains taken normalized
      then err (config_invalid (duplicate value))
      else ok (normalized ∷ taken)

-- The loop of `ensure_unique_aliases_and_shortcuts` over its two sets.
unfoldable pub ensure_unique_from :
    ResourceKind
    → List Text
    → List Text
    → List (Option Text × Option Text)
    → Result ObsctlError (Unit {0})
ensure_unique_from kind aliases shortcuts [] = ok tt
ensure_unique_from kind aliases shortcuts ((alias, shortcut) ∷ entries) = do
  aliases' ← claim kind (duplicate_alias kind) alias aliases
  shortcuts' ← claim kind (duplicate_shortcut kind) shortcut shortcuts
  ensure_unique_from kind aliases' shortcuts' entries

unfoldable pub ensure_unique_aliases_and_shortcuts :
    ResourceKind → List (Option Text × Option Text) → Result ObsctlError (Unit {0})
ensure_unique_aliases_and_shortcuts kind entries = ensure_unique_from kind [] [] entries

-- One of the spellings of an entry.
abbrev pub Reader : Type 0
Reader = AliasEntry → Option Text

abbrev pub read_shortcut : Reader
read_shortcut entry = entry.shortcut

abbrev pub read_alias : Reader
read_alias entry = entry.alias

abbrev pub read_name : Reader
read_name entry = some entry.name

unfoldable pub exact_match_order : List Reader
exact_match_order = read_shortcut ∷ read_alias ∷ read_name ∷ []

unfoldable pub case_insensitive_match_order : List Reader
case_insensitive_match_order = read_alias ∷ read_name ∷ []

-- The loop over `EXACT_MATCH_ORDER`.
unfoldable pub first_exact : List Reader → Text → List AliasEntry → Option AliasEntry
first_exact [] trimmed entries = none
first_exact (read ∷ order) trimmed entries =
    let rest = first_exact order trimmed entries in
    elim (find (λ e. read e == some trimmed) entries) [ some entry ↦ some entry | none ↦ rest ]

-- The body of the loop of `unique_case_insensitive_match`, for an entry with the given spelling.
unfoldable pub consider :
    Text
    → Text
    → Option Text
    → AliasEntry
    → Option AliasEntry
    → Result ObsctlError (Option AliasEntry)
consider normalized_target raw_target none entry matched = ok matched
consider normalized_target raw_target (some value) entry matched = do
  normalized ← normalized_token value
  if not (normalized == normalized_target)
      then ok matched
      else elim matched [ some _ ↦ err (alias_ambiguous raw_target) | none ↦ ok (some entry) ]

unfoldable pub match_from :
    Reader
    → Text
    → Text
    → Option AliasEntry
    → List AliasEntry
    → Result ObsctlError (Option AliasEntry)
match_from read normalized_target raw_target matched [] = ok matched
match_from read normalized_target raw_target matched (entry ∷ entries) = do
  matched' ← consider normalized_target raw_target (read entry) entry matched
  match_from read normalized_target raw_target matched' entries

unfoldable pub unique_case_insensitive_match :
    List AliasEntry → Reader → Text → Text → Result ObsctlError (Option AliasEntry)
unique_case_insensitive_match entries read normalized_target raw_target =
    match_from read normalized_target raw_target none entries

-- The loop over `CASE_INSENSITIVE_MATCH_ORDER`.
unfoldable pub first_folded :
    List Reader → Text → Text → List AliasEntry → Result ObsctlError (Option AliasEntry)
first_folded [] normalized_target raw_target entries = ok none
first_folded (read ∷ order) normalized_target raw_target entries = do
  found ← unique_case_insensitive_match entries read normalized_target raw_target
  let rest = first_folded order normalized_target raw_target entries
  elim found [ some entry ↦ ok (some entry) | none ↦ rest ]

-- A bare number, from 1, names a row of the scene list.
unfoldable pub numbered_row : ResourceKind → Text → List AliasEntry → Option AliasEntry
numbered_row audio_input trimmed entries = none
numbered_row scene trimmed entries =
    if not (is_empty trimmed) && all is_ascii_digit trimmed
    then elim (parse_unsigned u64_limit trimmed) [
      | none ↦ none
      | some index ↦ if leb 1 index then get_elem? entries (index - 1) else none
    ]
    else none

-- `resolve_with` after the exact matches: the case-insensitive matches, and then the row number.
unfoldable pub resolve_loosely :
    Text → Text → List AliasEntry → ResourceKind → Result ObsctlError AliasEntry
resolve_loosely normalized_target target entries kind = do
  found ← first_folded case_insensitive_match_order normalized_target target entries
  elim found [
    | some entry ↦ ok entry
    | none ↦ elim (numbered_row kind (trim target) entries) [
      | some entry ↦ ok entry
      | none ↦ err (not_found kind target)
    ]
  ]

unfoldable pub resolve_with : Text → List AliasEntry → ResourceKind → Result ObsctlError AliasEntry
resolve_with target entries kind = do
  normalized_target ← normalized_token target
  elim (first_exact exact_match_order (trim target) entries) [
    | some entry ↦ ok entry
    | none ↦ resolve_loosely normalized_target target entries kind
  ]

unfoldable pub resolve : Text → List AliasEntry → Result ObsctlError AliasEntry
resolve target entries = resolve_with target entries scene

unfoldable pub resolve_audio : Text → List AliasEntry → Result ObsctlError AliasEntry
resolve_audio target entries = resolve_with target entries audio_input
