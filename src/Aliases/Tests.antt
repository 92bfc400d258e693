-- ===== src/Aliases/Tests.antt =====
-- Runs of the resolver, and the theorems about it at a concrete list of scenes.
use obsctl_rs.Prelude.{
  ℕ, ◌≡◌, ◌≤◌, ◌↔◌, refl, none, some, List, [], ◌∷◌, ok, err, length, any, all, find, retain,
}
use obsctl_rs.Sets.{contains}
use obsctl_rs.Text.{Text, text, is_control, is_whitespace, is_ascii_digit, trim, to_ascii_lowercase}
use obsctl_rs.Errors.{scene, audio_input, alias_ambiguous}
use obsctl_rs.Numbers.{parse_unsigned, parse_digits, digits_value}
use obsctl_rs.Names.{trim_and_validate_token_with_max_len, checked_name, normalized_name, not_found}
use obsctl_rs.Aliases.{
  AliasEntry, read_alias, read_name, normalized_token, normalize_alias_or_shortcut, claim,
  ensure_unique_from, ensure_unique_aliases_and_shortcuts, exact_match_order,
  case_insensitive_match_order, first_exact, consider, match_from, unique_case_insensitive_match,
  first_folded, numbered_row, resolve_loosely, resolve_with,
}
use obsctl_rs.Aliases.Match.{hits, folds_to, verdict, unique_case_insensitive_match-verdict}
use obsctl_rs.Aliases.Reference.{exact, first, spelled, row, row_from}
use obsctl_rs.Aliases.Resolve.{Answers, resolve_with-Answers}
use obsctl_rs.Aliases.Unique.{IsUnique, ensure_unique-hits}
use obsctl_rs.Aliases.Ambiguous.{
  AreUsable, IsAmbiguous, resolve_with-choose, resolve_with-IsAmbiguous, choose, choice, by_number,
  missing,
}

-- What a run of the resolver unfolds.
unfoldable running : ℕ
unfolding any all find retain text is_control is_whitespace is_ascii_digit trim to_ascii_lowercase
    parse_unsigned parse_digits digits_value trim_and_validate_token_with_max_len checked_name
    normalized_name not_found normalized_token normalize_alias_or_shortcut contains claim
    ensure_unique_from ensure_unique_aliases_and_shortcuts exact_match_order
    case_insensitive_match_order first_exact consider match_from unique_case_insensitive_match
    first_folded numbered_row resolve_loosely resolve_with hits folds_to verdict
running = 0

abbrev main_scene : AliasEntry
main_scene = record { name = text "Main"; alias = some (text "cam"); shortcut = some (text "m") }

abbrev main_lower : AliasEntry
main_lower = record { name = text "main"; alias = none; shortcut = none }

abbrev brb_scene : AliasEntry
brb_scene = record { name = text "BRB"; alias = some (text "break"); shortcut = some (text "b") }

abbrev scenes : List AliasEntry
scenes = main_scene ∷ main_lower ∷ brb_scene ∷ []

by_row : resolve_with (text "03") scenes scene ≡ ok brb_scene
unfolding running
by_row = refl

no_rows_for_audio : resolve_with (text "CAM ") scenes audio_input ≡ ok main_scene
unfolding running
no_rows_for_audio = refl

by_alias : resolve_with (text " BREAK ") scenes scene ≡ ok brb_scene
unfolding running
by_alias = refl

-- A name that differs from another in case alone.
target-normalized : normalized_name (text "MAIN") ≡ ok (text "main")
unfolding running
target-normalized = refl

scenes-IsUnique : IsUnique scene scenes
unfolding running
scenes-IsUnique = refl

scenes-AreUsable : AreUsable scenes
unfolding running
scenes-AreUsable = record {
  aliases = ((text "cam", refl), (tt, ((text "break", refl), tt)));
  names = ((text "main", refl), ((text "main", refl), ((text "brb", refl), tt)));
}

unique_match_example :
    unique_case_insensitive_match scenes read_name (text "main") (text "MAIN")
    ≡ verdict (text "MAIN") none (hits read_name (text "main") scenes)
unique_match_example =
    unique_case_insensitive_match-verdict read_name (text "main") (text "MAIN") scenes
      scenes-AreUsable.names

resolve_with-Answers_example :
    (folded : Text) × (normalized_name (text "03") ≡ ok folded)
    × Answers (text "03") folded scene scenes brb_scene
resolve_with-Answers_example = resolve_with-Answers (text "03") scenes scene brb_scene by_row

resolve_with-choose_example :
    resolve_with (text "MAIN") scenes scene ≡ choice (text "MAIN") (text "main") scenes scene
resolve_with-choose_example =
    resolve_with-choose (text "MAIN") (text "main") scenes scene target-normalized scenes-AreUsable

resolve_with-IsAmbiguous_example :
    (resolve_with (text "MAIN") scenes scene ≡ err (alias_ambiguous (text "MAIN")))
    ↔ IsAmbiguous (text "MAIN") (text "main") scenes
resolve_with-IsAmbiguous_example =
    resolve_with-IsAmbiguous (text "MAIN") (text "main") scenes scene scene target-normalized
      scenes-IsUnique scenes-AreUsable.names

ensure_unique-hits_example : length (hits read_alias (text "cam") scenes) ≤ 1
ensure_unique-hits_example = ensure_unique-hits scene scenes (text "cam") scenes-IsUnique

-- The description chooses as the resolver does: an exact spelling, a row, and an ambiguity.
described :
    (choice (text "m") (text "m") scenes scene ≡ ok main_scene)
    × (choice (text "03") (text "03") scenes scene ≡ ok brb_scene)
    × (choice (text "MAIN") (text "main") scenes scene ≡ err (alias_ambiguous (text "MAIN")))
unfolding running choice choose by_number missing exact first spelled row row_from
described = (refl, refl, refl)
