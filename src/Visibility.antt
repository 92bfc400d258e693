-- ===== src/Visibility.antt =====
-- src/domain/scene_profiles.rs: which scenes are hidden right now.
pub mod Laws
use obsctl_rs.Prelude.{
  ℕ, Bool, true, false, Option, none, some, List, [], ◌∷◌, map, ok, err, to_option, retain,
  filter_map, length, list_eq, nat_eq,
}
use obsctl_rs.Text.{Text}
use obsctl_rs.Names.{normalized_name}
use obsctl_rs.Sets.{contains, collect}

-- `SceneVisibility`: the set of the normalized names of the hidden scenes.
pub record SceneVisibility : Type 0 where
  pub hidden : List Text

-- `ActiveSceneProfile`.
pub data ActiveSceneProfile : Type 0 where
  no_profile : ActiveSceneProfile
  named : List Text → ActiveSceneProfile

unfoldable pub usable_name : Text → Option Text
usable_name name = to_option (normalized_name name)

-- `SceneVisibility::resolve`.
unfoldable pub resolve : List (Text × Bool) → ActiveSceneProfile → SceneVisibility
resolve baseline no_profile = record {
  hidden = collect (filter_map (λ s. usable_name s.0) (retain (λ s. s.1) baseline));
}
resolve baseline (named list) = record { hidden = collect (filter_map usable_name list) }

unfoldable pub is_hidden : SceneVisibility → Text → Bool
is_hidden visibility scene_name = elim (normalized_name scene_name) [
  | ok name ↦ contains visibility.hidden name
  | err e ↦ false
]

unfoldable pub hidden_count : SceneVisibility → ℕ
hidden_count visibility = length visibility.hidden
