-- ===== src/Config/Dump.antt =====
-- src/config/dump.rs: the scenes and inputs of OBS merged into a configuration. The default entries
-- are `SceneConfig::default()` and `AudioInputConfig::default()` of src/config/model.rs.
pub mod Merged
use obsctl_rs.Prelude.{
  ℕ, Bool, false, not, ◌&&◌, Option, none, some, List, [], ◌∷◌, ◌++◌, map, Result, ok, err, map_err,
  if◌then◌else◌, ◌>>=◌, ◌>>◌, ◌==◌, list_eq, nat_eq,
}
use obsctl_rs.Text.{Text, text}
use obsctl_rs.Sets.{contains, collect}
use obsctl_rs.Errors.{
  ResourceKind, scene, audio_input, ObsctlError, config_invalid, Message, bad_resource_name,
  alias_collision, shortcut_collision,
}
use obsctl_rs.Names.{normalized_name}
use obsctl_rs.Aliases.{ensure_unique_aliases_and_shortcuts, normalize_alias_or_shortcut}
use obsctl_rs.Config.{Config, SceneConfig, AudioInputConfig}

pub record ObsResources : Type 0 where
  pub scenes : List Text
  pub inputs : List Text

-- `MergeableEntry`.
pub record MergeableEntry (T : Type 0) : Type 0 where
  pub kind : ResourceKind
  pub name : T → Text
  pub alias : T → Option Text
  pub shortcut : T → Option Text
  pub with_stale : Bool → T → T
  pub newly_discovered : Text → T

abbrev pub mergeable_scene : MergeableEntry SceneConfig
mergeable_scene = record {
  kind = scene;
  name = λ e. e.name;
  alias = λ e. e.alias;
  shortcut = λ e. e.shortcut;
  with_stale = λ stale e. record e { stale = stale };
  newly_discovered = λ name. record {
    name = name;
    alias = none;
    shortcut = none;
    group = none;
    stale = false;
    hidden = false;
  };
}

abbrev pub mergeable_input : MergeableEntry AudioInputConfig
mergeable_input = record {
  kind = audio_input;
  name = λ e. e.name;
  alias = λ e. e.alias;
  shortcut = λ e. e.shortcut;
  with_stale = λ stale e. record e { stale = stale };
  newly_discovered = λ name. record {
    name = name;
    alias = none;
    shortcut = none;
    kind = text "input";
    stale = false;
  };
}

unfoldable pub normalized : ResourceKind → Text → Result ObsctlError Text
normalized kind value =
    map_err (λ e. config_invalid (bad_resource_name kind e)) (normalized_name value)

-- `.collect::<Result<_>>()` of the results of a map.
unfoldable pub collect_results :
    {A B : Type 0} → (A → Result ObsctlError B) → List A → Result ObsctlError (List B)
collect_results f [] = ok []
collect_results f (x ∷ xs) = do y ← f x; ys ← collect_results f xs; ok (y ∷ ys)

module _ {T : Type 0} (m : MergeableEntry T) where
  -- One of the two rounds of the loop of `reject_collision_with_obs_name`.
  unfoldable pub reject_value :
      Text → (Text → Message) → Option Text → List Text → Result ObsctlError (Unit {0})
  reject_value entry_name collision none obs_set = ok tt
  reject_value entry_name collision (some value) obs_set = do
    normalized_value ← normalize_alias_or_shortcut value m.kind
    if contains obs_set normalized_value && not (normalized_value == entry_name)
        then err (config_invalid (collision value))
        else ok tt

  unfoldable pub reject_collision_with_obs_name : List Text → T → Result ObsctlError (Unit {0})
  reject_collision_with_obs_name obs_set entry = do
    entry_name ← normalized m.kind (m.name entry)
    reject_value entry_name (alias_collision m.kind) (m.alias entry) obs_set
    reject_value entry_name (shortcut_collision m.kind) (m.shortcut entry) obs_set

  unfoldable pub reject_collisions : List Text → List T → Result ObsctlError (Unit {0})
  reject_collisions obs_set [] = ok tt
  reject_collisions obs_set (entry ∷ entries) = do
    reject_collision_with_obs_name obs_set entry
    reject_collisions obs_set entries

  -- An entry of the configuration, stale when OBS does not have it.
  unfoldable pub marked : List Text → T → Result ObsctlError T
  marked obs_set entry = do
    entry_name ← normalized m.kind (m.name entry)
    ok (m.with_stale (not (contains obs_set entry_name)) entry)

  -- The loop that adds what the configuration lacks.
  unfoldable pub discovered : List Text → List Text → Result ObsctlError (List T)
  discovered existing_names [] = ok []
  discovered existing_names (name ∷ names) = do
    wanted ← normalized m.kind name
    rest ← discovered existing_names names
    ok (if not (contains existing_names wanted) then m.newly_discovered name ∷ rest else rest)

  unfoldable pub merge_entries : List T → List Text → Result ObsctlError (List T)
  merge_entries existing obs_names = do
    obs_set ← collect_results (normalized m.kind) obs_names
    reject_collisions (collect obs_set) existing
    kept ← collect_results (marked (collect obs_set)) existing
    existing_names ← collect_results (λ e. normalized m.kind (m.name e)) existing
    added ← discovered (collect existing_names) obs_names
    ensure_unique_aliases_and_shortcuts m.kind
        (map (λ e. (m.alias e, m.shortcut e)) (kept ++ added))
    ok (kept ++ added)

unfoldable pub merge : {F : Type 0} → Config F → ObsResources → Result ObsctlError (Config F)
merge config obs = do
  scenes ← merge_entries mergeable_scene config.scenes obs.scenes
  inputs ← merge_entries mergeable_input config.audio.inputs obs.inputs
  ok (record config { scenes = scenes; audio = record { inputs = inputs } })
