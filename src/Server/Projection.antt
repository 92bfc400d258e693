-- ===== src/Server/Projection.antt =====
-- src/server/state_store.rs: what the configuration contributes to a snapshot, and the snapshot that
-- a full refresh builds.
use obsctl_rs.Prelude.{
  and_then, map_some, ℕ, Bool, true, false, not, Option, none, some, List, map, find, ◌==◌, list_eq,
  nat_eq, if◌then◌else◌,
}
use obsctl_rs.Text.{Text, is_empty}
use obsctl_rs.Volume.{Floats}
use obsctl_rs.Aliases.{AliasEntry}
use obsctl_rs.Visibility.{SceneVisibility, is_hidden}
use obsctl_rs.Config.{Config, SceneConfig, AudioInputConfig, active_profile, scene_visibility}
use obsctl_rs.Obs.{
  SceneState, SceneProfileState, AudioState, ObsSnapshot, default_snapshot, default_audio,
  set_level, clear_level,
}

pub record ConfigProjection : Type 0 where
  pub scenes : List SceneConfig
  pub audio_inputs : List AudioInputConfig
  pub visibility : SceneVisibility
  pub scene_profiles : List SceneProfileState
  pub active_scene_profile : Option Text

unfoldable pub from_config : {F : Type 0} → Config F → ConfigProjection
from_config config = record {
  scenes = config.scenes;
  audio_inputs = config.audio.inputs;
  visibility = scene_visibility config;
  scene_profiles = map (λ p. record { name = p.name; hidden = p.hidden }) config.scene_profiles;
  active_scene_profile = map_some (λ p. p.name) (active_profile config);
}

unfoldable pub scene_config : ConfigProjection → Text → Option SceneConfig
scene_config projection name = find (λ c. c.name == name) projection.scenes

unfoldable pub audio_config : ConfigProjection → Text → Option AudioInputConfig
audio_config projection name = find (λ c. c.name == name) projection.audio_inputs

unfoldable pub apply_scene_config : Option SceneConfig → SceneVisibility → SceneState → SceneState
apply_scene_config cfg visibility scene = record scene {
  alias = and_then cfg (λ c. c.alias);
  shortcut = and_then cfg (λ c. c.shortcut);
  group = and_then cfg (λ c. c.group);
  hidden = is_hidden visibility scene.name;
}

unfoldable pub apply_audio_config :
    {F : Type 0} → Option AudioInputConfig → AudioState F → AudioState F
apply_audio_config cfg input = record input {
  alias = and_then cfg (λ c. c.alias);
  shortcut = and_then cfg (λ c. c.shortcut);
}

pub record ObsVersions : Type 0 where
  pub studio : Text
  pub websocket : Text

pub record Listing : Type 0 where
  pub names : List Text
  pub current : Text

unfoldable pub current_or_none : Listing → Option Text
current_or_none listing = if not (is_empty listing.current) then some listing.current else none

pub record RawInputState (F : Type 0) : Type 0 where
  pub name : Text
  pub muted : Option Bool
  pub volume_mul : Option F

pub record OutputFlags : Type 0 where
  pub streaming : Bool
  pub recording : Bool

pub record RefreshedObsState (F : Type 0) : Type 0 where
  pub versions : ObsVersions
  pub scenes : Listing
  pub inputs : List (RawInputState F)
  pub profiles : Listing
  pub collections : Listing
  pub outputs : OutputFlags

-- The scene of one name in `build_snapshot`.
unfoldable pub build_scene : Text → ConfigProjection → Text → SceneState
build_scene current_scene projection name =
    apply_scene_config (scene_config projection name) projection.visibility (record {
      name = name;
      alias = none;
      shortcut = none;
      group = none;
      active = name == current_scene;
      hidden = false;
    })

module _ {F : Type 0} (f : Floats F) where
  -- The level of one input in `build_snapshot`.
  unfoldable pub with_level : Option F → AudioState F → AudioState F
  with_level (some volume_mul) input = set_level f volume_mul input
  with_level none input = clear_level input

  unfoldable pub build_input : ConfigProjection → RawInputState F → AudioState F
  build_input projection input =
      apply_audio_config (audio_config projection input.name)
        (with_level input.volume_mul (record audio { muted = input.muted }))
    where
      audio : AudioState F
      audio = default_audio input.name

  unfoldable pub build_snapshot : RefreshedObsState F → ConfigProjection → ℕ → ObsSnapshot F
  build_snapshot refreshed projection now = record (default_snapshot now) {
    connected = true;
    obs_studio_version = some refreshed.versions.studio;
    obs_websocket_version = some refreshed.versions.websocket;
    current_scene = some refreshed.scenes.current;
    scenes = map (build_scene refreshed.scenes.current projection) refreshed.scenes.names;
    audio_inputs = map (build_input projection) refreshed.inputs;
    streaming = refreshed.outputs.streaming;
    recording = refreshed.outputs.recording;
    profiles = refreshed.profiles.names;
    current_profile = current_or_none refreshed.profiles;
    scene_collections = refreshed.collections.names;
    current_scene_collection = current_or_none refreshed.collections;
    scene_profiles = projection.scene_profiles;
    active_scene_profile = projection.active_scene_profile;
  }

-- `StateStore::scene_aliases` and `audio_aliases`: the tables that targets are resolved against.
unfoldable pub scene_aliases : {F : Type 0} → ObsSnapshot F → List AliasEntry
scene_aliases snapshot =
    map (λ s. record { name = s.name; alias = s.alias; shortcut = s.shortcut }) snapshot.scenes

unfoldable pub audio_aliases : {F : Type 0} → ObsSnapshot F → List AliasEntry
audio_aliases snapshot =
    map (λ a. record { name = a.name; alias = a.alias; shortcut = a.shortcut })
      snapshot.audio_inputs
