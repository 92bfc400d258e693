-- ===== src/Obs.antt =====
-- src/obs/state.rs and `ObsEvent` of src/obs/client.rs: what the daemon knows of OBS, and what OBS
-- reports. `F` is `f64` (and `f32`, which the code only passes on); `J` is a JSON value.
pub mod Requests
use obsctl_rs.Prelude.{ℕ, Bool, false, Option, none, some, List, []}
use obsctl_rs.Text.{Text}
use obsctl_rs.Volume.{Floats, mul_to_db, mul_to_percent}

pub record SceneState : Type 0 where
  pub name : Text
  pub alias : Option Text
  pub shortcut : Option Text
  pub group : Option Text
  pub active : Bool
  pub hidden : Bool

pub record SceneProfileState : Type 0 where
  pub name : Text
  pub hidden : List Text

pub record AudioState (F : Type 0) : Type 0 where
  pub name : Text
  pub alias : Option Text
  pub shortcut : Option Text
  pub kind : Option Text
  pub muted : Option Bool
  pub volume_mul : Option F
  pub volume_db : Option F
  pub volume_percent : Option ℕ

pub record ObsStats (F : Type 0) : Type 0 where
  pub cpu_usage_percent : F
  pub memory_usage_mb : F
  pub available_disk_space_mb : F
  pub active_fps : F
  pub average_frame_render_time_ms : F
  pub render_skipped_frames : ℕ
  pub render_total_frames : ℕ
  pub output_skipped_frames : ℕ
  pub output_total_frames : ℕ

-- `updated_at` is the time of the last write.
pub record ObsSnapshot (F : Type 0) : Type 0 where
  pub connected : Bool
  pub obs_studio_version : Option Text
  pub obs_websocket_version : Option Text
  pub current_scene : Option Text
  pub scenes : List SceneState
  pub audio_inputs : List (AudioState F)
  pub streaming : Bool
  pub recording : Bool
  pub profiles : List Text
  pub current_profile : Option Text
  pub scene_collections : List Text
  pub current_scene_collection : Option Text
  pub scene_profiles : List SceneProfileState
  pub active_scene_profile : Option Text
  pub last_error : Option Text
  pub stats : Option (ObsStats F)
  pub stream_bitrate_kbps : Option F
  pub stream_duration_ms : Option ℕ
  pub record_duration_ms : Option ℕ
  pub updated_at : ℕ

-- `ObsSnapshot::default()` at the time `now`.
unfoldable pub default_snapshot : {F : Type 0} → ℕ → ObsSnapshot F
default_snapshot now = record {
  connected = false;
  obs_studio_version = none;
  obs_websocket_version = none;
  current_scene = none;
  scenes = [];
  audio_inputs = [];
  streaming = false;
  recording = false;
  profiles = [];
  current_profile = none;
  scene_collections = [];
  current_scene_collection = none;
  scene_profiles = [];
  active_scene_profile = none;
  last_error = none;
  stats = none;
  stream_bitrate_kbps = none;
  stream_duration_ms = none;
  record_duration_ms = none;
  updated_at = now;
}

-- `AudioState { name, ..AudioState::default() }`.
abbrev pub default_audio : {F : Type 0} → Text → AudioState F
default_audio name = record {
  name = name;
  alias = none;
  shortcut = none;
  kind = none;
  muted = none;
  volume_mul = none;
  volume_db = none;
  volume_percent = none;
}

module _ {F : Type 0} (f : Floats F) where
  unfoldable pub set_level_with_db : F → F → AudioState F → AudioState F
  set_level_with_db volume_mul volume_db input = record input {
    volume_mul = some volume_mul;
    volume_db = some volume_db;
    volume_percent = some (mul_to_percent f volume_mul);
  }

  unfoldable pub set_level : F → AudioState F → AudioState F
  set_level volume_mul input = set_level_with_db volume_mul (mul_to_db f volume_mul) input

unfoldable pub clear_level : {F : Type 0} → AudioState F → AudioState F
clear_level input = record input { volume_mul = none; volume_db = none; volume_percent = none }

pub data ObsEvent (F J : Type 0) : Type 0 where
  current_program_scene_changed : Text → ObsEvent F J
  scene_list_changed : ObsEvent F J
  input_created : Text → ObsEvent F J
  input_removed : Text → ObsEvent F J
  input_mute_state_changed : Text → Bool → ObsEvent F J
  input_volume_changed : Text → F → F → ObsEvent F J
  input_volume_meters : List (Text × F) → ObsEvent F J
  stream_state_changed : Bool → ObsEvent F J
  record_state_changed : Bool → ObsEvent F J
  current_profile_changed : Text → ObsEvent F J
  profile_list_changed : ObsEvent F J
  current_scene_collection_changed : Text → ObsEvent F J
  scene_collection_list_changed : ObsEvent F J
  other : Text → J → ObsEvent F J
