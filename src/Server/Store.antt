-- ===== src/Server/Store.antt =====
-- src/server/state_store.rs: `StateStore` and its operations. A store is the snapshot behind the lock,
-- the hub that it publishes to, and the generation counter. An operation takes the write lock for its
-- whole body, so the operations happen one after another; `now` is the time that it reads.
pub mod Steps
pub mod Generation
pub mod Metrics
pub mod InSync
pub mod Rows
pub mod Consistent
pub mod Projected
pub mod Status
pub mod Tests
use obsctl_rs.Prelude.{
  ℕ, ◌+◌, ◌%◌, ◌^◌, Bool, true, false, not, Option, none, some, List, map, Result, ok, err, ◌==◌,
  nat_eq, if◌then◌else◌,
}
use obsctl_rs.Text.{Text}
use obsctl_rs.Volume.{Floats}
use obsctl_rs.Obs.{SceneState, AudioState, ObsStats, ObsSnapshot, default_snapshot, ObsEvent}
use obsctl_rs.Server.Hub.{Hub, Wire, event, state, publish}
use obsctl_rs.Server.Projection.{
  ConfigProjection, ObsVersions, RefreshedObsState, scene_config, audio_config, apply_scene_config,
  apply_audio_config, build_snapshot,
}
use obsctl_rs.Server.Apply.{apply_to_snapshot}

pub record StateStore (F J : Type 0) : Type 0 where
  pub inner : ObsSnapshot F
  pub hub : Hub J
  pub generation : ℕ

unfoldable pub new_store : {F J : Type 0} → Hub J → ℕ → StateStore F J
new_store hub now = record { inner = default_snapshot now; hub = hub; generation = 0 }

abbrev pub generation_mod : ℕ
generation_mod = 2 ^ 64

-- The fields of a snapshot that the stats poller owns.
pub record PolledMetrics (F : Type 0) : Type 0 where
  pub stats : Option (ObsStats F)
  pub stream_bitrate_kbps : Option F
  pub stream_duration_ms : Option ℕ
  pub record_duration_ms : Option ℕ

unfoldable pub new_metrics :
    {F : Type 0} → ObsStats F → Option F → Option ℕ → Option ℕ → PolledMetrics F
new_metrics stats bitrate stream record_ms = record {
  stats = some stats;
  stream_bitrate_kbps = bitrate;
  stream_duration_ms = stream;
  record_duration_ms = record_ms;
}

unfoldable pub read_from : {F : Type 0} → ObsSnapshot F → PolledMetrics F
read_from s = record {
  stats = s.stats;
  stream_bitrate_kbps = s.stream_bitrate_kbps;
  stream_duration_ms = s.stream_duration_ms;
  record_duration_ms = s.record_duration_ms;
}

unfoldable pub write_into : {F : Type 0} → PolledMetrics F → ObsSnapshot F → ObsSnapshot F
write_into m s = record s {
  stats = m.stats;
  stream_bitrate_kbps = m.stream_bitrate_kbps;
  stream_duration_ms = m.stream_duration_ms;
  record_duration_ms = m.record_duration_ms;
}

-- The configuration's contribution to a snapshot that is already there.
unfoldable pub merge_scene : ConfigProjection → SceneState → SceneState
merge_scene projection scene =
    apply_scene_config (scene_config projection scene.name) projection.visibility scene

unfoldable pub merge_input : {F : Type 0} → ConfigProjection → AudioState F → AudioState F
merge_input projection input = apply_audio_config (audio_config projection input.name) input

module _ {F J : Type 0} (f : Floats F) (w : Wire F J) where
  -- A snapshot that cannot be serialized is not published.
  unfoldable pub broadcast : ObsSnapshot F → Hub J → Hub J
  broadcast snapshot hub = elim (w.snapshot_value snapshot) [
    | ok value ↦ publish state (event state value) hub
    | err e ↦ hub
  ]

  -- The lock's content becomes `snapshot`, is counted as a change, and is published.
  unfoldable pub commit : ObsSnapshot F → StateStore F J → StateStore F J
  commit snapshot store = record {
    inner = snapshot;
    hub = broadcast snapshot store.hub;
    generation = (store.generation + 1) % generation_mod;
  }

  unfoldable pub seed_for_tests : ObsSnapshot F → StateStore F J → StateStore F J
  seed_for_tests snapshot store = commit snapshot store

  -- The counter is read here with the swap; the code reads it right after it has released the lock.
  unfoldable pub apply_full_refresh :
      RefreshedObsState F → ConfigProjection → ℕ → ℕ → StateStore F J → StateStore F J × Bool
  apply_full_refresh refreshed projection generation_before now store =
      let snapshot =
        write_into (read_from store.inner) (build_snapshot f refreshed projection now) in
      (
        record store { inner = snapshot; hub = broadcast snapshot store.hub },
        not (store.generation == generation_before),
      )

  unfoldable pub mark_connected : ObsVersions → Option Text → ℕ → StateStore F J → StateStore F J
  mark_connected versions error now store =
      commit
        (record inner {
          connected = true;
          obs_studio_version = some versions.studio;
          obs_websocket_version = some versions.websocket;
          last_error = error;
          updated_at = now;
        })
        store
    where
      open store use {inner}

  unfoldable pub mark_disconnected : Option Text → ℕ → StateStore F J → StateStore F J
  mark_disconnected error now store =
      commit (record inner { connected = false; last_error = error; updated_at = now }) store
    where
      open store use {inner}

  unfoldable pub apply_event : ObsEvent F J → ℕ → StateStore F J → StateStore F J
  apply_event e now store =
      let (snapshot, changed) = apply_to_snapshot f now store.inner e in
      if changed then commit snapshot store else record store { inner = snapshot }

  unfoldable pub update_stats : PolledMetrics F → ℕ → StateStore F J → StateStore F J
  update_stats metrics now store =
      let written = write_into metrics store.inner in
      let snapshot = record written { updated_at = now } in
      record store { inner = snapshot; hub = broadcast snapshot store.hub }

  unfoldable pub merge_config : ConfigProjection → ℕ → StateStore F J → StateStore F J
  merge_config projection now store =
      commit
        (record inner {
          scenes = map (merge_scene projection) inner.scenes;
          audio_inputs = map (merge_input projection) inner.audio_inputs;
          scene_profiles = projection.scene_profiles;
          active_scene_profile = projection.active_scene_profile;
          updated_at = now;
        })
        store
    where
      open store use {inner}
