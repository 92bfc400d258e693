-- ===== src/Server/Store/Tests.antt =====
-- The theorems about the store at a small store: `f64` is instantiated by ℕ, a JSON value by the time
-- stamp of the snapshot.
use obsctl_rs.Prelude.{
  ◌+◌, ◌*◌, ◌^◌, leb, if◌then◌else◌, ℕ, ◌≡◌, refl, true, false, none, some, List, [], ◌∷◌, ok,
  arith, ltb, find, any, All,
}
use obsctl_rs.Text.{text}
use obsctl_rs.Volume.{Floats, mul_to_percent}
use obsctl_rs.Obs.{
  AudioState, ObsSnapshot, ObsEvent, default_snapshot, set_level_with_db,
  current_program_scene_changed, scene_list_changed, input_volume_changed,
}
use obsctl_rs.Server.Hub.{Wire, new_hub}
use obsctl_rs.Server.Projection.{ConfigProjection, ObsVersions, RefreshedObsState, build_snapshot}
use obsctl_rs.Server.Apply.{mutate_snapshot, program_scene_changed, set_if_changed, has_name}
use obsctl_rs.Server.Apply.Changes.{mutate_snapshot-false, volume_restated}
use obsctl_rs.Server.Store.{StateStore, apply_full_refresh, read_from, write_into}
use obsctl_rs.Server.Store.Steps.{
  Write, refreshes, connects, disconnects, receives, polls, step, run, commits,
}
use obsctl_rs.Server.Store.Generation.{count_commits, apply_full_refresh-stale}
use obsctl_rs.Server.Store.Metrics.{polled, read_from-run}
use obsctl_rs.Server.Store.InSync.{CanSerialize, InSync, publishes, run-InSync, step-InSync}
use obsctl_rs.Server.Store.Consistent.{
  IsConsistent, IsWellFetched, fetched_names, default_snapshot-IsConsistent, run-IsConsistent,
}
use obsctl_rs.Server.Store.Status.{status_of, follow, status_of-run}
use obsctl_rs.Server.Store.Projected.{AreProjected, UsesProjection, run-AreProjected}

abbrev pub floats : Floats ℕ
floats = record {
  from_integer = λ n. n;
  plus = λ a b. a + b;
  times = λ a b. a * b;
  min = λ a b. if ltb a b then a else b;
  max = λ a b. if ltb a b then b else a;
  to_u64 = λ a. a;
  divided_by = λ a b. a;
  powi = λ a b. a ^ b;
  sqrt = λ a. a;
  log10 = λ a. a;
  round = λ a. a;
  clamp = λ a lo hi. a;
  to_u8 = λ a. a;
  le = leb;
  lt = λ a b. false;
  is_finite = λ a. true;
  neg_infinity = 0;
}

abbrev pub wire : Wire ℕ ℕ
wire = record {
  snapshot_value = λ s. ok s.updated_at;
  payload_value = λ p. ok 0;
  log_value = λ target line. ok 0;
  error_value = λ label error. 0;
}

wire-CanSerialize : CanSerialize floats wire
wire-CanSerialize = record { value = λ s. s.updated_at; is_value = λ s. refl }

abbrev pub fresh : StateStore ℕ ℕ
fresh = record { inner = default_snapshot 0; hub = new_hub; generation = 0 }

abbrev pub projection : ConfigProjection
projection = record {
  scenes = [];
  audio_inputs = [];
  visibility = record { hidden = [] };
  scene_profiles = [];
  active_scene_profile = none;
}

abbrev pub versions : ObsVersions
versions = record { studio = text "30"; websocket = text "5" }

abbrev pub refreshed : RefreshedObsState ℕ
refreshed = record {
  versions = versions;
  scenes = record { names = text "Main" ∷ text "BRB" ∷ []; current = text "Main" };
  inputs =
      record { name = text "Mic"; muted = some false; volume_mul = some 1 }
      ∷ record { name = text "Desk"; muted = none; volume_mul = none }
      ∷ [];
  profiles = record { names = []; current = [] };
  collections = record { names = []; current = [] };
  outputs = record { streaming = false; recording = false };
}

abbrev pub switch_scene : ObsEvent ℕ ℕ
switch_scene = current_program_scene_changed (text "BRB")

-- The daemon connects, refreshes, and hears of a new scene.
abbrev pub calls : List (ℕ × Write ℕ ℕ)
calls =
    (1, connects versions none)
    ∷ (2, refreshes refreshed projection 1)
    ∷ (3, receives switch_scene)
    ∷ (4, receives scene_list_changed)
    ∷ (
      5,
      polls (record {
        stats = none;
        stream_bitrate_kbps = some 6;
        stream_duration_ms = none;
        record_duration_ms = none;
      }),
    )
    ∷ []

-- The connect and the event count, the refresh, the list event and the poll do not.
counted : count_commits floats wire calls fresh ≡ 2
unfolding count_commits commits step mutate_snapshot program_scene_changed set_if_changed
    apply_full_refresh write_into build_snapshot text
counted = refl

apply_full_refresh-stale_example :
    (apply_full_refresh floats wire refreshed projection 0 9 (run floats wire calls fresh)).1
    ≡ ltb 0 (count_commits floats wire calls fresh)
apply_full_refresh-stale_example =
    apply_full_refresh-stale floats wire fresh calls refreshed projection 9 (omega arith)
      (rw counted (omega arith))

read_from-run_example :
    read_from (run floats wire calls fresh).inner ≡ polled floats wire (read_from fresh.inner) calls
read_from-run_example = read_from-run floats wire calls fresh

polled-at_once : InSync floats wire (step floats wire (7, disconnects none) fresh)
polled-at_once =
    step-InSync floats wire wire-CanSerialize 7 (disconnects none) fresh (unfold publishes in refl)

run-InSync_example :
    InSync floats wire (run floats wire calls (step floats wire (7, disconnects none) fresh))
run-InSync_example =
    run-InSync floats wire wire-CanSerialize calls (step floats wire (7, disconnects none) fresh)
      polled-at_once

run-IsConsistent_example : IsConsistent (run floats wire calls fresh).inner
unfolding IsWellFetched fetched_names any text
run-IsConsistent_example =
    run-IsConsistent floats wire calls fresh (tt, ((refl, (refl, tt)), (tt, (tt, (tt, tt)))))
      (default_snapshot-IsConsistent ℕ 0)

abbrev mic : AudioState ℕ
mic = record {
  name = text "Mic";
  alias = none;
  shortcut = none;
  kind = none;
  muted = none;
  volume_mul = some 3;
  volume_db = some 4;
  volume_percent = some 300;
}

abbrev with_mic : ObsSnapshot ℕ
with_mic = record (default_snapshot 0) { audio_inputs = mic ∷ [] }

volume_restated_example :
    mutate_snapshot floats {J = ℕ} with_mic (input_volume_changed (text "Mic") 3 4)
    ≡ (with_mic, true)
unfolding find has_name text set_level_with_db mul_to_percent
volume_restated_example = volume_restated floats ℕ with_mic (text "Mic") 3 4 mic refl refl

list_event-quiet : (mutate_snapshot floats {J = ℕ} with_mic scene_list_changed).1 ≡ false
unfolding mutate_snapshot
list_event-quiet = refl

mutate_snapshot-false_example :
    (mutate_snapshot floats {J = ℕ} with_mic scene_list_changed).0 ≡ with_mic
mutate_snapshot-false_example =
    mutate_snapshot-false floats with_mic scene_list_changed list_event-quiet

calls-UsesProjection : All (λ c. UsesProjection floats wire projection c.1) calls
unfolding UsesProjection
calls-UsesProjection = (tt, (refl, (tt, (tt, (tt, tt)))))

run-AreProjected_example : AreProjected projection (run floats wire calls fresh).inner.scenes
unfolding default_snapshot
run-AreProjected_example =
    run-AreProjected floats wire projection calls fresh calls-UsesProjection tt

status_of-run_example :
    status_of (run floats wire calls fresh).inner ≡ follow (status_of fresh.inner) calls
status_of-run_example = status_of-run floats wire calls fresh
