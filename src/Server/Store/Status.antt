-- ===== src/Server/Store/Status.antt =====
-- src/server/state_store.rs: the connection's fields of the snapshot, and a machine that specifies
-- them.
use obsctl_rs.Prelude.{
  ℕ, ◌≡◌, refl, ap, ◌∙◌, Bool, true, false, Option, none, some, List, [], ◌∷◌, arith, Bool-cases,
  inl, inr,
}
use obsctl_rs.Text.{Text}
use obsctl_rs.Volume.{Floats}
use obsctl_rs.Obs.{
  ObsSnapshot, ObsEvent, current_program_scene_changed, input_created, default_snapshot,
}
use obsctl_rs.Server.Hub.{Wire}
use obsctl_rs.Server.Projection.{ObsVersions, build_snapshot}
use obsctl_rs.Server.Apply.{
  apply_to_snapshot, mutate_snapshot, program_scene_changed, add_input, remove_input,
  input_mute_changed, volume_changed,
}
use obsctl_rs.Server.Store.{
  StateStore, write_into, commit, apply_full_refresh, mark_connected, mark_disconnected,
  apply_event, update_stats, merge_config,
}
use obsctl_rs.Server.Store.Steps.{
  Write, refreshes, connects, disconnects, receives, polls, merges, step, run,
}

-- The state of the connection, its last error, and the versions that OBS gave.
pub record Status : Type 0 where
  pub connected : Bool
  pub last_error : Option Text
  pub studio : Option Text
  pub websocket : Option Text

unfoldable pub status_of : {F : Type 0} → ObsSnapshot F → Status
status_of s = record {
  connected = s.connected;
  last_error = s.last_error;
  studio = s.obs_studio_version;
  websocket = s.obs_websocket_version;
}

-- The connection comes up, by a refresh or by its mark, or goes down.
unfoldable pub up : ObsVersions → Option Text → Status
up versions error = record {
  connected = true;
  last_error = error;
  studio = some versions.studio;
  websocket = some versions.websocket;
}

unfoldable pub down : Option Text → Status → Status
down error status = record status { connected = false; last_error = error }

-- The machine: no other write is an input of it.
unfoldable pub follow : {F J : Type 0} → Status → List (ℕ × Write F J) → Status
follow status [] = status
follow status ((now, refreshes refreshed p g) ∷ calls) = follow (up refreshed.versions none) calls
follow status ((now, connects versions error) ∷ calls) = follow (up versions error) calls
follow status ((now, disconnects error) ∷ calls) = follow (down error status) calls
follow status ((now, receives e) ∷ calls) = follow status calls
follow status ((now, polls m) ∷ calls) = follow status calls
follow status ((now, merges p) ∷ calls) = follow status calls

module _ {F J : Type 0} (f : Floats F) (w : Wire F J) where
  status_of-mutate :
      (s : ObsSnapshot F) (e : ObsEvent F J) → status_of (mutate_snapshot f s e).0 ≡ status_of s
  unfolding status_of mutate_snapshot program_scene_changed add_input remove_input
      input_mute_changed volume_changed
  status_of-mutate s (current_program_scene_changed n) = ground arith
  status_of-mutate s (input_created n) = ground arith
  status_of-mutate s _ = refl

  status_of-receives :
      (now : ℕ) (e : ObsEvent F J) (store : StateStore F J)
      → status_of (apply_event f w e now store).inner ≡ status_of store.inner
  unfolding apply_event apply_to_snapshot commit
  status_of-receives now e store = elim (Bool-cases (mutate_snapshot f store.inner e).1) [
    | inl changed ↦ rw changed (unfold status_of in status_of-mutate store.inner e)
    | inr same ↦ rw same (status_of-mutate store.inner e)
  ]

  -- The connection's state, its last error and the versions in the snapshot follow a machine whose
  -- inputs are the refreshes, the connects and the disconnects alone: after every sequence of
  -- writes to the store they are what the machine says.
  pub status_of-run :
      (calls : List (ℕ × Write F J)) (store : StateStore F J)
      → status_of (run f w calls store).inner ≡ follow (status_of store.inner) calls
  unfolding run step follow up down status_of commit apply_full_refresh mark_connected
      mark_disconnected update_stats merge_config write_into build_snapshot default_snapshot
  status_of-run [] store = refl
  status_of-run ((now, receives e) ∷ calls) store =
      status_of-run calls (apply_event f w e now store)
      ∙ ap (λ s. follow s calls) (status_of-receives now e store)
  status_of-run ((now, refreshes r p g) ∷ calls) store =
      status_of-run calls (apply_full_refresh f w r p g now store).0
  status_of-run ((now, connects v e) ∷ calls) store =
      status_of-run calls (mark_connected f w v e now store)
  status_of-run ((now, disconnects e) ∷ calls) store =
      status_of-run calls (mark_disconnected f w e now store)
  status_of-run (c ∷ calls) store = status_of-run calls (step f w c store)
