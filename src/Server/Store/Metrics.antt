-- ===== src/Server/Store/Metrics.antt =====
-- src/server/state_store.rs: `PolledMetrics` over a run of writes.
use obsctl_rs.Prelude.{ℕ, ◌≡◌, refl, ap, List, [], ◌∷◌, arith, ◌∙◌, Bool-cases, inl, inr}
use obsctl_rs.Volume.{Floats}
use obsctl_rs.Obs.{ObsSnapshot, ObsEvent, current_program_scene_changed, input_created}
use obsctl_rs.Server.Hub.{Wire}
use obsctl_rs.Server.Apply.{
  apply_to_snapshot, mutate_snapshot, program_scene_changed, add_input, remove_input,
  input_mute_changed, volume_changed,
}
use obsctl_rs.Server.Store.{
  StateStore, PolledMetrics, read_from, write_into, commit, apply_full_refresh, mark_connected,
  mark_disconnected, apply_event, update_stats, merge_config,
}
use obsctl_rs.Server.Store.Steps.{
  Write, refreshes, connects, disconnects, receives, polls, merges, step, run,
}

module _ {F J : Type 0} (f : Floats F) (w : Wire F J) where
  read_from-mutate :
      (s : ObsSnapshot F) (e : ObsEvent F J) → read_from (mutate_snapshot f s e).0 ≡ read_from s
  unfolding read_from mutate_snapshot program_scene_changed add_input remove_input
      input_mute_changed volume_changed
  read_from-mutate s (current_program_scene_changed n) = ground arith
  read_from-mutate s (input_created n) = ground arith
  read_from-mutate s _ = refl

  -- The metrics after a call: what the poller last wrote.
  unfoldable pub polled : PolledMetrics F → List (ℕ × Write F J) → PolledMetrics F
  polled m [] = m
  polled m ((now, polls m') ∷ calls) = polled m' calls
  polled m ((now, refreshes r p g) ∷ calls) = polled m calls
  polled m ((now, connects v e) ∷ calls) = polled m calls
  polled m ((now, disconnects e) ∷ calls) = polled m calls
  polled m ((now, receives e) ∷ calls) = polled m calls
  polled m ((now, merges p) ∷ calls) = polled m calls

  read_from-receives :
      (now : ℕ) (e : ObsEvent F J) (store : StateStore F J)
      → read_from (apply_event f w e now store).inner ≡ read_from store.inner
  unfolding apply_event apply_to_snapshot commit
  read_from-receives now e store = elim (Bool-cases (mutate_snapshot f store.inner e).1) [
    | inl changed ↦ rw changed (unfold read_from in read_from-mutate store.inner e)
    | inr same ↦ rw same (read_from-mutate store.inner e)
  ]

  -- After every sequence of writes to the store, the poller's fields of the snapshot are those that
  -- the poller wrote last, or the first ones if it wrote none.
  pub read_from-run :
      (calls : List (ℕ × Write F J)) (store : StateStore F J)
      → read_from (run f w calls store).inner ≡ polled (read_from store.inner) calls
  unfolding run step polled commit apply_full_refresh mark_connected mark_disconnected update_stats
      merge_config read_from write_into
  read_from-run [] store = refl
  read_from-run ((now, receives e) ∷ calls) store =
      read_from-run calls (apply_event f w e now store)
      ∙ ap (λ m. polled m calls) (read_from-receives now e store)
  read_from-run ((now, polls m) ∷ calls) store = read_from-run calls (update_stats f w m now store)
  read_from-run (c ∷ calls) store = read_from-run calls (step f w c store)
