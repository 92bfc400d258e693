-- ===== src/Server/Store/Steps.antt =====
-- src/server/state_store.rs: the calls that the running daemon makes on the store, in any order.
use obsctl_rs.Prelude.{ℕ, Bool, true, false, Option, List, [], ◌∷◌}
use obsctl_rs.Text.{Text}
use obsctl_rs.Volume.{Floats}
use obsctl_rs.Obs.{ObsEvent}
use obsctl_rs.Server.Hub.{Wire}
use obsctl_rs.Server.Projection.{ConfigProjection, ObsVersions, RefreshedObsState}
use obsctl_rs.Server.Apply.{mutate_snapshot}
use obsctl_rs.Server.Store.{
  StateStore, PolledMetrics, apply_full_refresh, mark_connected, mark_disconnected, apply_event,
  update_stats, merge_config,
}

-- One call of an operation of `StateStore`; a refresh comes with the generation that it began at.
pub data Write (F J : Type 0) : Type 0 where
  refreshes : RefreshedObsState F → ConfigProjection → ℕ → Write F J
  connects : ObsVersions → Option Text → Write F J
  disconnects : Option Text → Write F J
  receives : ObsEvent F J → Write F J
  polls : PolledMetrics F → Write F J
  merges : ConfigProjection → Write F J

module _ {F J : Type 0} (f : Floats F) (w : Wire F J) where
  -- A call at a time.
  unfoldable pub step : ℕ × Write F J → StateStore F J → StateStore F J
  step (now, refreshes refreshed projection before) store =
      (apply_full_refresh f w refreshed projection before now store).0
  step (now, connects versions error) store = mark_connected f w versions error now store
  step (now, disconnects error) store = mark_disconnected f w error now store
  step (now, receives e) store = apply_event f w e now store
  step (now, polls metrics) store = update_stats f w metrics now store
  step (now, merges projection) store = merge_config f w projection now store

  unfoldable pub run : List (ℕ × Write F J) → StateStore F J → StateStore F J
  run [] store = store
  run (c ∷ calls) store = run calls (step c store)

  -- Whether the call changes the snapshot in a way that a refresh can undo.
  unfoldable pub commits : Write F J → StateStore F J → Bool
  commits (refreshes refreshed projection before) store = false
  commits (connects versions error) store = true
  commits (disconnects error) store = true
  commits (receives e) store = (mutate_snapshot f store.inner e).1
  commits (polls metrics) store = false
  commits (merges projection) store = true
