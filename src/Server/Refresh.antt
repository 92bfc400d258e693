-- ===== src/Server/Refresh.antt =====
-- src/server/snapshot_refresh.rs: fetching the whole state of OBS, and the two tasks that share a
-- connection. What OBS answers, and what else is written to the store while a fetch runs, come from
-- outside: they are values of `Fetch`.
pub mod Current
pub mod Race
pub mod Sound
pub mod Tests
use obsctl_rs.Prelude.{
  ℕ, zero, suc, Bool, true, false, ◌||◌, Option, none, some, List, Result, ok, err, if◌then◌else◌,
}
use obsctl_rs.Text.{Text}
use obsctl_rs.Errors.{ObsctlError}
use obsctl_rs.Volume.{Floats}
use obsctl_rs.Obs.{ObsEvent}
use obsctl_rs.Server.Adapter.{
  needs_full_refresh, normalize, describe, fetch_gave_up, refresh_failed,
}
use obsctl_rs.Server.Hub.{Hub, Wire, publish_obs_event, publish_log}
use obsctl_rs.Server.Projection.{ConfigProjection, RefreshedObsState}
use obsctl_rs.Server.Store.{StateStore, apply_full_refresh, apply_event}
use obsctl_rs.Server.Store.Steps.{Write, run}

-- One fetch: the writes that land while it runs, what OBS answered, the configuration that was read
-- after it, and the time.
pub record Fetch (F J : Type 0) : Type 0 where
  pub during : List (ℕ × Write F J)
  pub fetched : Result ObsctlError (RefreshedObsState F)
  pub projection : ConfigProjection
  pub now : ℕ

abbrev pub max_refresh_retries : ℕ
max_refresh_retries = 3

module _ {F J : Type 0} (f : Floats F) (w : Wire F J) where
  -- The store that the fetch leaves, and whether what it published is known to be behind.
  unfoldable pub refresh_once :
      Fetch F J → StateStore F J → StateStore F J × Result ObsctlError Bool
  refresh_once fetch store =
      let generation_before = store.generation in
      let store' = run f w fetch.during store in
      elim fetch.fetched [
        | err e ↦ (store', err e)
        | ok refreshed ↦
            let (store'', behind) =
              apply_full_refresh f w refreshed fetch.projection generation_before fetch.now
                store' in
            (store'', ok behind)
      ]

  -- The loop: whether an attempt was not behind, out of so many.
  unfoldable pub refresh_attempts :
      ℕ → (ℕ → Fetch F J) → StateStore F J → StateStore F J × Result ObsctlError Bool
  refresh_attempts zero fetches store = (store, ok false)
  refresh_attempts (suc n) fetches store =
      let (store', outcome) = refresh_once (fetches 0) store in
      let rest = refresh_attempts n (λ i. fetches (suc i)) store' in
      elim outcome [
        | err e ↦ (store', err e)
        | ok behind ↦ if behind then rest else (store', ok true)
      ]

  -- `target` names the module in the log.
  unfoldable pub refresh_until_current :
      Text → (ℕ → Fetch F J) → StateStore F J → StateStore F J × Result ObsctlError (Unit {0})
  refresh_until_current target fetches store =
      let (store', outcome) = refresh_attempts max_refresh_retries fetches store in
      elim outcome [
        | err e ↦ (store', err e)
        | ok current ↦ (
          (if current then store' else record store' {
            hub = publish_log w target (fetch_gave_up max_refresh_retries) store'.hub;
          }),
          ok tt,
        )
      ]

  -- What the two tasks of a connection share: the store, and the channel of capacity 1.
  pub record Link : Type 0 where
    pub store : StateStore F J
    pub nudged : Bool

  -- `log_obs_event`.
  unfoldable pub log_obs_event : ObsEvent F J → Hub J → Text → Hub J
  log_obs_event event hub target = elim (describe f event) [
    | none ↦ hub
    | some line ↦ publish_log w target line hub
  ]

  unfoldable pub publish_normalized : ObsEvent F J → Hub J → Hub J
  publish_normalized event hub = elim (normalize event) [
    | none ↦ hub
    | some payload ↦ publish_obs_event w payload hub
  ]

  -- One turn of the event pump.
  unfoldable pub pump_event : Text → ℕ → ObsEvent F J → Link → Link
  pump_event target now event link =
      let logged = record store { hub = log_obs_event event store.hub target } in
      let applied = apply_event f w event now logged in
      record {
        store = record applied { hub = publish_normalized event applied.hub };
        nudged = nudged || needs_full_refresh event;
      }
    where
      open link use {store, nudged}

  -- One turn of the refresh worker, which takes the nudge before the fetch. While the fetch runs the
  -- pump may nudge again; a fetch that is behind nudges too, unless the pump has let the channel go.
  unfoldable pub worker_turn : Text → Bool → Bool → Fetch F J → Link → Link
  worker_turn target nudged_meanwhile pump_alive fetch link =
      if link.nudged
      then (let (store', outcome) = refresh_once fetch link.store in
          elim outcome [
            | ok behind ↦ record {
              store = store';
              nudged = nudged_meanwhile || (if pump_alive then behind else false);
            }
            | err e ↦ record {
              store = record store' { hub = publish_log w target (refresh_failed e) store'.hub };
              nudged = nudged_meanwhile;
            }
          ])
      else link
