-- ===== src/Server/Refresh/Sound.antt =====
-- src/server/snapshot_refresh.rs: the snapshot under refreshes that fetch what OBS answers.
use obsctl_rs.Prelude.{
  ℕ, zero, suc, ◌≡◌, sym, ◌∙◌, [], ◌∷◌, Result, ok, All, Bool-cases, Result-cases, inl, inr,
}
use obsctl_rs.Errors.{ObsctlError}
use obsctl_rs.Volume.{Floats}
use obsctl_rs.Server.Hub.{Wire}
use obsctl_rs.Server.Projection.{ObsVersions, RefreshedObsState}
use obsctl_rs.Server.Store.{StateStore}
use obsctl_rs.Server.Store.Steps.{refreshes, step, run}
use obsctl_rs.Server.Store.Rows.{IsDistinct}
use obsctl_rs.Server.Store.Consistent.{IsConsistent, IsWellFetched, fetched_names, run-IsConsistent}
use obsctl_rs.Obs.Requests.{RequestData}
use obsctl_rs.Server.Fetch.{Json, fetch_state}
use obsctl_rs.Server.Fetch.Distinct.{fetch_state-AreNames}
use obsctl_rs.Server.Refresh.{Fetch, refresh_once, refresh_attempts}
use obsctl_rs.Server.Refresh.Current.{refresh_once-eq_ok, refresh_once-eq_err}

module _ {F J : Type 0} (f : Floats F) (w : Wire F J) where
  -- What was fetched has distinct inputs, and so has every refresh that overlapped.
  abbrev pub IsSound : Fetch F J → Type 0
  IsSound fetch =
      All (λ c. IsWellFetched f w c.1) fetch.during
      × ((r : RefreshedObsState F) → fetch.fetched ≡ ok r → IsDistinct (fetched_names r))

  refresh_once-IsConsistent :
      (fetch : Fetch F J) (store : StateStore F J)
      → IsSound fetch
      → IsConsistent store.inner
      → IsConsistent (refresh_once f w fetch store).0.inner
  unfolding run step IsWellFetched
  refresh_once-IsConsistent fetch store sound h =
      let before = run-IsConsistent f w fetch.during store sound.0 h in
      elim (Result-cases fetch.fetched) [
        | inr (e, bad) ↦ rw (refresh_once-eq_err f w fetch store e bad) before
        | inl (r, good) ↦ rw (refresh_once-eq_ok f w fetch store r good) (
            run-IsConsistent f w ((fetch.now, refreshes r fetch.projection store.generation) ∷ [])
              (run f w fetch.during store) (sound.1 r good, tt) before)
      ]

  refresh_attempts-IsConsistent :
      (n : ℕ) (fetches : ℕ → Fetch F J) (store : StateStore F J)
      → ((i : ℕ) → IsSound (fetches i))
      → IsConsistent store.inner
      → IsConsistent (refresh_attempts f w n fetches store).0.inner
  unfolding refresh_attempts
  refresh_attempts-IsConsistent zero fetches store sound h = h
  refresh_attempts-IsConsistent (suc n) fetches store sound h =
      let after = refresh_once-IsConsistent (fetches 0) store (sound 0) h in
      let later =
        refresh_attempts-IsConsistent n (λ i. fetches (suc i))
          (refresh_once f w (fetches 0) store).0 (λ i. sound (suc i)) after in
      elim (Result-cases (refresh_once f w (fetches 0) store).1) [
        | inr (e, bad) ↦ rw (bad, refresh_attempts) after
        | inl (b, good) ↦ elim (Bool-cases b) [
          | inl behind ↦ rw (good, behind, refresh_attempts) later
          | inr current ↦ rw (good, current, refresh_attempts) after
        ]
      ]

  -- If each attempt at a refresh fetches from OBS, whatever OBS answers, and each refresh among the
  -- writes during it fetched inputs of different names, then the attempts lead from a snapshot
  -- whose scenes are flagged active exactly when they are the current scene and whose audio inputs
  -- have different names to such a snapshot.
  pub refresh_attempts-fetch_state :
      {K : Type 0} (json : Json F K) (request : ℕ → RequestData F → Result ObsctlError K)
      (versions : ObsVersions) (n : ℕ) (fetches : ℕ → Fetch F J) (store : StateStore F J)
      → ((i : ℕ) → (fetches i).fetched ≡ fetch_state json f (request i) versions)
      → ((i : ℕ) → All (λ c. IsWellFetched f w c.1) (fetches i).during)
      → IsConsistent store.inner
      → IsConsistent (refresh_attempts f w n fetches store).0.inner
  refresh_attempts-fetch_state json request versions n fetches store source overlap h =
      refresh_attempts-IsConsistent n fetches store
        (λ i. (
          overlap i,
          λ r good.
              (fetch_state-AreNames json f (request i) versions r (sym (source i) ∙ good)).distinct,
        ))
        h
