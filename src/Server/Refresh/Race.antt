-- ===== src/Server/Refresh/Race.antt =====
-- src/server/snapshot_refresh.rs: a fetch that ends after the connection was marked as lost.
use obsctl_rs.Prelude.{
  ℕ, ◌<◌, ◌≡◌, refl, ap, ◌∙◌, true, false, Option, List, [], ◌∷◌, ok, err, length, ltb, arith,
}
use obsctl_rs.Text.{Text}
use obsctl_rs.Errors.{ObsctlError}
use obsctl_rs.Volume.{Floats}
use obsctl_rs.Server.Hub.{Wire}
use obsctl_rs.Server.Projection.{RefreshedObsState, build_snapshot}
use obsctl_rs.Server.Store.{
  StateStore, generation_mod, commit, apply_full_refresh, write_into, mark_disconnected,
}
use obsctl_rs.Server.Store.Steps.{Write, disconnects, run, commits}
use obsctl_rs.Server.Store.Generation.{count_commits}
use obsctl_rs.Server.Refresh.{Fetch, refresh_once}
use obsctl_rs.Server.Refresh.Current.{refresh_once-eq_ok, refresh_once-eq_err, refresh_once-behind}

module _ {F J : Type 0} (f : Floats F) (w : Wire F J) where
  refresh_once-connected :
      (fetch : Fetch F J) (store : StateStore F J) (r : RefreshedObsState F)
      → fetch.fetched ≡ ok r
      → (refresh_once f w fetch store).0.inner.connected ≡ true
  unfolding apply_full_refresh write_into build_snapshot
  refresh_once-connected fetch store r answered =
      ap (λ p. p.0.inner.connected) (refresh_once-eq_ok f w fetch store r answered)

  refresh_once-failed :
      (fetch : Fetch F J) (store : StateStore F J) (e : ObsctlError)
      → fetch.during ≡ []
      → fetch.fetched ≡ err e
      → (refresh_once f w fetch store).0 ≡ store
  unfolding run
  refresh_once-failed fetch store e idle failed =
      ap (λ p. p.0) (refresh_once-eq_err f w fetch store e failed)
      ∙ ap (λ calls. run f w calls store) idle

  disconnects-counted :
      (calls : List (ℕ × Write F J)) (at : ℕ) (reason : Option Text) (store : StateStore F J)
      → calls ≡ (at, disconnects reason) ∷ []
      → (length calls < generation_mod) × (ltb 0 (count_commits f w calls store) ≡ true)
  unfolding count_commits commits
  disconnects-counted calls at reason store lost = rw lost (omega arith, refl)

  -- From a generation within range: when the connection is marked as lost during a fetch that OBS
  -- answered, which leaves a snapshot that is not connected, the fetch publishes a connected one
  -- and answers that it is behind; and when the next fetch fails with no write during it, the
  -- snapshot is still connected.
  pub refresh_once-disconnected :
      (fetch next : Fetch F J) (store : StateStore F J) (at : ℕ) (reason : Option Text)
      (r : RefreshedObsState F) (e : ObsctlError)
      → store.generation < generation_mod
      → fetch.during ≡ (at, disconnects reason) ∷ []
      → fetch.fetched ≡ ok r
      → next.during ≡ []
      → next.fetched ≡ err e
      → ((mark_disconnected f w reason at store).inner.connected ≡ false)
        × ((refresh_once f w fetch store).0.inner.connected ≡ true)
        × ((refresh_once f w fetch store).1 ≡ ok true)
        × ((refresh_once f w next (refresh_once f w fetch store).0).0.inner.connected ≡ true)
  unfolding mark_disconnected commit
  refresh_once-disconnected fetch next store at reason r e h lost answered idle failed =
      let (room, counted) = disconnects-counted fetch.during at reason store lost in
      let published = refresh_once-connected fetch store r answered in
      (
        refl,
        published,
        refresh_once-behind f w fetch store r true answered room h counted,
        ap (λ s. s.inner.connected)
              (refresh_once-failed next (refresh_once f w fetch store).0 e idle failed)
            ∙ published,
      )
