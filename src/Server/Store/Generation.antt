-- ===== src/Server/Store/Generation.antt =====
-- src/server/state_store.rs: the generation counter over a run of writes, as `apply_full_refresh`
-- reads it.
use obsctl_rs.Prelude.{
  ℕ, ◌+◌, ◌%◌, ◌<◌, ◌≡◌, refl, List, [], ◌∷◌, ltb, nat_eq, arith, if◌then◌else◌,
}
use obsctl_rs.Volume.{Floats}
use obsctl_rs.Server.Hub.{Wire}
use obsctl_rs.Server.Projection.{ConfigProjection, RefreshedObsState}
use obsctl_rs.Server.Apply.{apply_to_snapshot}
use obsctl_rs.Server.Store.{
  StateStore, generation_mod, commit, apply_full_refresh, mark_connected, mark_disconnected,
  apply_event, update_stats, merge_config,
}
use obsctl_rs.Server.Store.Steps.{
  Write, refreshes, connects, disconnects, receives, polls, merges, step, run, commits,
}

module _ {F J : Type 0} (f : Floats F) (w : Wire F J) where
  -- How many of the calls change the snapshot in a way that a refresh can undo.
  unfoldable pub count_commits : List (ℕ × Write F J) → StateStore F J → ℕ
  count_commits [] store = 0
  count_commits (c ∷ calls) store =
      (if commits f w c.1 store then 1 else 0) + count_commits calls (step f w c store)

  generation-step :
      (c : ℕ × Write F J) (store : StateStore F J)
      → (step f w c store).generation ≡ (
          if commits f w c.1 store
          then (store.generation + 1) % generation_mod
          else store.generation)
  unfolding step commits commit apply_full_refresh mark_connected mark_disconnected apply_event
      update_stats merge_config apply_to_snapshot
  generation-step (now, refreshes r p g) store = refl
  generation-step (now, connects v e) store = refl
  generation-step (now, disconnects e) store = refl
  generation-step (now, receives e) store = ground arith
  generation-step (now, polls m) store = refl
  generation-step (now, merges p) store = refl

  generation-run :
      (calls : List (ℕ × Write F J)) (store : StateStore F J)
      → store.generation < generation_mod
      → (run f w calls store).generation
        ≡ (store.generation + count_commits calls store) % generation_mod
  unfolding run count_commits
  generation-run [] store h = omega arith
  generation-run (c ∷ calls) store h =
      ground (arith, generation-step c store, generation-run calls (step f w c store))

  pub generation-run_lt :
      (calls : List (ℕ × Write F J)) (store : StateStore F J)
      → store.generation < generation_mod
      → (run f w calls store).generation < generation_mod
  generation-run_lt calls store h = ground (arith, generation-run calls store h)

  -- A refresh that began at the store's generation, with that generation and the number of counted
  -- writes since then below 2^64, answers that it is behind exactly when at least one counted write
  -- happened since.
  pub apply_full_refresh-stale :
      (store : StateStore F J) (calls : List (ℕ × Write F J)) (refreshed : RefreshedObsState F)
      (projection : ConfigProjection) (now : ℕ)
      → store.generation < generation_mod
      → count_commits calls store < generation_mod
      → (apply_full_refresh f w refreshed projection store.generation now (run f w calls store)).1
        ≡ ltb 0 (count_commits calls store)
  unfolding apply_full_refresh
  apply_full_refresh-stale store calls refreshed projection now h k =
      ground (arith, generation-run calls store h)
