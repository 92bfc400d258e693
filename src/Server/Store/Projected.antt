-- ===== src/Server/Store/Projected.antt =====
-- src/server/state_store.rs: the configuration's part of a snapshot's scenes over a run of writes.
use obsctl_rs.Prelude.{
  and_then, ℕ, ◌≡◌, refl, sym, subst, some, List, [], ◌∷◌, map, any, All, Bool-cases, inl, inr,
  ◌==◌, nat_eq, list_eq, option_eq,
}
use obsctl_rs.Text.{Text}
use obsctl_rs.Volume.{Floats}
use obsctl_rs.Visibility.{is_hidden}
use obsctl_rs.Obs.{SceneState, ObsSnapshot, ObsEvent, current_program_scene_changed, input_created}
use obsctl_rs.Server.Hub.{Wire}
use obsctl_rs.Server.Projection.{
  ConfigProjection, build_scene, build_snapshot, apply_scene_config, scene_config,
}
use obsctl_rs.Server.Apply.{
  apply_to_snapshot, mutate_snapshot, set_if_changed, mark_active, program_scene_changed, add_input,
  remove_input, input_mute_changed, volume_changed, has_name,
}
use obsctl_rs.Server.Store.{
  StateStore, write_into, commit, merge_scene, apply_full_refresh, mark_connected,
  mark_disconnected, apply_event, update_stats, merge_config,
}
use obsctl_rs.Server.Store.Steps.{Write, refreshes, receives, merges, step, run}

-- The scene's alias, shortcut and group are the configuration's, and it is hidden when the
-- configuration hides it.
pub record IsProjected (p : ConfigProjection) (s : SceneState) : Type 0 where
  pub alias : s.alias ≡ and_then (scene_config p s.name) (λ c. c.alias)
  pub shortcut : s.shortcut ≡ and_then (scene_config p s.name) (λ c. c.shortcut)
  pub group : s.group ≡ and_then (scene_config p s.name) (λ c. c.group)
  pub hidden : s.hidden ≡ is_hidden p.visibility s.name

abbrev pub AreProjected : ConfigProjection → List SceneState → Type 0
AreProjected p = All (IsProjected p)

AreProjected-mark_active :
    (p : ConfigProjection) (n : Text) (xs : List SceneState)
    → AreProjected p xs
    → AreProjected p (map (mark_active n) xs)
unfolding mark_active
AreProjected-mark_active p n [] h = tt
AreProjected-mark_active p n (x ∷ xs) h = (
  record { alias = h.0.alias; shortcut = h.0.shortcut; group = h.0.group; hidden = h.0.hidden },
  AreProjected-mark_active p n xs h.1,
)

AreProjected-build :
    (p : ConfigProjection) (current : Text) (xs : List Text)
    → AreProjected p (map (build_scene current p) xs)
unfolding build_scene apply_scene_config
AreProjected-build p current [] = tt
AreProjected-build p current (x ∷ xs) = (
  record { alias = refl; shortcut = refl; group = refl; hidden = refl },
  AreProjected-build p current xs,
)

AreProjected-merge :
    (p : ConfigProjection) (xs : List SceneState) → AreProjected p (map (merge_scene p) xs)
unfolding merge_scene apply_scene_config
AreProjected-merge p [] = tt
AreProjected-merge p (x ∷ xs) =
    (record { alias = refl; shortcut = refl; group = refl; hidden = refl }, AreProjected-merge p xs)

module _ {F J : Type 0} (f : Floats F) (w : Wire F J) (p : ConfigProjection) where
  mutate_snapshot-AreProjected :
      (s : ObsSnapshot F) (e : ObsEvent F J)
      → AreProjected p s.scenes
      → AreProjected p (mutate_snapshot f s e).0.scenes
  unfolding mutate_snapshot program_scene_changed set_if_changed add_input remove_input
      input_mute_changed volume_changed
  mutate_snapshot-AreProjected s (current_program_scene_changed n) h =
      elim (Bool-cases (s.current_scene == some n)) [
        | inl same ↦ rw same h
        | inr new ↦ rw new (AreProjected-mark_active p n s.scenes h)
      ]
  mutate_snapshot-AreProjected s (input_created n) h =
      elim (Bool-cases (any (has_name n) s.audio_inputs)) [
        | inl old ↦ rw old h
        | inr new ↦ rw new h
      ]
  mutate_snapshot-AreProjected s _ h = h

  receives-AreProjected :
      (now : ℕ) (e : ObsEvent F J) (store : StateStore F J)
      → AreProjected p store.inner.scenes
      → AreProjected p (apply_event f w e now store).inner.scenes
  unfolding apply_event apply_to_snapshot commit
  receives-AreProjected now e store h = elim (Bool-cases (mutate_snapshot f store.inner e).1) [
    | inl changed ↦ rw changed (mutate_snapshot-AreProjected store.inner e h)
    | inr same ↦ rw same (mutate_snapshot-AreProjected store.inner e h)
  ]

  -- The call uses this configuration, if it uses one.
  unfoldable pub UsesProjection : Write F J → Type 0
  UsesProjection (refreshes refreshed projection before) = projection ≡ p
  UsesProjection (merges projection) = projection ≡ p
  UsesProjection _ = Unit

  step-AreProjected :
      (now : ℕ) (call : Write F J) (store : StateStore F J)
      → UsesProjection call
      → AreProjected p store.inner.scenes
      → AreProjected p (step f w (now, call) store).inner.scenes
  unfolding UsesProjection step commit apply_full_refresh mark_connected mark_disconnected
      update_stats merge_config write_into build_snapshot
  step-AreProjected now (refreshes r projection g) store same h =
      subst (λ q. AreProjected p (map (build_scene r.scenes.current q) r.scenes.names)) (sym same)
        (AreProjected-build p r.scenes.current r.scenes.names)
  step-AreProjected now (merges projection) store same h =
      subst (λ q. AreProjected p (map (merge_scene q) store.inner.scenes)) (sym same)
        (AreProjected-merge p store.inner.scenes)
  step-AreProjected now (receives e) store same h = receives-AreProjected now e store h
  step-AreProjected now _ store same h = h

  -- If the scenes of a snapshot carry the alias, shortcut, group and visibility that a
  -- configuration gives them, they do so after every sequence of writes in which each refresh and
  -- each reload uses that configuration.
  pub run-AreProjected :
      (calls : List (ℕ × Write F J)) (store : StateStore F J)
      → All (λ c. UsesProjection c.1) calls
      → AreProjected p store.inner.scenes
      → AreProjected p (run f w calls store).inner.scenes
  unfolding run
  run-AreProjected [] store all h = h
  run-AreProjected (c ∷ calls) store all h =
      run-AreProjected calls (step f w c store) all.1 (step-AreProjected c.0 c.1 store all.0 h)
