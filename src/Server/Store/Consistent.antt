-- ===== src/Server/Store/Consistent.antt =====
-- src/server/state_store.rs: an invariant of the snapshot, on its active scene and its audio inputs,
-- over the events, the writes and their runs.
use obsctl_rs.Prelude.{
  ℕ, ◌≡◌, refl, sym, subst, not, Option, none, some, List, [], ◌∷◌, map, any, All, ◌==◌, option_eq,
  list_eq, nat_eq, Bool-cases, inl, inr,
}
use mathlib.Core.Path.{ap₂}
use obsctl_rs.Text.{Text}
use obsctl_rs.Volume.{Floats}
use obsctl_rs.Obs.{
  AudioState, ObsSnapshot, ObsEvent, current_program_scene_changed, input_created, input_removed,
  input_mute_state_changed, input_volume_changed, set_level_with_db, clear_level, set_level,
  default_snapshot, default_audio,
}
use obsctl_rs.Server.Hub.{Wire}
use obsctl_rs.Server.Projection.{
  ConfigProjection, RefreshedObsState, RawInputState, build_input, build_snapshot, with_level,
  apply_audio_config,
}
use obsctl_rs.Server.Apply.{
  apply_to_snapshot, mutate_snapshot, set_if_changed, program_scene_changed, has_name, add_input,
  remove_input, set_muted, input_mute_changed, relevel, volume_changed,
}
use obsctl_rs.Server.Store.{
  StateStore, write_into, commit, apply_full_refresh, mark_connected, mark_disconnected,
  apply_event, update_stats, merge_config,
}
use obsctl_rs.Server.Store.Steps.{
  Write, refreshes, connects, disconnects, receives, polls, merges, step, run,
}
use obsctl_rs.Server.Store.Rows.{
  AreMarked, input_names, IsDistinct, AreMarked-mark_active, AreMarked-build, AreMarked-merge,
  input_names-merge, input_names-update_first, IsDistinct-retain, IsDistinct-append,
}

pub record IsConsistent {F : Type 0} (s : ObsSnapshot F) : Type 0 where
  pub marked : AreMarked s.current_scene s.scenes
  pub distinct : IsDistinct (input_names s.audio_inputs)

module _ {F : Type 0} (f : Floats F) where
  name-with_level : (o : Option F) (input : AudioState F) → (with_level f o input).name ≡ input.name
  unfolding with_level clear_level set_level set_level_with_db
  name-with_level none input = refl
  name-with_level (some m) input = refl

  input_names-build :
      (p : ConfigProjection) (xs : List (RawInputState F))
      → input_names (map (build_input f p) xs) ≡ map (λ i. i.name) xs
  unfolding input_names build_input apply_audio_config
  input_names-build p [] = refl
  input_names-build p (x ∷ xs) =
      ap₂ (λ n l. n ∷ l) (name-with_level x.volume_mul _) (input_names-build p xs)

  mutate_snapshot-IsConsistent :
      {J : Type 0} (s : ObsSnapshot F) (e : ObsEvent F J)
      → IsConsistent s
      → IsConsistent (mutate_snapshot f s e).0
  unfolding mutate_snapshot program_scene_changed add_input remove_input input_mute_changed
      volume_changed set_if_changed
  mutate_snapshot-IsConsistent s (current_program_scene_changed n) h =
      elim (Bool-cases (s.current_scene == some n)) [
        | inl same ↦ rw same h
        | inr new ↦
            rw new (record { marked = AreMarked-mark_active n s.scenes; distinct = h.distinct })
      ]
  mutate_snapshot-IsConsistent s (input_created n) h =
      elim (Bool-cases (any (has_name n) s.audio_inputs)) [
        | inl old ↦ rw old h
        | inr new ↦ rw new (record {
          marked = h.marked;
          distinct = IsDistinct-append (default_audio n) s.audio_inputs h.distinct new;
        })
      ]
  mutate_snapshot-IsConsistent s (input_removed n) h = record {
    marked = h.marked;
    distinct = IsDistinct-retain (λ a. not (has_name n a)) s.audio_inputs h.distinct;
  }
  mutate_snapshot-IsConsistent s (input_mute_state_changed n m) h = record {
    marked = h.marked;
    distinct =
        subst IsDistinct
          (sym (
            input_names-update_first (has_name n) (set_muted m) s.audio_inputs
              (λ x. unfold set_muted in refl)))
          h.distinct;
  }
  mutate_snapshot-IsConsistent s (input_volume_changed n mul db) h = record {
    marked = h.marked;
    distinct =
        subst IsDistinct
          (sym (
            input_names-update_first (has_name n) (relevel f mul db) s.audio_inputs
              (λ x. unfold relevel set_level_with_db in refl)))
          h.distinct;
  }
  mutate_snapshot-IsConsistent s _ h = record { marked = h.marked; distinct = h.distinct }

  unmutated-IsConsistent :
      (now : ℕ) (s : ObsSnapshot F) → IsConsistent s → IsConsistent (record s { updated_at = now })
  unmutated-IsConsistent now s h = record { marked = h.marked; distinct = h.distinct }

-- The names of the inputs that a refresh fetched.
unfoldable pub fetched_names : {F : Type 0} → RefreshedObsState F → List Text
fetched_names refreshed = map (λ i. i.name) refreshed.inputs

module _ {F J : Type 0} (f : Floats F) (w : Wire F J) where
  -- The inputs that a refresh fetched have different names.
  unfoldable pub IsWellFetched : Write F J → Type 0
  IsWellFetched (refreshes refreshed projection before) = IsDistinct (fetched_names refreshed)
  IsWellFetched (connects versions error) = Unit
  IsWellFetched (disconnects error) = Unit
  IsWellFetched (receives e) = Unit
  IsWellFetched (polls metrics) = Unit
  IsWellFetched (merges projection) = Unit

  receives-IsConsistent :
      (now : ℕ) (e : ObsEvent F J) (store : StateStore F J)
      → IsConsistent store.inner
      → IsConsistent (apply_event f w e now store).inner
  unfolding apply_event apply_to_snapshot commit
  receives-IsConsistent now e store h = elim (Bool-cases (mutate_snapshot f store.inner e).1) [
    | inl changed ↦
        rw changed (unmutated-IsConsistent f now _ (mutate_snapshot-IsConsistent f store.inner e h))
    | inr same ↦ rw same (mutate_snapshot-IsConsistent f store.inner e h)
  ]

  step-IsConsistent :
      (now : ℕ) (call : Write F J) (store : StateStore F J)
      → IsWellFetched call
      → IsConsistent store.inner
      → IsConsistent (step f w (now, call) store).inner
  unfolding step commit IsWellFetched fetched_names apply_full_refresh mark_connected
      mark_disconnected update_stats merge_config write_into build_snapshot
  step-IsConsistent now (refreshes r p g) store d h = record {
    marked = AreMarked-build r.scenes.current p r.scenes.names;
    distinct = subst IsDistinct (sym (input_names-build f p r.inputs)) d;
  }
  step-IsConsistent now (connects v e) store d h = record {
    marked = h.marked;
    distinct = h.distinct;
  }
  step-IsConsistent now (disconnects e) store d h = record {
    marked = h.marked;
    distinct = h.distinct;
  }
  step-IsConsistent now (receives e) store d h = receives-IsConsistent now e store h
  step-IsConsistent now (polls m) store d h = record { marked = h.marked; distinct = h.distinct }
  step-IsConsistent now (merges p) store d h = record {
    marked = AreMarked-merge store.inner.current_scene p store.inner.scenes h.marked;
    distinct = subst IsDistinct (sym (input_names-merge p store.inner.audio_inputs)) h.distinct;
  }

  -- From a snapshot whose scenes are flagged active exactly when they are the current scene and
  -- whose audio inputs have different names, every sequence of writes to the store, in which each
  -- refresh fetched inputs of different names, leads to such a snapshot.
  pub run-IsConsistent :
      (calls : List (ℕ × Write F J)) (store : StateStore F J)
      → All (λ c. IsWellFetched c.1) calls
      → IsConsistent store.inner
      → IsConsistent (run f w calls store).inner
  unfolding run
  run-IsConsistent [] store d h = h
  run-IsConsistent (c ∷ calls) store d h =
      run-IsConsistent calls (step f w c store) d.1 (step-IsConsistent c.0 c.1 store d.0 h)

-- The snapshot of a new store is consistent.
pub default_snapshot-IsConsistent :
    (F : Type 0) (now : ℕ) → IsConsistent {F = F} (default_snapshot now)
unfolding default_snapshot input_names
default_snapshot-IsConsistent F now = record { marked = tt; distinct = tt }
