-- ===== src/Server/Apply.antt =====
-- src/server/state_store.rs: `mutate_snapshot`, which folds one event of OBS into the snapshot and
-- answers whether it changed anything.
pub mod Changes
use obsctl_rs.Prelude.{
  ℕ, Bool, true, false, not, Option, none, some, List, [], ◌∷◌, ◌++◌, map, any, retain, length,
  PartialEq, ◌==◌, list_eq, nat_eq, option_eq, bool_eq, if◌then◌else◌,
}
use obsctl_rs.Text.{Text}
use obsctl_rs.Volume.{Floats}
use obsctl_rs.Obs.{
  SceneState, AudioState, ObsSnapshot, default_audio, set_level_with_db, ObsEvent,
  current_program_scene_changed, scene_list_changed, input_created, input_removed,
  input_mute_state_changed, input_volume_changed, input_volume_meters, stream_state_changed,
  record_state_changed, current_profile_changed, profile_list_changed,
  current_scene_collection_changed, scene_collection_list_changed, other,
}

-- The new value of the slot, and whether it is another one.
unfoldable pub set_if_changed {ℓ} : {A : Type ℓ} ⦃d : PartialEq A⦄ → A → A → A × Bool
set_if_changed slot next = if slot == next then (slot, false) else (next, true)

-- `iter_mut().find(p)` and a change of what was found; `false` if nothing was.
unfoldable pub update_first {ℓ} :
    {A : Type ℓ} → (A → Bool) → (A → A × Bool) → List A → List A × Bool
update_first p change [] = ([], false)
update_first p change (x ∷ xs) =
    let (ys, changed) = update_first p change xs in
    if p x then (let (x', here) = change x in (x' ∷ xs, here)) else (x ∷ ys, changed)

unfoldable pub mark_active : Text → SceneState → SceneState
mark_active scene_name s = record s { active = s.name == scene_name }

module _ {F : Type 0} where
  unfoldable pub program_scene_changed : Text → ObsSnapshot F → ObsSnapshot F × Bool
  program_scene_changed scene_name s =
      let (slot, changed) = set_if_changed s.current_scene (some scene_name) in
      if not changed
      then (s, false)
      else (record s { current_scene = slot; scenes = map (mark_active scene_name) s.scenes }, true)

  unfoldable pub has_name : Text → AudioState F → Bool
  has_name name input = input.name == name

  unfoldable pub add_input : Text → ObsSnapshot F → ObsSnapshot F × Bool
  add_input input_name s =
      if any (has_name input_name) s.audio_inputs
      then (s, false)
      else (record s { audio_inputs = s.audio_inputs ++ default_audio input_name ∷ [] }, true)

  unfoldable pub remove_input : Text → ObsSnapshot F → ObsSnapshot F × Bool
  remove_input input_name s =
      let before = length s.audio_inputs in
      let kept = retain (λ a. not (has_name input_name a)) s.audio_inputs in
      (record s { audio_inputs = kept }, not (length kept == before))

  unfoldable pub set_muted : Bool → AudioState F → AudioState F × Bool
  set_muted muted input =
      let (slot, changed) = set_if_changed input.muted (some muted) in
      (record input { muted = slot }, changed)

  unfoldable pub input_mute_changed : Text → Bool → ObsSnapshot F → ObsSnapshot F × Bool
  input_mute_changed input_name muted s =
      let (inputs, changed) = update_first (has_name input_name) (set_muted muted) s.audio_inputs in
      (record s { audio_inputs = inputs }, changed)

module _ {F : Type 0} (f : Floats F) where
  unfoldable pub relevel : F → F → AudioState F → AudioState F × Bool
  relevel volume_mul volume_db input = (set_level_with_db f volume_mul volume_db input, true)

  unfoldable pub volume_changed : Text → F → F → ObsSnapshot F → ObsSnapshot F × Bool
  volume_changed input_name volume_mul volume_db s =
      let (inputs, changed) =
        update_first (has_name input_name) (relevel volume_mul volume_db) s.audio_inputs in
      (record s { audio_inputs = inputs }, changed)

  unfoldable pub mutate_snapshot :
      {J : Type 0} → ObsSnapshot F → ObsEvent F J → ObsSnapshot F × Bool
  mutate_snapshot s (current_program_scene_changed scene_name) = program_scene_changed scene_name s
  mutate_snapshot s scene_list_changed = (s, false)
  mutate_snapshot s (input_created input_name) = add_input input_name s
  mutate_snapshot s (input_removed input_name) = remove_input input_name s
  mutate_snapshot s (input_mute_state_changed input_name muted) =
      input_mute_changed input_name muted s
  mutate_snapshot s (input_volume_changed input_name mul db) = volume_changed input_name mul db s
  mutate_snapshot s (stream_state_changed active) =
      let (slot, changed) = set_if_changed s.streaming active in
      (record s { streaming = slot }, changed)
  mutate_snapshot s (record_state_changed active) =
      let (slot, changed) = set_if_changed s.recording active in
      (record s { recording = slot }, changed)
  mutate_snapshot s (current_profile_changed profile_name) =
      let (slot, changed) = set_if_changed s.current_profile (some profile_name) in
      (record s { current_profile = slot }, changed)
  mutate_snapshot s profile_list_changed = (s, false)
  mutate_snapshot s (current_scene_collection_changed name) =
      let (slot, changed) = set_if_changed s.current_scene_collection (some name) in
      (record s { current_scene_collection = slot }, changed)
  mutate_snapshot s scene_collection_list_changed = (s, false)
  mutate_snapshot s (input_volume_meters inputs) = (s, false)
  mutate_snapshot s (other event_type value) = (s, false)

  -- `apply_to_snapshot` at the time `now`.
  unfoldable pub apply_to_snapshot :
      {J : Type 0} → ℕ → ObsSnapshot F → ObsEvent F J → ObsSnapshot F × Bool
  apply_to_snapshot now s event =
      let (s', changed) = mutate_snapshot s event in
      ((if changed then record s' { updated_at = now } else s'), changed)
