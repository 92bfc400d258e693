-- ===== src/Server/Adapter.antt =====
-- src/server/obs_event_adapter.rs: the public form of an event of OBS, and whether it asks for a full
-- refresh.
use obsctl_rs.Prelude.{ℕ, Bool, true, false, Option, none, some, List, map, if◌then◌else◌}
use obsctl_rs.Errors.{ObsctlError}
use obsctl_rs.Text.{Text}
use obsctl_rs.Volume.{Floats}
use obsctl_rs.Obs.{ObsEvent}
use obsctl_rs.Config.Schema.{Warning}

pub record InputMeterLevel (F : Type 0) : Type 0 where
  pub name : Text
  pub level : F

-- `ObsEventPayload` of src/ipc/protocol.rs.
pub data ObsEventPayload (F : Type 0) : Type 0 where
  current_program_scene_changed : Text → ObsEventPayload F
  scene_list_changed : ObsEventPayload F
  input_created : Text → ObsEventPayload F
  input_removed : Text → ObsEventPayload F
  input_mute_state_changed : Text → Bool → ObsEventPayload F
  input_volume_changed : Text → F → F → ObsEventPayload F
  input_volume_meters : List (InputMeterLevel F) → ObsEventPayload F
  stream_state_changed : Bool → ObsEventPayload F
  record_state_changed : Bool → ObsEventPayload F
  current_profile_changed : Text → ObsEventPayload F
  profile_list_changed : ObsEventPayload F
  current_scene_collection_changed : Text → ObsEventPayload F
  scene_collection_list_changed : ObsEventPayload F

-- `normalize_obs_event`.
unfoldable pub normalize : {F J : Type 0} → ObsEvent F J → Option (ObsEventPayload F)
normalize (ObsEvent.current_program_scene_changed n) = some (current_program_scene_changed n)
normalize ObsEvent.scene_list_changed = some scene_list_changed
normalize (ObsEvent.input_created n) = some (input_created n)
normalize (ObsEvent.input_removed n) = some (input_removed n)
normalize (ObsEvent.input_mute_state_changed n m) = some (input_mute_state_changed n m)
normalize (ObsEvent.input_volume_changed n mul db) = some (input_volume_changed n mul db)
normalize (ObsEvent.input_volume_meters inputs) =
    some (input_volume_meters (map (λ i. record { name = i.0; level = i.1 }) inputs))
normalize (ObsEvent.stream_state_changed active) = some (stream_state_changed active)
normalize (ObsEvent.record_state_changed active) = some (record_state_changed active)
normalize (ObsEvent.current_profile_changed n) = some (current_profile_changed n)
normalize ObsEvent.profile_list_changed = some profile_list_changed
normalize (ObsEvent.current_scene_collection_changed n) = some (current_scene_collection_changed n)
normalize ObsEvent.scene_collection_list_changed = some scene_collection_list_changed
normalize (ObsEvent.other n v) = none

unfoldable pub needs_full_refresh : {F J : Type 0} → ObsEvent F J → Bool
needs_full_refresh ObsEvent.scene_list_changed = true
needs_full_refresh ObsEvent.profile_list_changed = true
needs_full_refresh ObsEvent.scene_collection_list_changed = true
needs_full_refresh (ObsEvent.current_program_scene_changed n) = false
needs_full_refresh (ObsEvent.input_created n) = false
needs_full_refresh (ObsEvent.input_removed n) = false
needs_full_refresh (ObsEvent.input_mute_state_changed n m) = false
needs_full_refresh (ObsEvent.input_volume_changed n mul db) = false
needs_full_refresh (ObsEvent.input_volume_meters inputs) = false
needs_full_refresh (ObsEvent.stream_state_changed active) = false
needs_full_refresh (ObsEvent.record_state_changed active) = false
needs_full_refresh (ObsEvent.current_profile_changed n) = false
needs_full_refresh (ObsEvent.current_scene_collection_changed n) = false
needs_full_refresh (ObsEvent.other n v) = false

-- The line that an operator reads. Each `format!` is a constructor; no level stands for "-∞ dB".
pub data LogLine (F : Type 0) : Type 0 where
  scene_changed : Text → LogLine F
  scene_list : LogLine F
  created : Text → LogLine F
  removed : Text → LogLine F
  mute_state : Text → Bool → LogLine F
  volume : Text → Option F → LogLine F
  streaming : Bool → LogLine F
  recording : Bool → LogLine F
  profile_changed : Text → LogLine F
  profile_list : LogLine F
  collection_changed : Text → LogLine F
  collection_list : LogLine F
  -- src/server/snapshot_refresh.rs
  fetch_gave_up : ℕ → LogLine F
  refresh_failed : ObsctlError → LogLine F
  -- src/server/command_executor.rs
  config_warning : Text → Warning → LogLine F
  config_reloaded : LogLine F
  config_reloaded_with_warnings : ℕ → LogLine F
  config_reload_failed : ObsctlError → LogLine F
  dump_reload_failed : ObsctlError → LogLine F
  shutdown_requested : LogLine F

unfoldable pub describe : {F J : Type 0} → Floats F → ObsEvent F J → Option (LogLine F)
describe f (ObsEvent.current_program_scene_changed n) = some (scene_changed n)
describe f ObsEvent.scene_list_changed = some scene_list
describe f (ObsEvent.input_created n) = some (created n)
describe f (ObsEvent.input_removed n) = some (removed n)
describe f (ObsEvent.input_mute_state_changed n m) = some (mute_state n m)
describe f (ObsEvent.input_volume_changed n mul db) =
    some (volume n (if f.is_finite db then some db else none))
describe f (ObsEvent.stream_state_changed active) = some (streaming active)
describe f (ObsEvent.record_state_changed active) = some (recording active)
describe f (ObsEvent.current_profile_changed n) = some (profile_changed n)
describe f ObsEvent.profile_list_changed = some profile_list
describe f (ObsEvent.current_scene_collection_changed n) = some (collection_changed n)
describe f ObsEvent.scene_collection_list_changed = some collection_list
describe f (ObsEvent.input_volume_meters inputs) = none
describe f (ObsEvent.other n v) = none
