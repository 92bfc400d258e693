-- ===== src/Server/Fetch.antt =====
-- The reading of OBS's answers: src/obs/validation.rs, and the fetches of
-- src/server/snapshot_refresh.rs. JSON values and OBS's answers are parameters.
pub mod Distinct
pub mod Tests
use obsctl_rs.Prelude.{
  and_then, ok_or, unwrap_or, ℕ, Bool, true, false, ◌&&◌, not, Option, none, some, List, [], ◌∷◌,
  Result, ok, err, map_err, to_option, if◌then◌else◌, ◌>>=◌, ◌>>◌, list_eq, nat_eq,
}
use obsctl_rs.Text.{Text, text}
use obsctl_rs.Sets.{contains}
use obsctl_rs.Errors.{
  ObsctlError, obs_request_failed, missing_list, missing_name, non_string_entry, invalid_entry,
  duplicate_entry, missing_current_scene, invalid_current_scene, invalid_request_name,
}
use obsctl_rs.Names.{max_target_token_length, trim_and_validate_token_with_max_len}
use obsctl_rs.Volume.{Floats, is_valid_multiplier}
use obsctl_rs.Obs.Requests.{
  RequestData, req, get_scene_list, get_current_program_scene, get_input_list, get_input_mute,
  get_input_volume,
}
use obsctl_rs.Server.Projection.{
  ObsVersions, Listing, RawInputState, OutputFlags, RefreshedObsState,
}

-- How `serde_json::Value` is read; `get` of a value that is no object is `none`, and so are the keys.
pub record Json (F J : Type 0) : Type 0 where
  pub get : Text → J → Option J
  pub as_array : J → Option (List J)
  pub as_str : J → Option Text
  pub as_bool : J → Option Bool
  pub as_f64 : J → Option F
  pub as_u64 : J → Option ℕ
  -- the keys of an object
  pub keys : J → Option (List Text)
  pub is_null : J → Bool

-- `.collect()` of results into a result.
unfoldable pub collect_results :
    {A B : Type 0} → (A → Result ObsctlError B) → List A → Result ObsctlError (List B)
collect_results f [] = ok []
collect_results f (x ∷ xs) = do y ← f x; ys ← collect_results f xs; ok (y ∷ ys)

module _ {F J : Type 0} (json : Json F J) where
  open json use {get, as_array, as_str, as_bool, as_f64}

  -- The loop of `collect_unique_names`.
  unfoldable pub unique_names_from :
      Text → (J → Result ObsctlError Text) → List Text → List J → Result ObsctlError (List Text)
  unique_names_from list_key read_name seen [] = ok []
  unique_names_from list_key read_name seen (item ∷ items) = do
    name ← read_name item
    trimmed ←
        map_err (λ e. obs_request_failed (invalid_entry list_key e))
          (trim_and_validate_token_with_max_len name max_target_token_length)
    if contains seen trimmed
        then err (obs_request_failed (duplicate_entry list_key trimmed))
        else (unique_names_from list_key read_name (trimmed ∷ seen) items >>= λ names.
            ok (trimmed ∷ names))

  unfoldable pub collect_unique_names :
      J → Text → (J → Result ObsctlError Text) → Result ObsctlError (List Text)
  collect_unique_names value list_key read_name = do
    list ←
        ok_or (and_then (get list_key value) as_array) (obs_request_failed (missing_list list_key))
    unique_names_from list_key read_name [] list

  unfoldable pub extract_resource_names : J → Text → Text → Result ObsctlError (List Text)
  extract_resource_names value list_key name_key = collect_unique_names value list_key (λ item.
      ok_or (and_then (get name_key item) as_str)
        (obs_request_failed (missing_name name_key list_key)))

  unfoldable pub extract_string_array : J → Text → Result ObsctlError (List Text)
  extract_string_array value list_key =
      collect_unique_names value list_key
        (λ item. ok_or (as_str item) (obs_request_failed (non_string_entry list_key)))

  module _ (f : Floats F) (request : RequestData F → Result ObsctlError J) where
    unfoldable pub fetch_scene_listing : Result ObsctlError Listing
    fetch_scene_listing = do
      scene_list ← request get_scene_list
      scenes ← extract_resource_names scene_list (text "scenes") (text "sceneName")
      response ← request get_current_program_scene
      name ←
          ok_or (and_then (get (text "currentProgramSceneName") response) as_str)
            (obs_request_failed missing_current_scene)
      current ←
          map_err (λ e. obs_request_failed (invalid_current_scene e))
            (trim_and_validate_token_with_max_len name max_target_token_length)
      ok (record { names = scenes; current = current })

    -- A field of an answer; a request that fails leaves it unknown.
    unfoldable pub field_or_warn : {A : Type 0} → RequestData F → (J → Option A) → Option A
    field_or_warn question read = and_then (to_option (request question)) read

    unfoldable pub usable_volume : F → Option F
    usable_volume volume_mul = if is_valid_multiplier f volume_mul then some volume_mul else none

    unfoldable pub fetch_input_state : Text → Result ObsctlError (RawInputState F)
    fetch_input_state name = do
      mute_request ← get_input_mute name
      volume_request ← get_input_volume name
      ok (record {
        name = name;
        muted = field_or_warn mute_request (λ v. and_then (get (text "inputMuted") v) as_bool);
        volume_mul =
            and_then
              (field_or_warn volume_request (λ v. and_then (get (text "inputVolumeMul") v) as_f64))
              usable_volume;
      })

    unfoldable pub fetch_input_states : Result ObsctlError (List (RawInputState F))
    fetch_input_states = do
      input_list ← request get_input_list
      input_names ← extract_resource_names input_list (text "inputs") (text "inputName")
      collect_results fetch_input_state input_names

    -- `fetch_listing`, of the request's name and the two keys.
    unfoldable pub listing_of : J → Text → Text → Listing
    listing_of response list_key current_key = record {
      names = unwrap_or (to_option (extract_string_array response list_key)) [];
      current = unwrap_or (and_then (get current_key response) as_str) [];
    }

    unfoldable pub fetch_listing : Text → Text → Text → Listing
    fetch_listing request_name list_key current_key = elim (request (req request_name)) [
      | ok response ↦ listing_of response list_key current_key
      | err e ↦ record { names = []; current = [] }
    ]

    unfoldable pub fetch_output_active : Text → Bool
    fetch_output_active request_name =
        unwrap_or
          (and_then (to_option (request (req request_name)))
            (λ v. and_then (get (text "outputActive") v) as_bool))
          false

    -- The fetch of `refresh_once`.
    unfoldable pub fetch_state : ObsVersions → Result ObsctlError (RefreshedObsState F)
    fetch_state versions = do
      scenes ← fetch_scene_listing
      inputs ← fetch_input_states
      ok (record {
        versions = versions;
        scenes = scenes;
        inputs = inputs;
        profiles =
            fetch_listing (text "GetProfileList") (text "profiles") (text "currentProfileName");
        collections =
            fetch_listing (text "GetSceneCollectionList") (text "sceneCollections")
              (text "currentSceneCollectionName");
        outputs = record {
          streaming = fetch_output_active (text "GetStreamStatus");
          recording = fetch_output_active (text "GetRecordStatus");
        };
      })
