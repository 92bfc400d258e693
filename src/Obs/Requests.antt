-- ===== src/Obs/Requests.antt =====
-- src/obs/requests.rs: the requests that the daemon sends to OBS. A request's id, which is a counter's
-- next value, is left out. `F` is `f64`.
use obsctl_rs.Prelude.{
  Bool, not, Option, none, some, List, [], ◌∷◌, Result, ok, err, map_err, ◌>>=◌, if◌then◌else◌,
}
use obsctl_rs.Text.{Text, text}
use obsctl_rs.Errors.{ObsctlError, obs_request_failed, invalid_request_name, invalid_multiplier}
use obsctl_rs.Names.{max_target_token_length, trim_and_validate_token_with_max_len}
use obsctl_rs.Volume.{Floats, is_valid_multiplier}

-- A value in the object of a request.
pub data Field (F : Type 0) : Type 0 where
  string : Text → Field F
  flag : Bool → Field F
  number : F → Field F

pub record RequestData (F : Type 0) : Type 0 where
  pub request_type : Text
  pub request_data : Option (List (Text × Field F))

unfoldable pub validate_name : Text → Text → Result ObsctlError Text
validate_name name field =
    map_err (λ e. obs_request_failed (invalid_request_name field e))
      (trim_and_validate_token_with_max_len name max_target_token_length)

module _ {F : Type 0} where
  unfoldable pub req : Text → RequestData F
  req request_type = record { request_type = request_type; request_data = none }

  unfoldable pub req_with : Text → List (Text × Field F) → RequestData F
  req_with request_type data' = record { request_type = request_type; request_data = some data' }

  unfoldable pub named_request : Text → Text → Text → Result ObsctlError (RequestData F)
  named_request request_type field name = do
    checked ← validate_name name field
    ok (req_with request_type ((field, string checked) ∷ []))

  unfoldable pub get_scene_list : RequestData F
  get_scene_list = req (text "GetSceneList")

  unfoldable pub get_current_program_scene : RequestData F
  get_current_program_scene = req (text "GetCurrentProgramScene")

  unfoldable pub set_current_program_scene : Text → Result ObsctlError (RequestData F)
  set_current_program_scene scene_name =
      named_request (text "SetCurrentProgramScene") (text "sceneName") scene_name

  unfoldable pub get_input_list : RequestData F
  get_input_list = req (text "GetInputList")

  unfoldable pub get_input_mute : Text → Result ObsctlError (RequestData F)
  get_input_mute input_name = named_request (text "GetInputMute") (text "inputName") input_name

  unfoldable pub set_input_mute : Text → Bool → Result ObsctlError (RequestData F)
  set_input_mute input_name muted = do
    checked ← validate_name input_name (text "inputName")
    ok (
        req_with (text "SetInputMute")
          ((text "inputName", string checked) ∷ (text "inputMuted", flag muted) ∷ []))

  unfoldable pub toggle_input_mute : Text → Result ObsctlError (RequestData F)
  toggle_input_mute input_name =
      named_request (text "ToggleInputMute") (text "inputName") input_name

  unfoldable pub get_input_volume : Text → Result ObsctlError (RequestData F)
  get_input_volume input_name = named_request (text "GetInputVolume") (text "inputName") input_name

  unfoldable pub set_input_volume : Floats F → Text → F → Result ObsctlError (RequestData F)
  set_input_volume f input_name volume_mul =
      if not (is_valid_multiplier f volume_mul)
      then err (obs_request_failed invalid_multiplier)
      else (do
        checked ← validate_name input_name (text "inputName")
        ok (
            req_with (text "SetInputVolume") (
              (text "inputName", string checked)
              ∷ (text "inputVolumeMul", number volume_mul)
              ∷ [])))

  unfoldable pub set_current_profile : Text → Result ObsctlError (RequestData F)
  set_current_profile profile_name =
      named_request (text "SetCurrentProfile") (text "profileName") profile_name

  unfoldable pub set_current_scene_collection : Text → Result ObsctlError (RequestData F)
  set_current_scene_collection scene_collection_name =
      named_request (text "SetCurrentSceneCollection") (text "sceneCollectionName")
        scene_collection_name

  unfoldable pub toggle_stream : RequestData F
  toggle_stream = req (text "ToggleStream")

  unfoldable pub toggle_record : RequestData F
  toggle_record = req (text "ToggleRecord")
