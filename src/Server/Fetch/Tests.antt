-- ===== src/Server/Fetch/Tests.antt =====
-- A fetch from a small OBS, which answers every request with one object.
use obsctl_rs.Prelude.{
  false, ℕ, ◌≡◌, refl, any, Bool, Option, none, some, List, [], ◌∷◌, Result, ok, if◌then◌else◌,
  ◌==◌, list_eq, nat_eq,
}
use obsctl_rs.Text.{Text, text, is_control, is_whitespace, trim}
use obsctl_rs.Errors.{ObsctlError}
use obsctl_rs.Names.{trim_and_validate_token_with_max_len}
use obsctl_rs.Sets.{contains}
use obsctl_rs.Server.Projection.{RefreshedObsState}
use obsctl_rs.Server.Store.Consistent.{fetched_names}
use obsctl_rs.Server.Store.Tests.{floats, versions}
use obsctl_rs.Obs.Requests.{
  RequestData, validate_name, named_request, get_input_mute, get_input_volume,
}
use obsctl_rs.Server.Fetch.{
  Json, collect_results, unique_names_from, collect_unique_names, extract_resource_names,
  extract_string_array, fetch_scene_listing, field_or_warn, usable_volume, fetch_input_state,
  fetch_input_states, listing_of, fetch_listing, fetch_output_active, fetch_state,
}
use obsctl_rs.Server.Fetch.Distinct.{AreNames, fetch_state-AreNames}

pub data Value : Type 0 where
  object array : Value
  entry string : Text → Value

abbrev pub get_value : Text → Value → Option Value
get_value key object =
    if key == text "currentProgramSceneName" then some (string (text "Mic")) else some array
get_value key (entry name) = some (string name)
get_value key _ = none

abbrev pub entries : Value → Option (List Value)
entries array = some (entry (text " Mic") ∷ entry (text "Desk") ∷ [])
entries _ = none

abbrev pub string_of : Value → Option Text
string_of (string s) = some s
string_of _ = none

abbrev pub json : Json ℕ Value
json = record {
  get = get_value;
  as_array = entries;
  as_str = string_of;
  as_bool = λ v. none;
  as_f64 = λ v. some 3;
  as_u64 = λ v. none;
  keys = λ v. none;
  is_null = λ v. false;
}

abbrev pub request : RequestData ℕ → Result ObsctlError Value
request r = ok object

abbrev refreshed : RefreshedObsState ℕ
refreshed = record {
  versions = versions;
  scenes = record { names = text "Mic" ∷ text "Desk" ∷ []; current = text "Mic" };
  inputs =
      record { name = text "Mic"; muted = none; volume_mul = some 3 }
      ∷ record { name = text "Desk"; muted = none; volume_mul = some 3 }
      ∷ [];
  profiles = record { names = []; current = [] };
  collections = record { names = []; current = [] };
  outputs = record { streaming = Bool.false; recording = Bool.false };
}

fetched : fetch_state json floats request versions ≡ ok refreshed
unfolding any contains text is_control is_whitespace trim trim_and_validate_token_with_max_len
    validate_name named_request get_input_mute get_input_volume collect_results unique_names_from
    collect_unique_names extract_resource_names extract_string_array fetch_scene_listing
    field_or_warn usable_volume fetch_input_state fetch_input_states listing_of fetch_listing
    fetch_output_active fetch_state obsctl_rs.Volume.is_valid_multiplier
fetched = refl

fetch_state-AreNames_example : AreNames (fetched_names refreshed)
fetch_state-AreNames_example = fetch_state-AreNames json floats request versions refreshed fetched
