-- ===== src/Server/Executor/Tests.antt =====
-- The theorems about the commands at a small daemon: a JSON value is one of those that the commands
-- need, and the file is its content, if it is there.
pub mod Codec
use obsctl_rs.Prelude.{
  ℕ, ◌+◌, ◌≤◌, ◌≡◌, ◌↔◌, refl, ap, Bool, true, false, Option, none, some, List, [], ◌∷◌, ◌++◌, map,
  Result, ok, err, map_some, and_then, find, any, ◌==◌, list_eq, nat_eq, unwrap_or,
}
use obsctl_rs.Text.{Text, text, is_control, is_whitespace, trim, to_ascii_lowercase, is_empty}
use obsctl_rs.Errors.{ObsctlError, config_not_found, other_message, scene, io}
use obsctl_rs.Names.{normalized_name, checked_name, trim_and_validate_token_with_max_len}
use obsctl_rs.Sets.{contains, collect, collect_from, insert}
use obsctl_rs.Config.{Config, ConfigDocument, SceneProfileConfig}
use obsctl_rs.Config.Tests.{config, env, any_path}
use obsctl_rs.Aliases.{
  ensure_unique_aliases_and_shortcuts, ensure_unique_from, claim, normalize_alias_or_shortcut,
}
use obsctl_rs.Config.Dump
use obsctl_rs.Config.Dump.{
  ObsResources, merge, merge_entries, mergeable_scene, normalized, reject_collisions,
  reject_collision_with_obs_name, reject_value, marked, discovered,
}
use obsctl_rs.Config.Dump.Merged.{IsMerged, merge-IsMerged}
use obsctl_rs.Ipc.Commands
use obsctl_rs.Ipc.Commands.{parse, spec, commands, required_args, optional_args}
use obsctl_rs.Ipc.Commands.Names.{parse-name}
use obsctl_rs.Ipc.ErrorCodes.{as_str, public_error_code, exit_code_for_public_error_code}
use obsctl_rs.Ipc.ErrorCodes.Exits.{local_exit_code, exit_code_for-public_error_code}
use obsctl_rs.Obs.{default_snapshot}
use obsctl_rs.Obs.Requests.{validate_name, named_request, set_current_profile}
use obsctl_rs.Server.Hub.{ServerMessage, response, new_hub}
use obsctl_rs.Server.Fetch.{Json}
use obsctl_rs.Server.Store.{StateStore}
use obsctl_rs.Server.Store.Tests.{floats}
use obsctl_rs.Server.Hub.{Wire}
use obsctl_rs.Server.Args.{
  parse_server_command, reject_unexpected, reject_missing, validate_object_args, validate_payload,
  required_string, required_string_array, max_hidden_scenes_per_profile, scene_names_from,
}
use obsctl_rs.Server.Args.Checked.{AreScenes, required_string_array-AreScenes}
use obsctl_rs.Server.Executor.{Setup, Daemon, ◌>>=◌, ◌>>◌, lift, reads, require_obs, request}
use obsctl_rs.Server.Executor.Control.{refuse_unknown, cmd_set_named_selection}
use obsctl_rs.Server.Executor.Migrated.{document_of}
use obsctl_rs.Server.Executor.Edit.{IsFileSystem}
use obsctl_rs.Server.Executor.Handle.{CommandDispatch, dispatch, execute, respond, handle, serve}
use obsctl_rs.Server.Executor.Profiles
use obsctl_rs.Server.Executor.Profiles.{
  Saved, same_scene_profile_name, position, scene_profile_position, write_profile, save,
}
use obsctl_rs.Server.Executor.Profiles.Names.{IsSaved, save-IsSaved}
use obsctl_rs.Server.Executor.Profiles.Transaction.{
  IsTransaction, edits_profiles, handle-IsTransaction,
}
use obsctl_rs.Server.Executor.Quiet.Serve.{serve-sent}
use obsctl_rs.Server.Executor.Target.Asks.{Asks, handle-Asks}
use obsctl_rs.Server.Executor.Tests.Codec.{document}

data Value : Type 0 where
  null : Value
  string : Text → Value
  strings : List Text → Value
  object : List (Text × Text) → Value

abbrev get_value : Text → Value → Option Value
get_value key (object fields) =
    map_some (λ (f : Text × Text). string f.1) (find (λ (f : Text × Text). f.0 == key) fields)
get_value key (strings names) = some (strings names)
get_value key _ = none

abbrev json : Json ℕ Value
json = record {
  get = get_value;
  as_array = λ v. elim v [ strings names ↦ some (map string names) | _ ↦ none ];
  as_str = λ v. elim v [ string s ↦ some s | _ ↦ none ];
  as_bool = λ v. none;
  as_f64 = λ v. none;
  as_u64 = λ v. none;
  keys = λ v. elim v [ object fields ↦ some (map (λ (f : Text × Text). f.0) fields) | _ ↦ none ];
  is_null = λ v. elim v [ null ↦ true | _ ↦ false ];
}

abbrev wire : Wire ℕ Value
wire = record {
  snapshot_value = λ s. ok null;
  payload_value = λ p. ok null;
  log_value = λ target line. ok null;
  error_value = λ label error. null;
}

parsed : Option (ConfigDocument ℕ × Text) → Result Text (ConfigDocument ℕ)
parsed none = err []
parsed (some r) = ok r.0

content : Option Text → Result ObsctlError Text
content none = err (config_not_found [])
content (some t) = ok t

abbrev setup : Setup ℕ Value (Option Text)
setup = record {
  floats = floats;
  json = json;
  wire = wire;
  answer = λ earlier r. ok null;
  reply_value = λ reply. null;
  to_value = λ reply. ok null;
  display = λ e. [];
  redact_message = λ t. t;
  config_path = some (text "config.yml");
  read_file = content;
  replace_file = λ t file. (ok tt, some t);
  write_backup = λ file. (ok tt, file);
  from_yaml = λ t. parsed (document.read t);
  to_yaml = λ c. ok (document.write (document_of c) []);
  default_reconnect = config.reconnect;
  environment = env;
  socket_check = any_path;
  pid = 1;
  uptime_seconds = 0;
  socket_path = [];
  now = 5;
}

abbrev daemon : Daemon ℕ Value (Option Text)
daemon = record {
  store = record {
    inner = record (default_snapshot 0) { profiles = text "Show" ∷ [] };
    hub = new_hub;
    generation = 0;
  };
  obs = true;
  sent = [];
  config = config;
  file = none;
  clients = 1;
  reconnecting = false;
  supervised = true;
  reconnects = 0;
  watched = true;
  shutdown = false;
}

setup-IsFileSystem : IsFileSystem setup
unfolding content parsed
setup-IsFileSystem = record {
  replaced = λ t file done. refl;
  untouched = λ t file e failed. cc failed;
  rereads = λ c t h.
      let same : document.write (document_of c) [] ≡ t = cc h in
      rw (← same, document.back (document_of c) []) refl;
}

abbrev target_show : Value
target_show = object ((text "target", text "Show") ∷ [])

-- What a run unfolds.
unfoldable running : ℕ
unfolding find any text is_control is_whitespace trim to_ascii_lowercase contains
    trim_and_validate_token_with_max_len checked_name normalized_name parse spec Commands.name
    required_args optional_args parse_server_command reject_unexpected reject_missing
    validate_object_args validate_payload required_string required_string_array scene_names_from
    ◌>>=◌ ◌>>◌ lift reads require_obs request refuse_unknown cmd_set_named_selection validate_name
    named_request set_current_profile dispatch execute respond handle same_scene_profile_name
    position scene_profile_position write_profile save default_snapshot
running = 0

known : parse (text "set_profile") ≡ some Commands.set_profile
unfolding running
known = refl

abbrev set_show : CommandDispatch Value
set_show = record { id = text "7"; name = text "set_profile"; args = target_show }

answered : (handle setup set_show daemon).0 ≡ response (text "7") true (some null) none
unfolding running
answered = refl

parse-name_example :
    (parse (text "set_profile") ≡ some Commands.set_profile)
    ↔ (Commands.name Commands.set_profile ≡ text "set_profile")
parse-name_example = parse-name Commands.set_profile (text "set_profile")

exit_code_for-public_error_code_example :
    exit_code_for_public_error_code (as_str (public_error_code (io (other_message []))))
    ≡ local_exit_code (io (other_message []))
exit_code_for-public_error_code_example = exit_code_for-public_error_code (io (other_message []))

handle-Asks_example :
    (validate_payload json Commands.set_profile target_show ≡ ok tt)
    × Asks setup Commands.set_profile target_show daemon (handle setup set_show daemon).1
handle-Asks_example =
    handle-Asks setup (text "7") (text "set_profile") target_show Commands.set_profile daemon null
      known answered

serve-sent_example :
    (serve setup (set_show ∷ set_show ∷ []) (record daemon { obs = false })).1.sent ≡ []
serve-sent_example =
    serve-sent setup (set_show ∷ set_show ∷ []) (record daemon { obs = false }) refl

abbrev clear : CommandDispatch Value
clear = record { id = text "8"; name = text "clear_scene_profile"; args = null }

clear-known : parse (text "clear_scene_profile") ≡ some Commands.clear_scene_profile
unfolding running
clear-known = refl

handle-IsTransaction_example : IsTransaction setup daemon (handle setup clear daemon).1
handle-IsTransaction_example =
    handle-IsTransaction setup (text "8") (text "clear_scene_profile") null
      Commands.clear_scene_profile daemon setup-IsFileSystem refl clear-known refl

abbrev scenes : Value
scenes = strings (text "Main" ∷ text "MAIN" ∷ text "BRB" ∷ [])

scenes-read : required_string_array json scenes (text "hidden") ≡ ok (text "Main" ∷ text "BRB" ∷ [])
unfolding running
scenes-read = refl

required_string_array-AreScenes_example :
    AreScenes [] (text "Main" ∷ text "BRB" ∷ []) × (2 ≤ max_hidden_scenes_per_profile)
required_string_array-AreScenes_example =
    required_string_array-AreScenes json scenes (text "hidden") (text "Main" ∷ text "BRB" ∷ [])
      scenes-read

abbrev live : SceneProfileConfig
live = record { name = text "Live"; hidden = [] }

abbrev renamed : Config ℕ
renamed = record config { scene_profiles = live ∷ []; active_scene_profile = some (text "Live") }

live-normal : normalized_name (text "Live") ≡ ok (text "live")
unfolding running
live-normal = refl

live-saved :
    save live (some (text "show")) config ≡ ok (renamed, record { created = false; renamed = true })
unfolding running Profiles.is_active Profiles.set_at Profiles.replace_profile Profiles.is_other
live-saved = refl

save-IsSaved_example : IsSaved live (some (text "show")) config renamed
save-IsSaved_example =
    save-IsSaved live (some (text "show")) config renamed
      (record { created = false; renamed = true }) (text "live") live-normal live-saved

abbrev found : ObsResources
found = record { scenes = text "MAIN " ∷ text "BRB" ∷ []; inputs = [] }

abbrev merged : Config ℕ
merged = record config {
  scenes = config.scenes ++ mergeable_scene.newly_discovered (text "BRB") ∷ [];
  audio = record {
    inputs =
        record { name = text "Mic"; alias = none; shortcut = none; kind = []; stale = true } ∷ [];
  };
}

config-merged : merge config found ≡ ok merged
unfolding running merge merge_entries normalized Dump.collect_results reject_collisions
    reject_collision_with_obs_name reject_value marked discovered collect collect_from insert
    ensure_unique_aliases_and_shortcuts ensure_unique_from claim normalize_alias_or_shortcut
config-merged = refl

merge-IsMerged_example : IsMerged config merged found
merge-IsMerged_example = merge-IsMerged config merged found config-merged
