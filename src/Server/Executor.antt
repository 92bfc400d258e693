-- ===== src/Server/Executor.antt =====
-- src/server/command_executor.rs: the state that a command works on, what it can answer, and the
-- steps that its handler is made of. A command runs alone here: its lock on the configuration file,
-- and the waits between its steps, are left out. What the daemon gets from outside is a parameter.
pub mod Files
pub mod Control
pub mod Profiles
pub mod Dump
pub mod Handle
pub mod Quiet
pub mod Runs
pub mod Target
pub mod Migrated
pub mod Loads
pub mod Edit
pub mod Tests
use obsctl_rs.Prelude.{
  ℕ, Bool, true, Option, none, some, List, [], ◌∷◌, ◌++◌, Result, ok, err, ok_or, map_err,
  if◌then◌else◌,
}
use obsctl_rs.Text.{Text, text}
use obsctl_rs.Errors.{ObsctlError, obs_unavailable, obs_request_failed, cannot_serialize}
use obsctl_rs.Volume.{Floats}
use obsctl_rs.Password.{Environment}
use obsctl_rs.Config.{Config, ConfigDocument, ReconnectConfig}
use obsctl_rs.Config.Schema.{Check, Warning}
use obsctl_rs.Obs.{ObsSnapshot}
use obsctl_rs.Obs.Requests.{RequestData}
use obsctl_rs.Server.Adapter.{LogLine}
use obsctl_rs.Server.Hub.{Wire, publish_log}
use obsctl_rs.Server.Store.{StateStore}
use obsctl_rs.Server.Fetch.{Json}

pub record ServerStatus : Type 0 where
  pub pid : ℕ
  pub uptime_seconds : ℕ
  pub socket_path : Text
  pub client_count : ℕ
  pub obs_connected : Bool
  pub reconnecting : Bool
  pub last_error : Option Text

pub record DumpConfigResult : Type 0 where
  pub merge_base_error : Option Text
  pub reload_failed : Bool
  pub warnings : List Warning
  pub reload_error : Option Text
  pub scenes : ℕ
  pub inputs : ℕ

pub record SetSceneProfileResult : Type 0 where
  pub name : Text
  pub hidden : ℕ
  pub listed : ℕ
  pub warnings : List Warning

pub record SaveSceneProfileResult : Type 0 where
  pub name : Text
  pub hidden : ℕ
  pub listed : ℕ
  pub created : Bool
  pub renamed : Bool
  pub active : Bool
  pub warnings : List Warning

pub record DeleteSceneProfileResult : Type 0 where
  pub name : Text
  pub deactivated : Bool

pub record SceneProfileEntry : Type 0 where
  pub name : Text
  pub hidden : List Text

pub record SceneProfileListing : Type 0 where
  pub active : Option Text
  pub profiles : List SceneProfileEntry

-- What a command answers: one constructor per `json!` and per result type, without the wording of the
-- `message`.
pub data Reply (F : Type 0) : Type 0 where
  pong : Reply F
  server_status : ServerStatus → Reply F
  obs_status : Bool → Option Text → Option Text → Option Text → Option Text → Reply F
  snapshot : ObsSnapshot F → Reply F
  scene_set : Text → Reply F
  selection_set : Text → Text → Reply F
  mute_set : Bool → Text → Reply F
  mute_toggled : Text → Reply F
  volume_set : ℕ → Text → Reply F
  output_toggled : Text → Text → Reply F
  config_valid : List Warning → Reply F
  config_reloaded : List Warning → Reply F
  reconnect_triggered : Reply F
  shutdown_initiated : Reply F
  config_dumped : DumpConfigResult → Reply F
  profile_set : SetSceneProfileResult → Reply F
  profile_cleared : Reply F
  profile_saved : SaveSceneProfileResult → Reply F
  profile_deleted : DeleteSceneProfileResult → Reply F
  profile_listing : SceneProfileListing → Reply F

-- What the daemon is given: OBS, the file system at the configuration's path (its states are `Fs`),
-- the serializers, and the process.
pub record Setup (F J Fs : Type 0) : Type 0 where
  pub floats : Floats F
  pub json : Json F J
  pub wire : Wire F J
  -- OBS's answer to a request after the earlier ones
  pub answer : List (RequestData F) → RequestData F → Result ObsctlError J
  -- `json!` of a reply, and `serde_json::to_value`, whose error is a text
  pub reply_value : Reply F → J
  pub to_value : Reply F → Result Text J
  -- an error's `Display`, and `redact_message`
  pub display : ObsctlError → Text
  pub redact_message : Text → Text
  pub config_path : Option Text
  pub read_file : Fs → Result ObsctlError Text
  pub replace_file : Text → Fs → Result ObsctlError (Unit {0}) × Fs
  pub write_backup : Fs → Result ObsctlError (Unit {0}) × Fs
  -- `serde_yaml::from_str`, up to the `From` that the configuration names, and `to_string`
  pub from_yaml : Text → Result Text (ConfigDocument F)
  pub to_yaml : Config F → Result Text Text
  -- `ReconnectConfig::default()`
  pub default_reconnect : ReconnectConfig F
  pub environment : Environment
  pub socket_check : Option Text → Check
  pub pid : ℕ
  pub uptime_seconds : ℕ
  pub socket_path : Text
  pub now : ℕ

-- What commands read and change. The two channels are given by whether anyone still listens, and by
-- what was sent.
pub record Daemon (F J Fs : Type 0) : Type 0 where
  pub store : StateStore F J
  -- whether there is a client of OBS
  pub obs : Bool
  pub sent : List (RequestData F)
  pub config : Config F
  pub file : Fs
  pub clients : ℕ
  pub reconnecting : Bool
  pub supervised : Bool
  pub reconnects : ℕ
  pub watched : Bool
  pub shutdown : Bool

-- A handler's step: it returns or fails, and leaves a state either way.
abbrev pub Action : (F J Fs A : Type 0) → Type 0
Action F J Fs A = Daemon F J Fs → Result ObsctlError A × Daemon F J Fs

module _ {F J Fs : Type 0} where
  -- What follows a step is run on its value, an error leaves at once.
  abbrev pub resume :
      {A B : Type 0}
      → (A → Action F J Fs B)
      → Result ObsctlError A × Daemon F J Fs
      → Result ObsctlError B × Daemon F J Fs
  resume rest (ok a, d) = rest a d
  resume rest (err e, d) = (err e, d)

  infixl 5 ◌>>=◌ ◌>>◌
  unfoldable pub ◌>>=◌ : {A B : Type 0} → Action F J Fs A → (A → Action F J Fs B) → Action F J Fs B
  ◌>>=◌ step rest d = resume rest (step d)

  unfoldable pub ◌>>◌ : {A B : Type 0} → Action F J Fs A → Action F J Fs B → Action F J Fs B
  step >> rest = step >>= λ unused. rest

  -- A computation that touches no state.
  unfoldable pub lift : {A : Type 0} → Result ObsctlError A → Action F J Fs A
  lift r d = (r, d)

  unfoldable pub reads : {A : Type 0} → (Daemon F J Fs → A) → Action F J Fs A
  reads f d = (ok (f d), d)

  unfoldable pub changes : (Daemon F J Fs → Daemon F J Fs) → Action F J Fs (Unit {0})
  changes f d = (ok tt, f d)

  unfoldable pub require_obs : Action F J Fs (Unit {0})
  require_obs d = (if d.obs then ok tt else err obs_unavailable, d)

  module _ (s : Setup F J Fs) where
    -- `ObsClient::request`: the request is sent, and OBS answers.
    unfoldable pub request : RequestData F → Action F J Fs J
    request r d = (s.answer d.sent r, record d { sent = d.sent ++ r ∷ [] })

    abbrev pub log_target : Text
    log_target = text "obsctl_rs::server::command_executor"

    -- `ServerLog::info` and `ServerLog::warn`.
    unfoldable pub log : LogLine F → Daemon F J Fs → Daemon F J Fs
    log line d = record d {
      store = record store { hub = publish_log s.wire log_target line store.hub };
    }
      where
        open d use {store}

    unfoldable pub serialize_result : Reply F → Text → Result ObsctlError J
    serialize_result result label =
        map_err (λ e. obs_request_failed (cannot_serialize label e)) (s.to_value result)
