-- ===== src/Server/Hub.antt =====
-- `BroadcastHub` of src/ipc/session.rs, and the messages of src/ipc/protocol.rs that the server
-- publishes. A channel is the list of what was sent on it, oldest first; who listens does not matter
-- to the sender. JSON values and their making are a parameter.
use obsctl_rs.Prelude.{Bool, Option, List, [], ◌∷◌, ◌++◌, Result, ok, err}
use obsctl_rs.Text.{Text, text}
use obsctl_rs.Obs.{ObsSnapshot}
use obsctl_rs.Server.Adapter.{ObsEventPayload, LogLine}

pub data Topic : Type 0 where
  state events logs : Topic

pub data ServerMessage (J : Type 0) : Type 0 where
  response : Text → Bool → Option J → Option (Text × Text) → ServerMessage J
  event : Topic → J → ServerMessage J

-- `serde_json::to_value` on the types that are published: a value, or an error's text. A line of the
-- log is made into a `LogEvent`, with its secrets redacted, on the way.
pub record Wire (F J : Type 0) : Type 0 where
  pub snapshot_value : ObsSnapshot F → Result Text J
  pub payload_value : ObsEventPayload F → Result Text J
  pub log_value : Text → LogLine F → Result Text J
  -- the object that reports a failed serialization of what the label names
  pub error_value : Text → Text → J

pub record Hub (J : Type 0) : Type 0 where
  pub state_tx : List (ServerMessage J)
  pub events_tx : List (ServerMessage J)
  pub logs_tx : List (ServerMessage J)

unfoldable pub new_hub : {J : Type 0} → Hub J
new_hub = record { state_tx = []; events_tx = []; logs_tx = [] }

unfoldable pub publish : {J : Type 0} → Topic → ServerMessage J → Hub J → Hub J
publish state message hub = record hub { state_tx = hub.state_tx ++ message ∷ [] }
publish events message hub = record hub { events_tx = hub.events_tx ++ message ∷ [] }
publish logs message hub = record hub { logs_tx = hub.logs_tx ++ message ∷ [] }

module _ {F J : Type 0} (w : Wire F J) where
  unfoldable pub serialize_payload : Result Text J → Text → J
  serialize_payload (ok value) label = value
  serialize_payload (err error) label = w.error_value label error

  unfoldable pub publish_obs_event : ObsEventPayload F → Hub J → Hub J
  publish_obs_event payload hub =
      publish events
        (event events (serialize_payload (w.payload_value payload) (text "ObsEventPayload"))) hub

  unfoldable pub publish_log : Text → LogLine F → Hub J → Hub J
  publish_log target line hub =
      publish logs (event logs (serialize_payload (w.log_value target line) (text "LogEvent"))) hub
