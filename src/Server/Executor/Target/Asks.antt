-- ===== src/Server/Executor/Target/Asks.antt =====
-- src/server/command_executor.rs: what a command that was answered without an error asked of OBS.
use obsctl_rs.Prelude.{
  ℕ, ◌≤◌, ◌≡◌, ap, ◌∙◌, true, false, none, some, List, [], ◌∷◌, ◌++◌, Result, ok, err, any,
  Bool-cases, inl, inr, ◌==◌, list_eq, nat_eq,
}
use obsctl_rs.Text.{Text, text}
use obsctl_rs.Errors.{ObsctlError, scene, audio_input}
use obsctl_rs.Names.{checked_name}
use obsctl_rs.Ipc.Commands.{
  ServerCommand, parse, set_scene, set_profile, set_scene_collection, mute, unmute, toggle_mute,
  set_volume, toggle_stream, toggle_record,
}
use obsctl_rs.Obs.Requests
use obsctl_rs.Obs.Requests.{
  RequestData, string, req, req_with, set_current_profile, set_current_scene_collection,
}
use obsctl_rs.Server.Projection.{scene_aliases, audio_aliases}
use obsctl_rs.Server.Hub.{response}
use obsctl_rs.Server.Args.{
  required_string, required_u8_percentage, parse_server_command, validate_payload,
}
use obsctl_rs.Server.Executor.{Setup, Daemon, request}
use obsctl_rs.Server.Executor.Control.{
  NamedSelection, profile, scene_collection, refuse_unknown, cmd_set_named_selection, toggle_output,
  cmd_toggle_stream, cmd_toggle_record,
}
use obsctl_rs.Server.Executor.Handle.{dispatch, execute, respond, handle}
use obsctl_rs.Server.Executor.Runs.{
  Runs, bind-Runs, lift-bind, lift-then, lift-Runs, require_obs-Runs, reads-bind, ask-Runs,
  request-Runs,
}
use obsctl_rs.Server.Executor.Target.{
  Names, named_request-Names, IsAsked, scene_question, mute_question, toggle_question,
  volume_question, multiplier, cmd_set_scene-IsAsked, cmd_set_mute-IsAsked, cmd_toggle_mute-IsAsked,
  cmd_set_volume-IsAsked,
}

abbrev profile_question : {F : Type 0} → Text → RequestData F
profile_question name = req_with (text "SetCurrentProfile") ((text "profileName", string name) ∷ [])

abbrev collection_question : {F : Type 0} → Text → RequestData F
collection_question name =
    req_with (text "SetCurrentSceneCollection") ((text "sceneCollectionName", string name) ∷ [])

module _ {F J Fs : Type 0} (s : Setup F J Fs) where
  -- One question was sent, about the target, which is one of the known names; nothing else changed.
  pub record IsSelected (known : List Text) (question : Text → RequestData F) (args : J)
      (d d' : Daemon F J Fs) : Type 0 where
    pub target : Text
    pub name : Text
    pub connected : d.obs ≡ true
    pub given : required_string s.json args (text "target") ≡ ok target
    pub listed : any (λ n. n == target) known ≡ true
    pub usable : checked_name target ≡ ok name
    pub sent : d' ≡ record d { sent = d.sent ++ question name ∷ [] }

  cmd_set_named_selection-IsSelected :
      (args : J) (selection : NamedSelection F) (question : Text → RequestData F)
      (d : Daemon F J Fs) (v : J) (d' : Daemon F J Fs)
      → ((name : Text) (q : RequestData F)
          → selection.build_request name ≡ ok q
          → Names question name q)
      → Runs (cmd_set_named_selection s args selection) d v d'
      → IsSelected (selection.known_names d.store.inner) question args d d'
  unfolding cmd_set_named_selection refuse_unknown
  cmd_set_named_selection-IsSelected args selection question d v d' good h =
      let (target, given, h1) = lift-bind (required_string s.json args _) _ d v d' h in
      let (there, h2) = require_obs-Runs _ d v d' h1 in
      let h3 = reads-bind (λ d. selection.known_names d.store.inner) _ d v d' h2 in
      let (_, known, h4) =
        lift-then (refuse_unknown s selection (selection.known_names d.store.inner) target) _ d v d'
          h3 in
      let (q, built, sent, _) = ask-Runs s (selection.build_request target) _ d v d' h4 in
      let (name, usable, same) = good target q built in
      record {
        target = target;
        name = name;
        connected = there;
        given = given;
        listed = elim (Bool-cases (any (λ n. n == target) (selection.known_names d.store.inner))) [
          | inl at ↦ at
          | inr absent ↦ cc (rw (absent, refuse_unknown) at known)
        ];
        usable = usable;
        sent = rw (← same) sent;
      }

  -- A question without a target was sent, and nothing else changed.
  pub record IsToggled (question : RequestData F) (d d' : Daemon F J Fs) : Type 0 where
    pub connected : d.obs ≡ true
    pub sent : d' ≡ record d { sent = d.sent ++ question ∷ [] }

  toggle_output-IsToggled :
      (question : RequestData F) (output : Text) (d : Daemon F J Fs) (v : J) (d' : Daemon F J Fs)
      → Runs (toggle_output s question output) d v d'
      → IsToggled question d d'
  unfolding toggle_output
  toggle_output-IsToggled question output d v d' h =
      let (there, h1) = require_obs-Runs _ d v d' h in
      let (result, d1, asked, h2) = bind-Runs (request s question) _ d v d' h1 in
      let (_, same) = lift-Runs _ d1 v d' h2 in
      record { connected = there; sent = same ∙ request-Runs s question d result d1 asked }

  -- What the commands that control OBS ask of it; of the others this says nothing.
  abbrev pub Asks : ServerCommand → J → Daemon F J Fs → Daemon F J Fs → Type 0
  Asks set_scene args d d' = IsAsked s scene (scene_aliases d.store.inner) scene_question args d d'
  Asks mute args d d' =
      IsAsked s audio_input (audio_aliases d.store.inner) (mute_question true) args d d'
  Asks unmute args d d' =
      IsAsked s audio_input (audio_aliases d.store.inner) (mute_question false) args d d'
  Asks toggle_mute args d d' =
      IsAsked s audio_input (audio_aliases d.store.inner) toggle_question args d d'
  Asks set_volume args d d' =
      (percent : ℕ) × (required_u8_percentage s.json args (text "percent") ≡ ok percent)
      × (percent ≤ 100)
      × IsAsked s audio_input (audio_aliases d.store.inner) (volume_question (multiplier s percent))
          args d d'
  Asks set_profile args d d' = IsSelected d.store.inner.profiles profile_question args d d'
  Asks set_scene_collection args d d' =
      IsSelected d.store.inner.scene_collections collection_question args d d'
  Asks toggle_stream args d d' = IsToggled (req (text "ToggleStream")) d d'
  Asks toggle_record args d d' = IsToggled (req (text "ToggleRecord")) d d'
  Asks _ args d d' = Unit

  dispatch-Asks :
      (c : ServerCommand) (args : J) (d : Daemon F J Fs) (v : J) (d' : Daemon F J Fs)
      → Runs (dispatch s c args) d v d'
      → Asks c args d d'
  unfolding dispatch cmd_toggle_stream cmd_toggle_record set_current_profile
      set_current_scene_collection Requests.toggle_stream Requests.toggle_record
  dispatch-Asks set_scene args d v d' h = cmd_set_scene-IsAsked s args d v d' h
  dispatch-Asks mute args d v d' h = cmd_set_mute-IsAsked s args true d v d' h
  dispatch-Asks unmute args d v d' h = cmd_set_mute-IsAsked s args false d v d' h
  dispatch-Asks toggle_mute args d v d' h = cmd_toggle_mute-IsAsked s args d v d' h
  dispatch-Asks set_volume args d v d' h = cmd_set_volume-IsAsked s args d v d' h
  dispatch-Asks set_profile args d v d' h =
      cmd_set_named_selection-IsSelected args profile profile_question d v d'
        (λ n. named_request-Names _ _ n) h
  dispatch-Asks set_scene_collection args d v d' h =
      cmd_set_named_selection-IsSelected args scene_collection collection_question d v d'
        (λ n. named_request-Names _ _ n) h
  dispatch-Asks toggle_stream args d v d' h = toggle_output-IsToggled _ _ d v d' h
  dispatch-Asks toggle_record args d v d' h = toggle_output-IsToggled _ _ d v d' h
  dispatch-Asks _ args d v d' h = tt

  respond-ok :
      (id : Text) (r : Result ObsctlError J) (v : J)
      → respond s id r ≡ response id true (some v) none
      → r ≡ ok v
  unfolding respond
  respond-ok id (ok w) v h = cc h
  respond-ok id (err e) v h = cc h

  execute-Asks :
      (name : Text) (args : J) (c : ServerCommand) (d : Daemon F J Fs) (v : J) (d' : Daemon F J Fs)
      → parse name ≡ some c
      → Runs (execute s name args) d v d'
      → (validate_payload s.json c args ≡ ok tt) × Asks c args d d'
  unfolding execute parse_server_command
  execute-Asks name args c d v d' known h =
      let (c', parsed, h1) = lift-bind (parse_server_command name) _ d v d' h in
      let same : c' ≡ c = cc (rw (known, parse_server_command) at parsed) in
      let (_, valid, h2) = lift-then (validate_payload s.json c' args) _ d v d' h1 in
      (rw same at valid, dispatch-Asks c args d v d' (rw same at h2))

  -- A known command that is answered without an error had a valid payload, and if it is one that
  -- asks OBS to change something, then OBS was connected, exactly one request was sent, nothing
  -- else of the daemon's state changed, and the request is the command's one: for a scene or an
  -- audio input, with the name of the entry that the target means (the first that is spelled so,
  -- else the only one whose alias, else whose name folds to it, else the scene of that row), and a
  -- volume of at most 100 percent; for a profile or a scene collection, with the checked name of
  -- one that the snapshot lists; for the stream and the recording, the toggle.
  pub handle-Asks :
      (id name : Text) (args : J) (c : ServerCommand) (d : Daemon F J Fs) (v : J)
      → parse name ≡ some c
      → (handle s (record { id = id; name = name; args = args }) d).0
        ≡ response id true (some v) none
      → (validate_payload s.json c args ≡ ok tt)
        × Asks c args d (handle s (record { id = id; name = name; args = args }) d).1
  unfolding handle
  handle-Asks id name args c d v known answered =
      let good = respond-ok id (execute s name args d).0 v answered in
      execute-Asks name args c d v (execute s name args d).1 known
        (ap (λ r. (r, (execute s name args d).1)) good)
