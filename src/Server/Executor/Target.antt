-- ===== src/Server/Executor/Target.antt =====
-- src/server/command_executor.rs: what the commands on a target ask of OBS.
pub mod Asks
use obsctl_rs.Prelude.{
  ℕ, ◌≤◌, ◌≡◌, refl, ap, sym, ◌∙◌, subst, Bool, true, false, Option, none, some, List, [], ◌∷◌,
  ◌++◌, Result, ok, err, arith, map_err, >>=-eq-ok, map_err-eq_ok, ok_injective, any, Bool-cases,
  inl, inr, not, ◌==◌, list_eq, nat_eq, if◌then◌else◌,
}
use obsctl_rs.Text.{Text, text}
use obsctl_rs.Errors.{ObsctlError, ResourceKind, scene, audio_input}
use obsctl_rs.Names.{
  normalized_name, checked_name, max_target_token_length, trim_and_validate_token_with_max_len,
}
use obsctl_rs.Aliases.{AliasEntry, resolve, resolve_audio, resolve_with}
use obsctl_rs.Aliases.Resolve.{Answers, resolve_with-Answers}
use obsctl_rs.Volume.{Floats, is_valid_multiplier, percent_to_mul}
use obsctl_rs.Ipc.Commands.{
  ServerCommand, set_scene, set_profile, set_scene_collection, mute, unmute, toggle_mute,
  set_volume, toggle_stream, toggle_record,
}
use obsctl_rs.Obs.Requests
use obsctl_rs.Obs.Requests.{
  RequestData, Field, string, flag, number, req, req_with, validate_name, named_request,
  set_current_program_scene, set_input_mute, toggle_input_mute, set_input_volume,
}
use obsctl_rs.Server.Projection.{scene_aliases, audio_aliases}
use obsctl_rs.Server.Args.{required_string, required_u8_percentage}
use obsctl_rs.Server.Args.Checked.{required_u8_percentage-le}
use obsctl_rs.Server.Executor.{
  Reply, Setup, Daemon, Action, ◌>>=◌, ◌>>◌, lift, reads, require_obs, request,
}
use obsctl_rs.Server.Executor.Control.{
  cmd_set_scene, resolve_audio_target, cmd_set_mute, cmd_toggle_mute, cmd_set_volume,
}
use obsctl_rs.Server.Executor.Runs.{
  Runs, bind-Runs, lift-bind, lift-Runs, require_obs-Runs, reads-bind, ask-Runs,
}

-- The questions, as obs-websocket defines them.
abbrev pub scene_question : {F : Type 0} → Text → RequestData F
scene_question name =
    req_with (text "SetCurrentProgramScene") ((text "sceneName", string name) ∷ [])

abbrev pub mute_question : {F : Type 0} → Bool → Text → RequestData F
mute_question muted name =
    req_with (text "SetInputMute")
      ((text "inputName", string name) ∷ (text "inputMuted", flag muted) ∷ [])

abbrev pub toggle_question : {F : Type 0} → Text → RequestData F
toggle_question name = req_with (text "ToggleInputMute") ((text "inputName", string name) ∷ [])

abbrev pub volume_question : {F : Type 0} → F → Text → RequestData F
volume_question mul name =
    req_with (text "SetInputVolume")
      ((text "inputName", string name) ∷ (text "inputVolumeMul", number mul) ∷ [])

validate_name-eq_ok :
    (name field checked : Text)
    → validate_name name field ≡ ok checked
    → checked_name name ≡ ok checked
unfolding validate_name checked_name
validate_name-eq_ok name field checked h =
    map_err-eq_ok _ (trim_and_validate_token_with_max_len name max_target_token_length) checked h

-- A question about a name that passed the check.
abbrev pub Names : {F : Type 0} → (Text → RequestData F) → Text → RequestData F → Type 0
Names question name q = (checked : Text) × (checked_name name ≡ ok checked) × (q ≡ question checked)

module _ {F : Type 0} where
  pub named_request-Names :
      (request_type field name : Text) (q : RequestData F)
      → named_request request_type field name ≡ ok q
      → Names (λ n. req_with request_type ((field, string n) ∷ [])) name q
  unfolding named_request
  named_request-Names request_type field name q h =
      let (checked, good, h1) = >>=-eq-ok (validate_name name field) _ h in
      (checked, validate_name-eq_ok name field checked good, sym (ok_injective _ _ h1))

  set_current_program_scene-Names :
      (name : Text) (q : RequestData F)
      → set_current_program_scene name ≡ ok q
      → Names scene_question name q
  unfolding set_current_program_scene
  set_current_program_scene-Names name q h = named_request-Names _ _ name q h

  toggle_input_mute-Names :
      (name : Text) (q : RequestData F)
      → toggle_input_mute name ≡ ok q
      → Names toggle_question name q
  unfolding toggle_input_mute
  toggle_input_mute-Names name q h = named_request-Names _ _ name q h

  set_input_mute-Names :
      (name : Text) (muted : Bool) (q : RequestData F)
      → set_input_mute name muted ≡ ok q
      → Names (mute_question muted) name q
  unfolding set_input_mute
  set_input_mute-Names name muted q h =
      let (checked, good, h1) = >>=-eq-ok (validate_name name _) _ h in
      (checked, validate_name-eq_ok name _ checked good, sym (ok_injective _ _ h1))

  set_input_volume-Names :
      (f : Floats F) (name : Text) (mul : F) (q : RequestData F)
      → set_input_volume f name mul ≡ ok q
      → (is_valid_multiplier f mul ≡ true) × Names (volume_question mul) name q
  unfolding set_input_volume
  set_input_volume-Names f name mul q h = elim (Bool-cases (is_valid_multiplier f mul)) [
    | inr bad ↦ cc (rw bad at h)
    | inl fine ↦
        (let (checked, good, h1) = >>=-eq-ok (validate_name name _) _ (rw fine at h) in
          (fine, (checked, validate_name-eq_ok name _ checked good, sym (ok_injective _ _ h1))))
  ]

module _ {F J Fs : Type 0} (s : Setup F J Fs) where
  -- One question was sent, about the entry of a table that the command's target means, and nothing
  -- else changed.
  pub record IsAsked (kind : ResourceKind) (table : List AliasEntry)
      (question : Text → RequestData F) (args : J) (d d' : Daemon F J Fs) : Type 0 where
    pub target : Text
    pub folded : Text
    pub entry : AliasEntry
    pub name : Text
    pub connected : d.obs ≡ true
    pub given : required_string s.json args (text "target") ≡ ok target
    pub normal : normalized_name target ≡ ok folded
    pub answers : Answers target folded kind table entry
    pub usable : checked_name entry.name ≡ ok name
    pub sent : d' ≡ record d { sent = d.sent ++ question name ∷ [] }

  -- The end of a command about a name that its target means.
  asked :
      (kind : ResourceKind) (table : List AliasEntry) (question : Text → RequestData F) (args : J)
      (build : Text → Result ObsctlError (RequestData F)) (answer : J) (d : Daemon F J Fs) (v : J)
      (d' : Daemon F J Fs) (target : Text) (entry : AliasEntry) (obs_name : Text)
      → ((name : Text) (q : RequestData F) → build name ≡ ok q → Names question name q)
      → d.obs ≡ true
      → required_string s.json args (text "target") ≡ ok target
      → resolve_with target table kind ≡ ok entry
      → entry.name ≡ obs_name
      → Runs (lift (build obs_name) >>= λ q. request s q >> lift (ok answer)) d v d'
      → IsAsked kind table question args d d'
  asked kind table question args build answer d v d' target entry obs_name good there given found
        named h =
      let (q, built, sent, _) = ask-Runs s (build obs_name) answer d v d' h in
      let (name, usable, same) = good obs_name q built in
      let (folded, normal, answers) = resolve_with-Answers target table kind entry found in
      record {
        target = target;
        folded = folded;
        entry = entry;
        name = name;
        connected = there;
        given = given;
        normal = normal;
        answers = answers;
        usable = rw named usable;
        sent = rw (← same) sent;
      }

  pub cmd_set_scene-IsAsked :
      (args : J) (d : Daemon F J Fs) (v : J) (d' : Daemon F J Fs)
      → Runs (cmd_set_scene s args) d v d'
      → IsAsked scene (scene_aliases d.store.inner) scene_question args d d'
  unfolding cmd_set_scene resolve
  cmd_set_scene-IsAsked args d v d' h =
      let (target, given, h1) = lift-bind (required_string s.json args _) _ d v d' h in
      let (there, h2) = require_obs-Runs _ d v d' h1 in
      let h3 = reads-bind (λ d. scene_aliases d.store.inner) _ d v d' h2 in
      let (entry, found, h4) =
        lift-bind (resolve target (scene_aliases d.store.inner)) _ d v d' h3 in
      asked scene _ scene_question args set_current_program_scene _ d v d' target entry entry.name
        set_current_program_scene-Names there given found refl h4

  -- The audio commands, after their check that OBS is there.
  audio-IsAsked :
      (question : Text → RequestData F) (args : J)
      (build : Text → Result ObsctlError (RequestData F)) (answer : Text → J) (d : Daemon F J Fs)
      (v : J) (d' : Daemon F J Fs)
      → ((name : Text) (q : RequestData F) → build name ≡ ok q → Names question name q)
      → Runs
          (require_obs
            >> (resolve_audio_target s args >>= λ obs_name.
                lift (build obs_name) >>= λ q. request s q >> lift (ok (answer obs_name))))
          d
          v
          d'
      → IsAsked audio_input (audio_aliases d.store.inner) question args d d'
  unfolding resolve_audio_target resolve_audio
  audio-IsAsked question args build answer d v d' good h =
      let (there, h1) = require_obs-Runs _ d v d' h in
      let (obs_name, d1, named, h2) = bind-Runs (resolve_audio_target s args) _ d v d' h1 in
      let (target, given, n1) = lift-bind (required_string s.json args _) _ d obs_name d1 named in
      let n2 = reads-bind (λ d. audio_aliases d.store.inner) _ d obs_name d1 n1 in
      let (entry, found, n3) =
        lift-bind (resolve_audio target (audio_aliases d.store.inner)) _ d obs_name d1 n2 in
      let (same_name, same) = lift-Runs (ok entry.name) d obs_name d1 n3 in
      asked audio_input _ question args build (answer obs_name) d v d' target entry obs_name good
        there given found (ok_injective _ _ same_name) (rw same at h2)

  pub cmd_set_mute-IsAsked :
      (args : J) (muted : Bool) (d : Daemon F J Fs) (v : J) (d' : Daemon F J Fs)
      → Runs (cmd_set_mute s args muted) d v d'
      → IsAsked audio_input (audio_aliases d.store.inner) (mute_question muted) args d d'
  unfolding cmd_set_mute
  cmd_set_mute-IsAsked args muted d v d' h =
      audio-IsAsked (mute_question muted) args (λ n. set_input_mute n muted)
        (λ n. s.reply_value (Reply.mute_set muted n)) d v d' (λ n. set_input_mute-Names n muted) h

  pub cmd_toggle_mute-IsAsked :
      (args : J) (d : Daemon F J Fs) (v : J) (d' : Daemon F J Fs)
      → Runs (cmd_toggle_mute s args) d v d'
      → IsAsked audio_input (audio_aliases d.store.inner) toggle_question args d d'
  unfolding cmd_toggle_mute
  cmd_toggle_mute-IsAsked args d v d' h =
      audio-IsAsked toggle_question args toggle_input_mute
        (λ n. s.reply_value (Reply.mute_toggled n)) d v d' toggle_input_mute-Names h

  -- The multiplier of a percentage.
  abbrev pub multiplier : ℕ → F
  multiplier percent = percent_to_mul s.floats percent

  pub cmd_set_volume-IsAsked :
      (args : J) (d : Daemon F J Fs) (v : J) (d' : Daemon F J Fs)
      → Runs (cmd_set_volume s args) d v d'
      → (percent : ℕ) × (required_u8_percentage s.json args (text "percent") ≡ ok percent)
        × (percent ≤ 100)
        × IsAsked audio_input
            (audio_aliases d.store.inner)
            (volume_question (multiplier percent))
            args
            d
            d'
  unfolding cmd_set_volume
  cmd_set_volume-IsAsked args d v d' h =
      let (percent, given, h1) = lift-bind (required_u8_percentage s.json args _) _ d v d' h in
      (
        percent,
        given,
        required_u8_percentage-le s.json args _ percent given,
        audio-IsAsked (volume_question (multiplier percent)) args
            (λ n. set_input_volume s.floats n (multiplier percent))
            (λ n. s.reply_value (Reply.volume_set percent n)) d v d'
            (λ n q built. (set_input_volume-Names s.floats n (multiplier percent) q built).1) h1,
      )
