-- ===== src/Ipc/Commands.antt =====
-- src/ipc/protocol.rs: the table of the commands that the daemon accepts.
pub mod Names
use obsctl_rs.Prelude.{
  map_some, unwrap_or, ℕ, ◌≡◌, ◌↔◌, ap, sym, ◌∙◌, refl, Bool, Option, none, some, List, [], ◌∷◌,
  find, get_elem?, PartialEq, ◌==◌, list_eq, nat_eq, same_nat, same_nat_iff,
}
use obsctl_rs.Text.{Text, text}

pub data ServerCommand : Type 0 where
  ping get_server_status get_obs_status get_snapshot : ServerCommand
  set_scene set_profile set_scene_collection mute : ServerCommand
  unmute toggle_mute set_volume validate_config : ServerCommand
  reload_config reconnect_obs shutdown_server dump_config : ServerCommand
  toggle_stream toggle_record set_scene_profile clear_scene_profile : ServerCommand
  save_scene_profile delete_scene_profile list_scene_profiles : ServerCommand

pub record CommandSpec : Type 0 where
  pub command : ServerCommand
  pub name : Text
  pub args : List Text
  pub optional : List Text

-- `RENAME_FROM`, the one argument that a command may leave out.
abbrev pub rename_from : Text
rename_from = text "rename_from"

abbrev target_only : List Text
target_only = text "target" ∷ []

-- A row of the table.
abbrev row : ServerCommand → Text → List Text → List Text → CommandSpec
row command name args optional = record {
  command = command;
  name = name;
  args = args;
  optional = optional;
}

-- `COMMANDS`.
abbrev pub commands : List CommandSpec
commands =
    row ping (text "ping") [] []
    ∷ row get_server_status (text "get_server_status") [] []
    ∷ row get_obs_status (text "get_obs_status") [] []
    ∷ row get_snapshot (text "get_snapshot") [] []
    ∷ row set_scene (text "set_scene") target_only []
    ∷ row set_profile (text "set_profile") target_only []
    ∷ row set_scene_collection (text "set_scene_collection") target_only []
    ∷ row mute (text "mute") target_only []
    ∷ row unmute (text "unmute") target_only []
    ∷ row toggle_mute (text "toggle_mute") target_only []
    ∷ row set_volume (text "set_volume") (text "target" ∷ text "percent" ∷ []) []
    ∷ row validate_config (text "validate_config") [] []
    ∷ row reload_config (text "reload_config") [] []
    ∷ row reconnect_obs (text "reconnect_obs") [] []
    ∷ row shutdown_server (text "shutdown_server") [] []
    ∷ row dump_config (text "dump_config") [] []
    ∷ row toggle_stream (text "toggle_stream") [] []
    ∷ row toggle_record (text "toggle_record") [] []
    ∷ row set_scene_profile (text "set_scene_profile") target_only []
    ∷ row clear_scene_profile (text "clear_scene_profile") [] []
    ∷ row save_scene_profile (text "save_scene_profile") (text "target" ∷ text "hidden" ∷ [])
        (rename_from ∷ [])
    ∷ row delete_scene_profile (text "delete_scene_profile") target_only []
    ∷ row list_scene_profiles (text "list_scene_profiles") [] []
    ∷ []

-- The derived `PartialEq`: the place of a constructor among the others.
abbrev pub place : ServerCommand → ℕ
place ping = 0
place get_server_status = 1
place get_obs_status = 2
place get_snapshot = 3
place set_scene = 4
place set_profile = 5
place set_scene_collection = 6
place mute = 7
place unmute = 8
place toggle_mute = 9
place set_volume = 10
place validate_config = 11
place reload_config = 12
place reconnect_obs = 13
place shutdown_server = 14
place dump_config = 15
place toggle_stream = 16
place toggle_record = 17
place set_scene_profile = 18
place clear_scene_profile = 19
place save_scene_profile = 20
place delete_scene_profile = 21
place list_scene_profiles = 22

listed_at : ServerCommand → Option ServerCommand
listed_at command = elim (get_elem? commands (place command)) [
  | none ↦ none
  | some spec ↦ some spec.command
]

listed_at_self : (c : ServerCommand) → listed_at c ≡ some c
unfolding listed_at
listed_at_self ping = refl
listed_at_self get_server_status = refl
listed_at_self get_obs_status = refl
listed_at_self get_snapshot = refl
listed_at_self set_scene = refl
listed_at_self set_profile = refl
listed_at_self set_scene_collection = refl
listed_at_self mute = refl
listed_at_self unmute = refl
listed_at_self toggle_mute = refl
listed_at_self set_volume = refl
listed_at_self validate_config = refl
listed_at_self reload_config = refl
listed_at_self reconnect_obs = refl
listed_at_self shutdown_server = refl
listed_at_self dump_config = refl
listed_at_self toggle_stream = refl
listed_at_self toggle_record = refl
listed_at_self set_scene_profile = refl
listed_at_self clear_scene_profile = refl
listed_at_self save_scene_profile = refl
listed_at_self delete_scene_profile = refl
listed_at_self list_scene_profiles = refl

pub place_injective : (a b : ServerCommand) → place a ≡ place b → a ≡ b
unfolding listed_at
place_injective a b h =
    let e : some a ≡ some b = sym (listed_at_self a) ∙ rw (h, listed_at) refl ∙ listed_at_self b in
    cc e

instance abbrev pub command_eq : PartialEq ServerCommand
command_eq = record {
  same = λ a b. same_nat (place a) (place b);
  sound = λ a b. (
    λ h. place_injective a b ((same_nat_iff (place a) (place b)).0 h),
    λ e. (same_nat_iff (place a) (place b)).1 (ap place e),
  );
}

-- `ServerCommand::spec`; the last row stands where `expect` would panic.
unfoldable pub spec : ServerCommand → CommandSpec
spec command = unwrap_or (find (λ s. s.command == command) commands) (row ping [] [] [])

unfoldable pub name : ServerCommand → Text
name command = (spec command).name

unfoldable pub required_args : ServerCommand → List Text
required_args command = (spec command).args

unfoldable pub optional_args : ServerCommand → List Text
optional_args command = (spec command).optional

unfoldable pub parse : Text → Option ServerCommand
parse wanted = map_some (λ s. s.command) (find (λ s. s.name == wanted) commands)
