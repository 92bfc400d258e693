-- ===== src/Config.antt =====
-- src/config/model.rs: the configuration, and the scene profile that it switches on. `F` is `f64`.
pub mod Dump
pub mod Schema
pub mod Tests
use obsctl_rs.Prelude.{
  unwrap_or, ℕ, Bool, true, false, Option, none, some, List, [], ◌∷◌, map, ok, err, find, ◌==◌,
  list_eq, nat_eq,
}
use obsctl_rs.Text.{Text, text}
use obsctl_rs.Names.{normalized_name}
use obsctl_rs.Visibility.{SceneVisibility, ActiveSceneProfile, no_profile, named, resolve}

pub record ServerConfig : Type 0 where
  pub socket_path : Option Text
  pub pid_file : Option Text
  pub allow_remote_shutdown : Bool
  pub start_embedded_if_missing : Bool

pub record ReconnectConfig (F : Type 0) : Type 0 where
  pub enabled : Bool
  pub endless : Bool
  pub initial_delay_ms : ℕ
  pub max_delay_ms : ℕ
  pub multiplier : F
  pub jitter_ms : ℕ

pub record ConnectionConfig (F : Type 0) : Type 0 where
  pub host : Text
  pub port : ℕ
  pub password_env : Text
  pub connect_timeout_ms : ℕ
  pub request_timeout_ms : ℕ
  pub password : Option Text
  pub reconnect : Option (ReconnectConfig F)

pub record CustomThemeConfig : Type 0 where
  pub bg : Option Text
  pub accent : Option Text
  pub accent_alt : Option Text
  pub fg : Option Text
  pub muted : Option Text
  pub border : Option Text
  pub border_focus : Option Text
  pub success : Option Text
  pub warning : Option Text
  pub danger : Option Text
  pub info : Option Text
  pub highlight_bg : Option Text
  pub highlight_fg : Option Text

pub record UiConfig : Type 0 where
  pub refresh_interval_ms : ℕ
  pub command_palette_prefix : Text
  pub mouse : Bool
  pub advanced_ui : Bool
  pub show_icons : Bool
  pub theme : Text
  pub custom_theme : Option CustomThemeConfig
  pub locale : Option Text

pub record SceneConfig : Type 0 where
  pub name : Text
  pub alias : Option Text
  pub shortcut : Option Text
  pub group : Option Text
  pub stale : Bool
  pub hidden : Bool

pub record SceneProfileConfig : Type 0 where
  pub name : Text
  pub hidden : List Text

pub record AudioInputConfig : Type 0 where
  pub name : Text
  pub alias : Option Text
  pub shortcut : Option Text
  pub kind : Text
  pub stale : Bool

pub record AudioConfig : Type 0 where
  pub inputs : List AudioInputConfig

pub record KeymapConfig : Type 0 where
  pub quit : List Text
  pub command_palette : List Text
  pub reload_config : List Text
  pub dump_config : List Text

pub record Config (F : Type 0) : Type 0 where
  pub version : ℕ
  pub server : ServerConfig
  pub connection : ConnectionConfig F
  pub reconnect : ReconnectConfig F
  pub ui : UiConfig
  pub scenes : List SceneConfig
  pub scene_profiles : List SceneProfileConfig
  pub active_scene_profile : Option Text
  pub audio : AudioConfig
  pub keymap : KeymapConfig

-- Whether a profile's name has the normalized form `wanted`.
unfoldable pub answers_to : Text → SceneProfileConfig → Bool
answers_to wanted profile = elim (normalized_name profile.name) [
  | ok name ↦ name == wanted
  | err e ↦ false
]

-- The profile that a name selects, if the configuration defines it.
unfoldable pub find_profile : List SceneProfileConfig → Option Text → Option SceneProfileConfig
find_profile profiles none = none
find_profile profiles (some selected) = elim (normalized_name selected) [
  | ok wanted ↦ find (answers_to wanted) profiles
  | err e ↦ none
]

-- `Config::active_scene_profile`.
unfoldable pub active_profile : {F : Type 0} → Config F → Option SceneProfileConfig
active_profile config = find_profile config.scene_profiles config.active_scene_profile

-- The first half of `Config::scene_visibility`.
unfoldable pub active_list : Option SceneProfileConfig → ActiveSceneProfile
active_list (some profile) = named profile.hidden
active_list none = no_profile

-- `Config::scene_visibility`.
unfoldable pub scene_visibility : {F : Type 0} → Config F → SceneVisibility
scene_visibility config =
    resolve (map (λ scene. (scene.name, scene.hidden)) config.scenes)
      (active_list (active_profile config))

-- The document that a configuration file is read into, before the legacy section is moved.
pub record ConfigDocument (F : Type 0) : Type 0 where
  pub version : ℕ
  pub server : ServerConfig
  pub connection : ConnectionConfig F
  pub reconnect : Option (ReconnectConfig F)
  pub ui : UiConfig
  pub scenes : List SceneConfig
  pub scene_profiles : List SceneProfileConfig
  pub active_scene_profile : Option Text
  pub audio : AudioConfig
  pub keymap : KeymapConfig

-- `Option::or`.
abbrev or_else : {A : Type 0} → Option A → Option A → Option A
or_else (some a) other = some a
or_else none other = other

-- `impl From<ConfigDocument> for Config`; `default` is `ReconnectConfig::default()`.
unfoldable pub from_document : {F : Type 0} → ReconnectConfig F → ConfigDocument F → Config F
from_document default document = record {
  version = document.version;
  server = document.server;
  connection = record connection { reconnect = none };
  reconnect = unwrap_or (or_else document.reconnect connection.reconnect) default;
  ui = document.ui;
  scenes = document.scenes;
  scene_profiles = document.scene_profiles;
  active_scene_profile = document.active_scene_profile;
  audio = document.audio;
  keymap = document.keymap;
}
  where
    open document use {connection}
