-- ===== src/Server/Executor/Migrated.antt =====
-- src/config/model.rs: what becomes of the legacy section of a configuration that is written and read.
use obsctl_rs.Prelude.{◌≡◌, refl, subst, none, some, Result, ok, list_eq, nat_eq}
use obsctl_rs.Errors.{ObsctlError}
use obsctl_rs.Config.{Config, ConfigDocument, ReconnectConfig, from_document}

-- The document that a configuration is written as: its legacy section is skipped, and is absent when the
-- document is read.
unfoldable pub document_of : {F : Type 0} → Config F → ConfigDocument F
document_of config = record {
  version = config.version;
  server = config.server;
  connection = record connection { reconnect = none };
  reconnect = some config.reconnect;
  ui = config.ui;
  scenes = config.scenes;
  scene_profiles = config.scene_profiles;
  active_scene_profile = config.active_scene_profile;
  audio = config.audio;
  keymap = config.keymap;
}
  where
    open config use {connection}

-- The legacy section was moved, as it is when a configuration is loaded.
abbrev pub IsMigrated : {F : Type 0} → Config F → Type 0
IsMigrated config = config.connection.reconnect ≡ none

pub from_document-document_of :
    {F : Type 0} (default : ReconnectConfig F) (config : Config F)
    → IsMigrated config
    → from_document default (document_of config) ≡ config
unfolding from_document document_of
from_document-document_of default config h =
    subst
      (λ o. record config { connection = record (config.connection) { reconnect = o } } ≡ config) h
      refl

pub from_document-IsMigrated :
    {F : Type 0} (default : ReconnectConfig F) (document : ConfigDocument F)
    → IsMigrated (from_document default document)
unfolding from_document
from_document-IsMigrated default document = refl

-- An edit that leaves the section of the connection alone.
abbrev pub Keeps : {F B : Type 0} → (Config F → Result ObsctlError (Config F × B)) → Type 0
Keeps {F} {B} edit =
    (config config' : Config F) (out : B)
    → edit config ≡ ok (config', out)
    → config'.connection ≡ config.connection
