-- ===== src/Server/Executor/Tests/Codec.antt =====
-- A serialization of a configuration's document that is read back, for the examples: each part is written before
-- what follows it.
use obsctl_rs.Prelude.{
  ℕ, zero, suc, ◌≡◌, refl, ap, Bool, true, false, Option, none, some, List, [], ◌∷◌, map_some,
  and_then,
}
use obsctl_rs.Text.{Text}
use obsctl_rs.Config.{
  ConfigDocument, ServerConfig, ConnectionConfig, ReconnectConfig, UiConfig, CustomThemeConfig,
  SceneConfig, SceneProfileConfig, AudioConfig, AudioInputConfig, KeymapConfig,
}

pub record Codec (A : Type 0) : Type 0 where
  pub write : A → Text → Text
  pub read : Text → Option (A × Text)
  pub back : (a : A) (rest : Text) → read (write a rest) ≡ some (a, rest)

read_nat : Text → Option (ℕ × Text)
read_nat [] = none
read_nat (n ∷ rest) = some (n, rest)

abbrev nat : Codec ℕ
unfolding read_nat
nat = record { write = λ n rest. n ∷ rest; read = read_nat; back = λ n rest. refl }

module _ {A B : Type 0} where
  -- A part that is shown as another.
  via : Codec A → (f : B → A) (g : A → B) → ((b : B) → g (f b) ≡ b) → Codec B
  via c f g law = record {
    write = λ b rest. c.write (f b) rest;
    read = λ t. map_some (λ r. (g r.0, r.1)) (c.read t);
    back = λ b rest. rw (c.back (f b) rest) (ap (λ x. some (x, rest)) (law b));
  }

  pair : Codec A → Codec B → Codec (A × B)
  pair a b = record {
    write = λ p rest. a.write p.0 (b.write p.1 rest);
    read = λ t. and_then (a.read t) (λ r. map_some (λ q. ((r.0, q.0), q.1)) (b.read r.1));
    back = λ p rest. rw (a.back p.0 (b.write p.1 rest), b.back p.1 rest) refl;
  }

module _ {A : Type 0} (c : Codec A) where
  write_all : List A → Text → Text
  write_all [] rest = rest
  write_all (x ∷ xs) rest = c.write x (write_all xs rest)

  count : List A → ℕ
  count [] = 0
  count (x ∷ xs) = suc (count xs)

  read_all : ℕ → Text → Option (List A × Text)
  read_all zero t = some ([], t)
  read_all (suc n) t = and_then (c.read t) (λ r. map_some (λ q. (r.0 ∷ q.0, q.1)) (read_all n r.1))

  read_all_back :
      (xs : List A) (rest : Text) → read_all (count xs) (write_all xs rest) ≡ some (xs, rest)
  unfolding read_all count write_all
  read_all_back [] rest = refl
  read_all_back (x ∷ xs) rest = rw (c.back x (write_all xs rest), read_all_back xs rest) refl

  list : Codec (List A)
  unfolding nat read_all
  list = record {
    write = λ xs rest. count xs ∷ write_all xs rest;
    read = λ t. and_then (nat.read t) (λ r. read_all r.0 r.1);
    back = λ xs rest. read_all_back xs rest;
  }

  to_list : Option A → List A
  to_list none = []
  to_list (some a) = a ∷ []

  of_list : List A → Option A
  of_list [] = none
  of_list (x ∷ xs) = some x

  of_to : (o : Option A) → of_list (to_list o) ≡ o
  unfolding of_list to_list
  of_to none = refl
  of_to (some a) = refl

bit : Bool → ℕ
bit true = 1
bit false = 0

of_bit : ℕ → Bool
of_bit zero = false
of_bit (suc n) = true

of_bit-bit : (b : Bool) → of_bit (bit b) ≡ b
unfolding of_bit bit
of_bit-bit true = refl
of_bit-bit false = refl

bool : Codec Bool
bool = via nat bit of_bit of_bit-bit

option : {A : Type 0} → Codec A → Codec (Option A)
option c = via (list c) (to_list c) (of_list c) (of_to c)

words : Codec Text
words = list nat

optional_words : Codec (Option Text)
optional_words = option words

server : Codec ServerConfig
server =
    via (pair optional_words (pair optional_words (pair bool bool)))
      (λ s. (s.socket_path, (s.pid_file, (s.allow_remote_shutdown, s.start_embedded_if_missing))))
      (λ p. record {
        socket_path = p.0;
        pid_file = p.1.0;
        allow_remote_shutdown = p.1.1.0;
        start_embedded_if_missing = p.1.1.1;
      })
      (λ s. refl)

reconnect : Codec (ReconnectConfig ℕ)
reconnect =
    via (pair bool (pair bool (pair nat (pair nat (pair nat nat)))))
      (λ r. (
        r.enabled,
        (r.endless, (r.initial_delay_ms, (r.max_delay_ms, (r.multiplier, r.jitter_ms)))),
      ))
      (λ p. record {
        enabled = p.0;
        endless = p.1.0;
        initial_delay_ms = p.1.1.0;
        max_delay_ms = p.1.1.1.0;
        multiplier = p.1.1.1.1.0;
        jitter_ms = p.1.1.1.1.1;
      })
      (λ r. refl)

connection : Codec (ConnectionConfig ℕ)
connection =
    via
      (pair words
        (pair nat (pair words (pair nat (pair nat (pair optional_words (option reconnect)))))))
      (λ x. (
        x.host,
        (
          x.port,
          (
            x.password_env,
            (x.connect_timeout_ms, (x.request_timeout_ms, (x.password, x.reconnect))),
          ),
        ),
      ))
      (λ p. record {
        host = p.0;
        port = p.1.0;
        password_env = p.1.1.0;
        connect_timeout_ms = p.1.1.1.0;
        request_timeout_ms = p.1.1.1.1.0;
        password = p.1.1.1.1.1.0;
        reconnect = p.1.1.1.1.1.1;
      })
      (λ x. refl)

theme : Codec CustomThemeConfig
theme =
    via
      (pair optional_words (
        pair optional_words (
          pair optional_words (
            pair optional_words (
              pair optional_words (
                pair optional_words (
                  pair optional_words (
                    pair optional_words (
                      pair optional_words (
                        pair optional_words
                          (pair optional_words (pair optional_words optional_words))))))))))))
      (λ x. (
        x.bg,
        (
          x.accent,
          (
            x.accent_alt,
            (
              x.fg,
              (
                x.muted,
                (
                  x.border,
                  (
                    x.border_focus,
                    (
                      x.success,
                      (x.warning, (x.danger, (x.info, (x.highlight_bg, x.highlight_fg)))),
                    ),
                  ),
                ),
              ),
            ),
          ),
        ),
      ))
      (λ p. record {
        bg = p.0;
        accent = p.1.0;
        accent_alt = p.1.1.0;
        fg = p.1.1.1.0;
        muted = p.1.1.1.1.0;
        border = p.1.1.1.1.1.0;
        border_focus = p.1.1.1.1.1.1.0;
        success = p.1.1.1.1.1.1.1.0;
        warning = p.1.1.1.1.1.1.1.1.0;
        danger = p.1.1.1.1.1.1.1.1.1.0;
        info = p.1.1.1.1.1.1.1.1.1.1.0;
        highlight_bg = p.1.1.1.1.1.1.1.1.1.1.1.0;
        highlight_fg = p.1.1.1.1.1.1.1.1.1.1.1.1;
      })
      (λ x. refl)

ui : Codec UiConfig
ui =
    via
      (pair nat (
        pair words
          (pair bool (pair bool (pair bool (pair words (pair (option theme) optional_words)))))))
      (λ x. (
        x.refresh_interval_ms,
        (
          x.command_palette_prefix,
          (x.mouse, (x.advanced_ui, (x.show_icons, (x.theme, (x.custom_theme, x.locale))))),
        ),
      ))
      (λ p. record {
        refresh_interval_ms = p.0;
        command_palette_prefix = p.1.0;
        mouse = p.1.1.0;
        advanced_ui = p.1.1.1.0;
        show_icons = p.1.1.1.1.0;
        theme = p.1.1.1.1.1.0;
        custom_theme = p.1.1.1.1.1.1.0;
        locale = p.1.1.1.1.1.1.1;
      })
      (λ x. refl)

scene : Codec SceneConfig
scene =
    via
      (pair words
        (pair optional_words (pair optional_words (pair optional_words (pair bool bool)))))
      (λ x. (x.name, (x.alias, (x.shortcut, (x.group, (x.stale, x.hidden))))))
      (λ p. record {
        name = p.0;
        alias = p.1.0;
        shortcut = p.1.1.0;
        group = p.1.1.1.0;
        stale = p.1.1.1.1.0;
        hidden = p.1.1.1.1.1;
      })
      (λ x. refl)

profile : Codec SceneProfileConfig
profile =
    via (pair words (list words)) (λ x. (x.name, x.hidden))
      (λ p. record { name = p.0; hidden = p.1 }) (λ x. refl)

input : Codec AudioInputConfig
input =
    via (pair words (pair optional_words (pair optional_words (pair words bool))))
      (λ x. (x.name, (x.alias, (x.shortcut, (x.kind, x.stale)))))
      (λ p. record {
        name = p.0;
        alias = p.1.0;
        shortcut = p.1.1.0;
        kind = p.1.1.1.0;
        stale = p.1.1.1.1;
      })
      (λ x. refl)

audio : Codec AudioConfig
audio = via (list input) (λ x. x.inputs) (λ p. record { inputs = p }) (λ x. refl)

keymap : Codec KeymapConfig
keymap =
    via (pair (list words) (pair (list words) (pair (list words) (list words))))
      (λ x. (x.quit, (x.command_palette, (x.reload_config, x.dump_config))))
      (λ p. record {
        quit = p.0;
        command_palette = p.1.0;
        reload_config = p.1.1.0;
        dump_config = p.1.1.1;
      })
      (λ x. refl)

-- The whole document.
pub document : Codec (ConfigDocument ℕ)
document =
    via
      (pair nat (
        pair server (
          pair connection (
            pair (option reconnect) (
              pair ui (
                pair (list scene)
                  (pair (list profile) (pair optional_words (pair audio keymap)))))))))
      (λ x. (
        x.version,
        (
          x.server,
          (
            x.connection,
            (
              x.reconnect,
              (x.ui, (x.scenes, (x.scene_profiles, (x.active_scene_profile, (x.audio, x.keymap))))),
            ),
          ),
        ),
      ))
      (λ p. record {
        version = p.0;
        server = p.1.0;
        connection = p.1.1.0;
        reconnect = p.1.1.1.0;
        ui = p.1.1.1.1.0;
        scenes = p.1.1.1.1.1.0;
        scene_profiles = p.1.1.1.1.1.1.0;
        active_scene_profile = p.1.1.1.1.1.1.1.0;
        audio = p.1.1.1.1.1.1.1.1.0;
        keymap = p.1.1.1.1.1.1.1.1.1;
      })
      (λ x. refl)
