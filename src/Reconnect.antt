-- ===== src/Reconnect.antt =====
-- src/runtime/reconnect_policy.rs: how long the daemon waits before it dials OBS again, and when it
-- gives up. The random slice of each delay is given.
pub mod Bounded
pub mod Delays
pub mod Tests
use obsctl_rs.Prelude.{
  ℕ, zero, suc, ◌+◌, ◌-◌, ◌^◌, Bool, true, false, not, ◌&&◌, ◌||◌, Option, none, some, ltb,
  if◌then◌else◌,
}
use obsctl_rs.Volume.{Floats}
use obsctl_rs.Config.{ReconnectConfig}

pub record ReconnectPolicy (F : Type 0) : Type 0 where
  pub config : ReconnectConfig F
  pub attempts : ℕ
  pub backoff_topped_out : Bool

unfoldable pub new_policy : {F : Type 0} → ReconnectConfig F → ReconnectPolicy F
new_policy config = record { config = config; attempts = 0; backoff_topped_out = false }

-- `u32::saturating_add(1)`.
unfoldable pub saturating_next : ℕ → ℕ
saturating_next n = if ltb (n + 1) (2 ^ 32) then n + 1 else 2 ^ 32 - 1

module _ {F : Type 0} (f : Floats F) where
  unfoldable pub capped : ReconnectConfig F → ℕ → F
  capped config attempts =
      f.min (f.times (f.from_integer config.initial_delay_ms) (f.powi config.multiplier attempts))
        (f.from_integer config.max_delay_ms)

  -- Whether the delay after so many attempts is the longest one.
  unfoldable pub tops_out : ReconnectConfig F → ℕ → Bool
  tops_out config attempts =
      f.le (f.from_integer config.max_delay_ms) (capped config attempts)
      || f.le config.multiplier (f.from_integer 1)

  -- `jitter` is the random number, of at most `jitter_ms`.
  unfoldable pub next_delay : ℕ → ReconnectPolicy F → ReconnectPolicy F × Option ℕ
  next_delay jitter policy =
      if not config.enabled
      then (policy, none)
      else if not config.endless && backoff_topped_out
      then (policy, none)
      else (
        record policy {
          attempts = saturating_next attempts;
          backoff_topped_out = tops_out config attempts;
        },
        some (f.to_u64 (f.plus (capped config attempts) (f.from_integer jitter))),
      )
    where
      open policy use {config, attempts, backoff_topped_out}

unfoldable pub reset : {F : Type 0} → ReconnectPolicy F → ReconnectPolicy F
reset policy = record policy { attempts = 0; backoff_topped_out = false }
