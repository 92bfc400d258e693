-- ===== src/Reconnect/Delays.antt =====
-- src/runtime/reconnect_policy.rs: which delays a policy hands out.
use obsctl_rs.Prelude.{
  ℕ, ◌-◌, ◌^◌, ◌<◌, ◌≡◌, ◌⊎◌, refl, true, false, arith, ltb, inl, inr, if◌then◌else◌,
}
use obsctl_rs.Volume.{Floats}
use obsctl_rs.Config.{ReconnectConfig}
use obsctl_rs.Reconnect.{ReconnectPolicy, tops_out}
use obsctl_rs.Reconnect.Bounded.{has_stopped}

-- The exponent of the delay after so many delays: their number, up to the largest of a `u32`.
unfoldable pub counted : ℕ → ℕ
counted n = if ltb n (2 ^ 32) then n else 2 ^ 32 - 1

module _ {F : Type 0} (f : Floats F) where
  -- The delay in milliseconds: the first one times so many multipliers, cut off at the longest, and the
  -- random slice, as an integer.
  unfoldable pub backoff : ReconnectConfig F → ℕ → ℕ → ℕ
  backoff config exponent jitter = f.to_u64 (
      f.plus
        (f.min
          (f.times (f.from_integer config.initial_delay_ms) (f.powi config.multiplier exponent))
          (f.from_integer config.max_delay_ms))
        (f.from_integer jitter))

  -- The policy is endless, or none of so many delays was the last one.
  abbrev pub Continues : ReconnectConfig F → ℕ → Type 0
  Continues config n = (config.endless ≡ true) ⊎ ((k : ℕ) → k < n → tops_out f config k ≡ false)

  running :
      (p : ReconnectPolicy F)
      → p.config.enabled ≡ true
      → (p.config.endless ≡ true) ⊎ (p.backoff_topped_out ≡ false)
      → has_stopped p ≡ false
  unfolding has_stopped
  running p on (inl endless) = rw (on, endless) refl
  running p on (inr lasts) = ground (arith, on, lasts)
