-- ===== src/Reconnect/Bounded.antt =====
-- src/runtime/reconnect_policy.rs: when a policy gives up.
use obsctl_rs.Prelude.{
  ℕ, zero, suc, ◌^◌, ◌<◌, ◌≡◌, refl, ap, ◌∙◌, Bool, true, false, not, ◌&&◌, ◌||◌, none, arith,
  Bool-cases, inl, inr,
}
use mathlib.Core.Path.{ap₂}
use obsctl_rs.Volume.{Floats}
use obsctl_rs.Config.{ReconnectConfig}
use obsctl_rs.Reconnect.{ReconnectPolicy, new_policy, saturating_next, tops_out, next_delay}

-- The policy hands out no more delays.
unfoldable pub has_stopped : {F : Type 0} → ReconnectPolicy F → Bool
has_stopped p = not p.config.enabled || (not p.config.endless && p.backoff_topped_out)

module _ {F : Type 0} (f : Floats F) where
  -- The policy after so many delays were asked for.
  unfoldable pub after : (ℕ → ℕ) → ℕ → ReconnectPolicy F → ReconnectPolicy F
  after jitters zero p = p
  after jitters (suc n) p = (next_delay f (jitters n) (after jitters n p)).0

  next_delay-stopped :
      (jitter : ℕ) (p : ReconnectPolicy F)
      → has_stopped p ≡ true
      → next_delay f jitter p ≡ (p, none)
  unfolding next_delay has_stopped
  next_delay-stopped jitter p h = ground arith

  stays-stopped :
      (jitter : ℕ) (p : ReconnectPolicy F)
      → has_stopped p ≡ true
      → has_stopped (next_delay f jitter p).0 ≡ true
  stays-stopped jitter p h = ap (λ r. has_stopped r.0) (next_delay-stopped jitter p h) ∙ h

  next_delay-config :
      (jitter : ℕ) (p : ReconnectPolicy F) → (next_delay f jitter p).0.config ≡ p.config
  unfolding next_delay
  next_delay-config jitter p = ground arith

  pub after-config :
      (jitters : ℕ → ℕ) (n : ℕ) (p : ReconnectPolicy F) → (after jitters n p).config ≡ p.config
  unfolding after
  after-config jitters zero p = refl
  after-config jitters (suc n) p =
      next_delay-config (jitters n) (after jitters n p) ∙ after-config jitters n p

  pub next_delay-running :
      (jitter : ℕ) (p : ReconnectPolicy F)
      → has_stopped p ≡ false
      → ((next_delay f jitter p).0.attempts ≡ saturating_next p.attempts)
        × ((next_delay f jitter p).0.backoff_topped_out ≡ tops_out f p.config p.attempts)
  unfolding next_delay has_stopped
  next_delay-running jitter p h = ground arith

  not_saturated : (n : ℕ) → suc n < 2 ^ 32 → saturating_next n ≡ suc n
  unfolding saturating_next
  not_saturated n h = ground arith

  -- A policy that has not stopped has counted every delay.
  attempts-after :
      (jitters : ℕ → ℕ) (n : ℕ) (config : ReconnectConfig F)
      → n < 2 ^ 32
      → has_stopped (after jitters n (new_policy config)) ≡ false
      → (after jitters n (new_policy config)).attempts ≡ n
  unfolding after new_policy
  attempts-after jitters zero config small h = refl
  attempts-after jitters (suc n) config small h =
      elim (Bool-cases (has_stopped (after jitters n (new_policy config)))) [
        | inl stopped ↦
            cc (h, stays-stopped (jitters n) (after jitters n (new_policy config)) stopped)
        | inr running ↦
            (next_delay-running (jitters n) (after jitters n (new_policy config)) running).0
            ∙ ap saturating_next (attempts-after jitters n config (omega arith) running)
            ∙ not_saturated n small
      ]

  topped-stops :
      (p : ReconnectPolicy F)
      → p.config.endless ≡ false
      → p.backoff_topped_out ≡ true
      → has_stopped p ≡ true
  unfolding has_stopped
  topped-stops p h k = ground arith

  after-stops :
      (jitters : ℕ → ℕ) (n : ℕ) (config : ReconnectConfig F)
      → config.endless ≡ false
      → n < 2 ^ 32
      → tops_out f config n ≡ true
      → has_stopped (after jitters (suc n) (new_policy config)) ≡ true
  unfolding after new_policy
  after-stops jitters n config bounded small top =
      elim (Bool-cases (has_stopped (after jitters n (new_policy config)))) [
        | inl stopped ↦ stays-stopped (jitters n) (after jitters n (new_policy config)) stopped
        | inr running ↦
            topped-stops (after jitters (suc n) (new_policy config))
              (ap (λ c. c.endless) (after-config jitters (suc n) (new_policy config)) ∙ bounded)
              ((next_delay-running (jitters n) (after jitters n (new_policy config)) running).1
                ∙ ap₂ (tops_out f) (after-config jitters n (new_policy config))
                    (attempts-after jitters n config small running)
                ∙ top)
      ]

  -- A policy that is not endless, whose delay after some number of attempts below 2^32 reaches the
  -- ceiling or whose multiplier is at most 1, answers no delay once it has been asked for one delay
  -- more than that number since it was made.
  pub next_delay-bounded :
      (jitters : ℕ → ℕ) (n jitter : ℕ) (config : ReconnectConfig F)
      → config.endless ≡ false
      → n < 2 ^ 32
      → tops_out f config n ≡ true
      → (next_delay f jitter (after jitters (suc n) (new_policy config))).1 ≡ none
  next_delay-bounded jitters n jitter config bounded small top =
      ap (λ r. r.1)
        (next_delay-stopped jitter (after jitters (suc n) (new_policy config))
          (after-stops jitters n config bounded small top))
