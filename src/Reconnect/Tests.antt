-- ===== src/Reconnect/Tests.antt =====
-- The policy with small numbers: a delay of 1 that doubles up to 4, over ℕ.
use obsctl_rs.Prelude.{ℕ, ◌≡◌, refl, true, false, none, some, arith}
use obsctl_rs.Config.{ReconnectConfig}
use obsctl_rs.Reconnect.{new_policy, capped, tops_out, next_delay, saturating_next}
use obsctl_rs.Reconnect.Bounded.{after, next_delay-bounded}
use obsctl_rs.Reconnect.Delays.{counted, backoff}
use obsctl_rs.Server.Store.Tests.{floats}

abbrev bounded : ReconnectConfig ℕ
bounded = record {
  enabled = true;
  endless = false;
  initial_delay_ms = 1;
  max_delay_ms = 4;
  multiplier = 2;
  jitter_ms = 0;
}

abbrev no_jitter : ℕ → ℕ
no_jitter n = 0

-- The third delay is the longest, and the last.
third : (next_delay floats 0 (after floats no_jitter 2 (new_policy bounded))).1 ≡ some 4
unfolding next_delay after new_policy capped tops_out saturating_next
third = refl

tops : tops_out floats bounded 2 ≡ true
unfolding tops_out capped
tops = refl

next_delay-bounded_example :
    (next_delay floats 0 (after floats no_jitter 3 (new_policy bounded))).1 ≡ none
next_delay-bounded_example = next_delay-bounded floats no_jitter 2 0 bounded refl (omega arith) tops

-- The third delay is one of four milliseconds.
third_backoff : backoff floats bounded (counted 2) 0 ≡ 4
unfolding backoff counted
third_backoff = refl
