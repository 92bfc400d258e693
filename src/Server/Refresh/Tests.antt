-- ===== src/Server/Refresh/Tests.antt =====
-- The theorems about the refresh at the small store of the store's tests.
use obsctl_rs.Prelude.{ℕ, zero, suc, ◌≡◌, refl, true, false, none, [], ◌∷◌, ok, err, arith}
use obsctl_rs.Errors.{obs_unavailable}
use obsctl_rs.Server.Store.{mark_disconnected}
use obsctl_rs.Server.Store.Steps.{disconnects, receives}
use obsctl_rs.Server.Store.Consistent.{IsConsistent, IsWellFetched, default_snapshot-IsConsistent}
use obsctl_rs.Server.Fetch.{fetch_state}
use obsctl_rs.Server.Fetch.Tests.{json, request}
use obsctl_rs.Server.Refresh.Sound.{refresh_attempts-fetch_state}
use obsctl_rs.Server.Store.Tests.{
  versions, switch_scene, floats, wire, fresh, projection, refreshed,
}
use obsctl_rs.Server.Refresh.{Fetch, refresh_once, refresh_attempts, max_refresh_retries}
use obsctl_rs.Server.Refresh.Current.{Settles, HasRoom, refresh_attempts-Settles}
use obsctl_rs.Server.Refresh.Race.{refresh_once-disconnected}

abbrev overtaken : Fetch ℕ ℕ
overtaken = record {
  during = (4, disconnects (none)) ∷ [];
  fetched = ok refreshed;
  projection = projection;
  now = 5;
}

abbrev refused : Fetch ℕ ℕ
refused = record { during = []; fetched = err obs_unavailable; projection = projection; now = 6 }

refresh_once-disconnected_example :
    ((mark_disconnected floats wire none 4 fresh).inner.connected ≡ false)
    × ((refresh_once floats wire overtaken fresh).0.inner.connected ≡ true)
    × ((refresh_once floats wire overtaken fresh).1 ≡ ok true)
    × ((refresh_once floats wire refused
          (refresh_once floats wire overtaken fresh).0).0.inner.connected
        ≡ true)
refresh_once-disconnected_example =
    refresh_once-disconnected floats wire overtaken refused fresh 4 none refreshed obs_unavailable
      (omega arith) refl refl refl refl

-- The first fetch is overtaken, the later ones are not.
unfoldable fetches : ℕ → Fetch ℕ ℕ
fetches zero = overtaken
fetches (suc i) = record { during = []; fetched = ok refreshed; projection = projection; now = 7 }

fetches-HasRoom : HasRoom floats wire fetches
unfolding fetches
fetches-HasRoom zero = omega arith
fetches-HasRoom (suc i) = omega arith

refresh_attempts-Settles_example :
    Settles floats wire max_refresh_retries fetches fresh
      (refresh_attempts floats wire max_refresh_retries fetches fresh).0
      (refresh_attempts floats wire max_refresh_retries fetches fresh).1
refresh_attempts-Settles_example =
    refresh_attempts-Settles floats wire max_refresh_retries fetches fresh fetches-HasRoom
      (omega arith)

-- A refresh that is overtaken by the news of another scene, and asks OBS.
abbrev asks : ℕ → Fetch ℕ ℕ
asks i = record {
  during = (8, receives switch_scene) ∷ [];
  fetched = fetch_state json floats request versions;
  projection = projection;
  now = 9;
}

refresh_attempts-fetch_state_example :
    IsConsistent (refresh_attempts floats wire max_refresh_retries asks fresh).0.inner
unfolding IsWellFetched
refresh_attempts-fetch_state_example =
    refresh_attempts-fetch_state floats wire json (λ i. request) versions max_refresh_retries asks
      fresh (λ i. refl) (λ i. (tt, tt)) (default_snapshot-IsConsistent ℕ 0)
