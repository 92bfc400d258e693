-- ===== src/Server/Refresh/Current.antt =====
-- src/server/snapshot_refresh.rs: the outcomes of the loop of `refresh_until_current`.
use obsctl_rs.Prelude.{
  ℕ, zero, suc, ◌≤◌, ◌<◌, ◌≡◌, refl, ap, ◌∙◌, Bool, true, false, List, [], ◌∷◌, length, arith,
  Result, ok, err, Bool-cases, Result-cases, inl, inr, ltb,
}
use obsctl_rs.Errors.{ObsctlError}
use obsctl_rs.Volume.{Floats}
use obsctl_rs.Server.Hub.{Wire}
use obsctl_rs.Server.Projection.{RefreshedObsState, build_snapshot}
use obsctl_rs.Server.Store.{StateStore, generation_mod, apply_full_refresh, read_from, write_into}
use obsctl_rs.Server.Store.Steps.{Write, run, step}
use obsctl_rs.Server.Store.Generation.{count_commits, generation-run_lt, apply_full_refresh-stale}
use obsctl_rs.Server.Refresh.{Fetch, refresh_once, refresh_attempts}

module _ {F J : Type 0} (f : Floats F) (w : Wire F J) where
  -- A fetch that OBS answered, that no counted write overlapped, and that the snapshot shows.
  pub record IsCurrent (fetch : Fetch F J) (before after : StateStore F J) : Type 0 where
    pub refreshed : RefreshedObsState F
    pub answered : fetch.fetched ≡ ok refreshed
    pub quiet : count_commits f w fetch.during before ≡ 0
    pub shown :
        after.inner
        ≡ write_into
            (read_from (run f w fetch.during before).inner)
            (build_snapshot f refreshed fetch.projection fetch.now)

  count_commits-le :
      (calls : List (ℕ × Write F J)) (store : StateStore F J)
      → count_commits f w calls store ≤ length calls
  unfolding count_commits
  count_commits-le [] store = omega arith
  count_commits-le (c ∷ calls) store = ground (arith, count_commits-le calls (step f w c store))

  -- The store as the attempt of that number finds it.
  unfoldable pub store_before : ℕ → (ℕ → Fetch F J) → StateStore F J → StateStore F J
  store_before zero fetches store = store
  store_before (suc i) fetches store =
      store_before i (λ j. fetches (suc j)) (refresh_once f w (fetches 0) store).0

  -- The error of the attempt that failed, or the attempt that was current, or none.
  unfoldable pub Settles :
      ℕ → (ℕ → Fetch F J) → StateStore F J → StateStore F J → Result ObsctlError Bool → Type 0
  Settles n fetches store after (err e) = (i : ℕ) × (i < n) × ((fetches i).fetched ≡ err e)
  Settles n fetches store after (ok true) =
      (i : ℕ) × (i < n) × IsCurrent (fetches i) (store_before i fetches store) after
  Settles n fetches store after (ok false) =
      (i : ℕ) → i < n → 0 < count_commits f w (fetches i).during (store_before i fetches store)

  abbrev pub HasRoom : (ℕ → Fetch F J) → Type 0
  HasRoom fetches = (i : ℕ) → length (fetches i).during < generation_mod

  -- What a fetch that OBS answered publishes and reports.
  pub refresh_once-eq_ok :
      (fetch : Fetch F J) (store : StateStore F J) (r : RefreshedObsState F)
      → fetch.fetched ≡ ok r
      → refresh_once f w fetch store ≡ (
          let result =
            apply_full_refresh f w r fetch.projection store.generation fetch.now
              (run f w fetch.during store) in
          (result.0, ok result.1))
  unfolding refresh_once
  refresh_once-eq_ok fetch store r good = rw (good, refresh_once) refl

  pub refresh_once-eq_err :
      (fetch : Fetch F J) (store : StateStore F J) (e : ObsctlError)
      → fetch.fetched ≡ err e
      → refresh_once f w fetch store ≡ (run f w fetch.during store, err e)
  unfolding refresh_once
  refresh_once-eq_err fetch store e bad = rw (bad, refresh_once) refl

  refresh_once-generation :
      (fetch : Fetch F J) (store : StateStore F J)
      → store.generation < generation_mod
      → (refresh_once f w fetch store).0.generation < generation_mod
  unfolding apply_full_refresh
  refresh_once-generation fetch store h = elim (Result-cases fetch.fetched) [
    | inl (r, good) ↦
        rw (refresh_once-eq_ok fetch store r good) (generation-run_lt f w fetch.during store h)
    | inr (e, bad) ↦
        rw (refresh_once-eq_err fetch store e bad) (generation-run_lt f w fetch.during store h)
  ]

  Settles-suc :
      (n : ℕ) (fetches : ℕ → Fetch F J) (store after : StateStore F J)
      (outcome : Result ObsctlError Bool)
      → 0 < count_commits f w (fetches 0).during store
      → Settles n (λ i. fetches (suc i)) (refresh_once f w (fetches 0) store).0 after outcome
      → Settles (suc n) fetches store after outcome
  unfolding Settles store_before
  Settles-suc n fetches store after (err e) first (i, low, bad) = (suc i, omega arith, bad)
  Settles-suc n fetches store after (ok true) first (i, low, good) = (suc i, omega arith, good)
  Settles-suc n fetches store after (ok false) first h = λ i low.
      elim i
          as (λ k.
            k < suc n → 0 < count_commits f w (fetches k).during (store_before k fetches store)) [
              | zero ↦ λ _. first
              | suc j ↦ λ low. h j (omega arith)
            ]
        low

  attempts-failed :
      (n : ℕ) (fetches : ℕ → Fetch F J) (store : StateStore F J) (e : ObsctlError)
      → (refresh_once f w (fetches 0) store).1 ≡ err e
      → refresh_attempts f w (suc n) fetches store ≡ ((refresh_once f w (fetches 0) store).0, err e)
  unfolding refresh_attempts
  attempts-failed n fetches store e h = rw (h, refresh_attempts) refl

  attempts-done :
      (n : ℕ) (fetches : ℕ → Fetch F J) (store : StateStore F J)
      → (refresh_once f w (fetches 0) store).1 ≡ ok false
      → refresh_attempts f w (suc n) fetches store
        ≡ ((refresh_once f w (fetches 0) store).0, ok true)
  unfolding refresh_attempts
  attempts-done n fetches store h = rw (h, refresh_attempts) refl

  attempts-again :
      (n : ℕ) (fetches : ℕ → Fetch F J) (store : StateStore F J)
      → (refresh_once f w (fetches 0) store).1 ≡ ok true
      → refresh_attempts f w (suc n) fetches store
        ≡ refresh_attempts f w n (λ i. fetches (suc i)) (refresh_once f w (fetches 0) store).0
  unfolding refresh_attempts
  attempts-again n fetches store h = rw (h, refresh_attempts) refl

  -- A fetch is told that it is behind when a counted write overlapped it.
  pub refresh_once-behind :
      (fetch : Fetch F J) (store : StateStore F J) (r : RefreshedObsState F) (b : Bool)
      → fetch.fetched ≡ ok r
      → length fetch.during < generation_mod
      → store.generation < generation_mod
      → ltb 0 (count_commits f w fetch.during store) ≡ b
      → (refresh_once f w fetch store).1 ≡ ok b
  refresh_once-behind fetch store r b good room h e =
      ap (λ p. p.1) (refresh_once-eq_ok fetch store r good)
      ∙ ap ok (
          apply_full_refresh-stale f w store fetch.during r fetch.projection fetch.now h
            (ground (arith, count_commits-le fetch.during store))
          ∙ e)

  refresh_once-IsCurrent :
      (fetch : Fetch F J) (store : StateStore F J) (r : RefreshedObsState F)
      → fetch.fetched ≡ ok r
      → ltb 0 (count_commits f w fetch.during store) ≡ false
      → IsCurrent fetch store (refresh_once f w fetch store).0
  unfolding apply_full_refresh
  refresh_once-IsCurrent fetch store r good none_counted = record {
    refreshed = r;
    answered = good;
    quiet = ground arith;
    shown = ap (λ p. p.0.inner) (refresh_once-eq_ok fetch store r good);
  }

  Settles-failed :
      (n : ℕ) (fetches : ℕ → Fetch F J) (store after : StateStore F J) (e : ObsctlError)
      → (fetches 0).fetched ≡ err e
      → Settles (suc n) fetches store after (err e)
  unfolding Settles
  Settles-failed n fetches store after e bad = (0, omega arith, bad)

  Settles-done :
      (n : ℕ) (fetches : ℕ → Fetch F J) (store after : StateStore F J)
      → IsCurrent (fetches 0) store after
      → Settles (suc n) fetches store after (ok true)
  unfolding Settles store_before
  Settles-done n fetches store after current = (0, omega arith, current)

  -- Out of `n` attempts at a refresh, from a generation within range and with fewer than 2^64
  -- writes during each: an error is the error of one of the attempts; a success is an attempt that
  -- no counted write overlapped and whose answers the snapshot shows, with the poller's fields
  -- kept; and giving up means that a counted write overlapped every attempt.
  pub refresh_attempts-Settles :
      (n : ℕ) (fetches : ℕ → Fetch F J) (store : StateStore F J)
      → HasRoom fetches
      → store.generation < generation_mod
      → Settles n fetches store
          (refresh_attempts f w n fetches store).0
          (refresh_attempts f w n fetches store).1
  refresh_attempts-Settles zero fetches store room h =
      unfold refresh_attempts Settles in λ i low. omega arith
  refresh_attempts-Settles (suc n) fetches store room h =
      let after = (refresh_once f w (fetches 0) store).0 in
      let later =
        refresh_attempts-Settles n (λ i. fetches (suc i)) after (λ i. room (suc i))
          (refresh_once-generation (fetches 0) store h) in
      elim (Result-cases (fetches 0).fetched) [
        | inr (e, bad) ↦
            rw
              (attempts-failed n fetches store e
                (ap (λ p. p.1) (refresh_once-eq_err (fetches 0) store e bad)))
              (Settles-failed n fetches store after e bad)
        | inl (r, good) ↦ elim (Bool-cases (ltb 0 (count_commits f w (fetches 0).during store))) [
          | inl behind ↦
              rw
                (attempts-again n fetches store
                  (refresh_once-behind (fetches 0) store r true good (room 0) h behind))
                (Settles-suc n fetches store _ _ (ground arith) later)
          | inr quiet ↦
              rw
                (attempts-done n fetches store
                  (refresh_once-behind (fetches 0) store r false good (room 0) h quiet))
                (Settles-done n fetches store after
                  (refresh_once-IsCurrent (fetches 0) store r good quiet))
        ]
      ]
