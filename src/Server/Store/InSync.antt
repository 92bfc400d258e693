-- ===== src/Server/Store/InSync.antt =====
-- src/server/state_store.rs: the snapshot and what the subscribers of the `state` topic were sent.
use obsctl_rs.Prelude.{
  ℕ, ◌≡◌, refl, sym, subst, Bool, true, Option, none, some, List, [], ◌∷◌, ◌++◌, ok, Bool-cases,
  inl, inr,
}
use obsctl_rs.Volume.{Floats}
use obsctl_rs.Obs.{ObsSnapshot}
use obsctl_rs.Server.Hub.{Hub, Wire, event, state, publish}
use obsctl_rs.Server.Apply.{apply_to_snapshot, mutate_snapshot}
use obsctl_rs.Server.Apply.Changes.{mutate_snapshot-false}
use obsctl_rs.Server.Store.{
  StateStore, broadcast, commit, apply_full_refresh, mark_connected, mark_disconnected, apply_event,
  update_stats, merge_config,
}
use obsctl_rs.Server.Store.Steps.{Write, receives, polls, step, run}

-- The last message of a channel.
unfoldable pub last_sent {ℓ} : {A : Type ℓ} → List A → Option A
last_sent [] = none
last_sent (x ∷ []) = some x
last_sent (x ∷ y ∷ rest) = last_sent (y ∷ rest)

last_sent-append {ℓ} : {A : Type ℓ} (xs : List A) (y : A) → last_sent (xs ++ y ∷ []) ≡ some y
unfolding last_sent
last_sent-append [] y = refl
last_sent-append (x ∷ []) y = refl
last_sent-append (x ∷ z ∷ rest) y = last_sent-append (z ∷ rest) y

module _ {F J : Type 0} (f : Floats F) (w : Wire F J) where
  -- The snapshot has a JSON value, and that was sent last.
  pub record InSync (store : StateStore F J) : Type 0 where
    pub value : J
    pub is_value : w.snapshot_value store.inner ≡ ok value
    pub is_last : last_sent store.hub.state_tx ≡ some (event state value)

  -- Every call publishes but an event that changes nothing.
  unfoldable pub publishes : Write F J → StateStore F J → Bool
  publishes (receives e) store = (mutate_snapshot f store.inner e).1
  publishes (polls m) store = true
  publishes call store = true

  -- Every snapshot has a JSON value.
  pub record CanSerialize : Type 0 where
    pub value : ObsSnapshot F → J
    pub is_value : (s : ObsSnapshot F) → w.snapshot_value s ≡ ok (value s)

  module _ (can : CanSerialize) where
    broadcast-last :
        (snapshot : ObsSnapshot F) (hub : Hub J)
        → last_sent (broadcast f w snapshot hub).state_tx ≡ some (event state (can.value snapshot))
    unfolding broadcast publish
    broadcast-last snapshot hub =
        rw (can.is_value snapshot, broadcast)
          (last_sent-append hub.state_tx (event state (can.value snapshot)))

    publishing :
        (snapshot : ObsSnapshot F) (hub : Hub J) (generation : ℕ)
        → InSync
            (record { inner = snapshot; hub = broadcast f w snapshot hub; generation = generation })
    publishing snapshot hub generation = record {
      value = can.value snapshot;
      is_value = can.is_value snapshot;
      is_last = broadcast-last snapshot hub;
    }

    receives-InSync :
        (e : _) (now : ℕ) (store : StateStore F J)
        → InSync store
        → InSync (apply_event f w e now store)
    unfolding apply_event apply_to_snapshot commit
    receives-InSync e now store h = elim (Bool-cases (mutate_snapshot f store.inner e).1) [
      | inl changed ↦ rw changed (publishing _ store.hub _)
      | inr same ↦ rw (same) (
          subst (λ s. InSync (record store { inner = s }))
            (sym (mutate_snapshot-false f store.inner e same)) h)
    ]

    -- If every snapshot can be serialized and the last message on the state topic describes the
    -- snapshot, then after every sequence of writes to the store the last message on the state
    -- topic describes the snapshot.
    pub run-InSync :
        (calls : List (ℕ × Write F J)) (store : StateStore F J)
        → InSync store
        → InSync (run f w calls store)
    unfolding run step commit apply_full_refresh mark_connected mark_disconnected update_stats
        merge_config
    run-InSync [] store h = h
    run-InSync ((now, receives e) ∷ calls) store h =
        run-InSync calls (apply_event f w e now store) (receives-InSync e now store h)
    run-InSync (c ∷ calls) store h = run-InSync calls (step f w c store) (publishing _ _ _)

    -- If every snapshot can be serialized, then after each write that publishes, the last message
    -- on the state topic describes the snapshot.
    pub step-InSync :
        (now : ℕ) (call : Write F J) (store : StateStore F J)
        → publishes call store ≡ true
        → InSync (step f w (now, call) store)
    unfolding publishes step commit apply_event apply_to_snapshot apply_full_refresh mark_connected
        mark_disconnected update_stats merge_config
    step-InSync now (receives e) store h = rw h (publishing _ store.hub _)
    step-InSync now (polls m) store h = publishing _ _ _
    step-InSync now call store h = publishing _ _ _
