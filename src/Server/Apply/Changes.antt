-- ===== src/Server/Apply/Changes.antt =====
-- src/server/state_store.rs: the answer of `mutate_snapshot` against the snapshot that it leaves.
use obsctl_rs.Prelude.{
  Bool, true, false, some, List, [], ◌∷◌, find, retain, length, PartialEq, ◌==◌, ==_iff, list_eq,
  nat_eq, option_eq, bool_eq, ◌≡◌, ◌≢◌, refl, ap, sym, arith, ◌≤◌, Bool-cases, inl, inr,
}
use obsctl_rs.Text.{Text}
use obsctl_rs.Volume.{Floats}
use obsctl_rs.Obs.{
  AudioState, ObsSnapshot, set_level_with_db, ObsEvent, current_program_scene_changed,
  input_created, input_removed, input_mute_state_changed, input_volume_changed,
  stream_state_changed, record_state_changed, current_profile_changed,
  current_scene_collection_changed,
}
use obsctl_rs.Server.Apply.{
  set_if_changed, update_first, program_scene_changed, has_name, add_input, remove_input, set_muted,
  input_mute_changed, relevel, volume_changed, mutate_snapshot,
}

module _ {ℓ} {A : Type ℓ} where
  length-retain-le : (p : A → Bool) (xs : List A) → length (retain p xs) ≤ length xs
  unfolding retain
  length-retain-le p [] = omega arith
  length-retain-le p (x ∷ xs) = ground (arith, length-retain-le p xs)

  -- A list that keeps its length keeps its items.
  retain-eq_self :
      (p : A → Bool) (xs : List A) → length (retain p xs) ≡ length xs → retain p xs ≡ xs
  unfolding retain
  retain-eq_self p [] h = refl
  retain-eq_self p (x ∷ xs) h = ground (arith, retain-eq_self p xs, length-retain-le p xs)

  update_first-false :
      (p : A → Bool) (change : A → A × Bool) (xs : List A)
      → ((x : A) → (change x).1 ≡ false → (change x).0 ≡ x)
      → (update_first p change xs).1 ≡ false
      → (update_first p change xs).0 ≡ xs
  unfolding update_first
  update_first-false p change [] still h = refl
  update_first-false p change (x ∷ xs) still h =
      ground (arith, still x, update_first-false p change xs still)

set_if_changed-false {ℓ} :
    {A : Type ℓ} ⦃d : PartialEq A⦄ (slot next : A)
    → (set_if_changed slot next).1 ≡ false
    → (set_if_changed slot next).0 ≡ slot
unfolding set_if_changed
set_if_changed-false slot next h = ground arith

set_if_changed-true {ℓ} :
    {A : Type ℓ} ⦃d : PartialEq A⦄ (slot next : A)
    → (set_if_changed slot next).1 ≡ true
    → (set_if_changed slot next).0 ≢ slot
unfolding set_if_changed
set_if_changed-true slot next h = elim (Bool-cases (slot == next)) [
  | inl same ↦ cc (rw same at h)
  | inr new ↦ rw new (λ p. cc (new, (==_iff slot next).1 (sym p)))
]

module _ {F : Type 0} (f : Floats F) where
  set_muted-false :
      (muted : Bool) (input : AudioState F)
      → (set_muted muted input).1 ≡ false
      → (set_muted muted input).0 ≡ input
  unfolding set_muted
  set_muted-false muted input h =
      ap (λ m. record input { muted = m }) (set_if_changed-false input.muted (some muted) h)

  -- When folding an event into a snapshot answers that nothing changed, the snapshot is the one
  -- that it was.
  pub mutate_snapshot-false :
      {J : Type 0} (s : ObsSnapshot F) (event : ObsEvent F J)
      → (mutate_snapshot f s event).1 ≡ false
      → (mutate_snapshot f s event).0 ≡ s
  unfolding mutate_snapshot program_scene_changed add_input remove_input input_mute_changed
      volume_changed
  mutate_snapshot-false s (current_program_scene_changed n) h = ground arith
  mutate_snapshot-false s (input_created n) h = ground arith
  mutate_snapshot-false s (input_removed n) h =
      ap (λ l. record s { audio_inputs = l }) (retain-eq_self _ s.audio_inputs (ground arith))
  mutate_snapshot-false s (input_mute_state_changed n m) h =
      ap (λ l. record s { audio_inputs = l })
        (update_first-false _ _ s.audio_inputs (set_muted-false m) h)
  mutate_snapshot-false s (input_volume_changed n mul db) h =
      ap (λ l. record s { audio_inputs = l })
        (update_first-false (has_name n) (relevel f mul db) s.audio_inputs
          (λ x e. unfold relevel in cc e) h)
  mutate_snapshot-false s (stream_state_changed a) h =
      ap (λ v. record s { streaming = v }) (set_if_changed-false s.streaming a h)
  mutate_snapshot-false s (record_state_changed a) h =
      ap (λ v. record s { recording = v }) (set_if_changed-false s.recording a h)
  mutate_snapshot-false s (current_profile_changed n) h =
      ap (λ v. record s { current_profile = v }) (set_if_changed-false s.current_profile (some n) h)
  mutate_snapshot-false s (current_scene_collection_changed n) h =
      ap (λ v. record s { current_scene_collection = v })
        (set_if_changed-false s.current_scene_collection (some n) h)
  mutate_snapshot-false s _ h = refl

  -- The first input of that name, if its level is already the one that OBS reports.
  level_restated :
      (n : Text) (mul db : F) (xs : List (AudioState F)) (a : AudioState F)
      → find (has_name n) xs ≡ some a
      → set_level_with_db f mul db a ≡ a
      → update_first (has_name n) (relevel f mul db) xs ≡ (xs, true)
  unfolding find update_first relevel
  level_restated n mul db [] a here same = cc here
  level_restated n mul db (x ∷ xs) a here same = ground (arith, level_restated n mul db xs a)

  -- If the first input of a name already has the level of a volume event, folding the event into
  -- the snapshot answers that something changed, and leaves the snapshot as it was.
  pub volume_restated :
      (J : Type 0) (s : ObsSnapshot F) (n : Text) (mul db : F) (a : AudioState F)
      → find (has_name n) s.audio_inputs ≡ some a
      → set_level_with_db f mul db a ≡ a
      → mutate_snapshot f {J = J} s (input_volume_changed n mul db) ≡ (s, true)
  unfolding mutate_snapshot volume_changed
  volume_restated J s n mul db a here same =
      rw (level_restated n mul db s.audio_inputs a here same) refl
