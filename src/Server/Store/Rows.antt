-- ===== src/Server/Store/Rows.antt =====
-- src/server/state_store.rs: the scenes' flags and the inputs' names, under the changes of one row.
use obsctl_rs.Prelude.{
  ◌≡◌, refl, ap, Bool, false, Option, some, List, [], ◌∷◌, ◌++◌, map, any, retain, arith, All, ◌==◌,
  ==_iff, option_eq, list_eq, nat_eq, Bool-cases, inl, inr,
}
use obsctl_rs.Text.{Text}
use obsctl_rs.Obs.{SceneState, AudioState}
use obsctl_rs.Server.Projection.{
  ConfigProjection, build_scene, apply_scene_config, apply_audio_config,
}
use obsctl_rs.Server.Apply.{update_first, mark_active, has_name}
use obsctl_rs.Server.Store.{merge_scene, merge_input}

-- The scene's flag says whether it is the current one.
abbrev pub IsMarked : Option Text → SceneState → Type 0
IsMarked current s = s.active ≡ (current == some s.name)

abbrev pub AreMarked : Option Text → List SceneState → Type 0
AreMarked current = All (IsMarked current)

-- The names of the inputs.
unfoldable pub input_names : {F : Type 0} → List (AudioState F) → List Text
input_names inputs = map (λ a. a.name) inputs

abbrev pub IsDistinct : List Text → Type 0
IsDistinct [] = Unit
IsDistinct (x ∷ xs) = (any (λ y. y == x) xs ≡ false) × IsDistinct xs

pub AreMarked-mark_active :
    (n : Text) (xs : List SceneState) → AreMarked (some n) (map (mark_active n) xs)
unfolding mark_active
AreMarked-mark_active n [] = tt
AreMarked-mark_active n (x ∷ xs) =
    (ground (arith, ==_iff x.name n, ==_iff n x.name), AreMarked-mark_active n xs)

pub AreMarked-build :
    (n : Text) (p : ConfigProjection) (xs : List Text)
    → AreMarked (some n) (map (build_scene n p) xs)
unfolding build_scene apply_scene_config
AreMarked-build n p [] = tt
AreMarked-build n p (x ∷ xs) = (ground (arith, ==_iff x n, ==_iff n x), AreMarked-build n p xs)

pub AreMarked-merge :
    (current : Option Text) (p : ConfigProjection) (xs : List SceneState)
    → AreMarked current xs
    → AreMarked current (map (merge_scene p) xs)
unfolding merge_scene apply_scene_config
AreMarked-merge current p [] h = tt
AreMarked-merge current p (x ∷ xs) h = (h.0, AreMarked-merge current p xs h.1)

module _ {F : Type 0} where
  pub input_names-merge :
      (p : ConfigProjection) (xs : List (AudioState F))
      → input_names (map (merge_input p) xs) ≡ input_names xs
  unfolding input_names merge_input apply_audio_config
  input_names-merge p [] = refl
  input_names-merge p (x ∷ xs) = ap (λ l. x.name ∷ l) (input_names-merge p xs)

  pub input_names-update_first :
      (p : AudioState F → Bool) (change : AudioState F → AudioState F × Bool)
      (xs : List (AudioState F))
      → ((x : AudioState F) → (change x).0.name ≡ x.name)
      → input_names (update_first p change xs).0 ≡ input_names xs
  unfolding input_names update_first
  input_names-update_first p change [] keep = refl
  input_names-update_first p change (x ∷ xs) keep =
      ground (arith, keep x, input_names-update_first p change xs keep)

  absent-retain :
      (n : Text) (p : AudioState F → Bool) (xs : List (AudioState F))
      → any (λ y. y == n) (input_names xs) ≡ false
      → any (λ y. y == n) (input_names (retain p xs)) ≡ false
  unfolding input_names any retain
  absent-retain n p [] h = refl
  absent-retain n p (x ∷ xs) h = ground (arith, absent-retain n p xs)

  pub IsDistinct-retain :
      (p : AudioState F → Bool) (xs : List (AudioState F))
      → IsDistinct (input_names xs)
      → IsDistinct (input_names (retain p xs))
  unfolding input_names retain
  IsDistinct-retain p [] h = tt
  IsDistinct-retain p (x ∷ xs) h = elim (Bool-cases (p x)) [
    | inl kept ↦
        rw kept (unfold input_names in (absent-retain x.name p xs h.0, IsDistinct-retain p xs h.1))
    | inr gone ↦ rw gone (IsDistinct-retain p xs h.1)
  ]

  absent-append :
      (n : Text) (new : AudioState F) (xs : List (AudioState F))
      → any (λ y. y == n) (input_names xs) ≡ false
      → (new.name == n) ≡ false
      → any (λ y. y == n) (input_names (xs ++ new ∷ [])) ≡ false
  unfolding input_names any
  absent-append n new [] h k = ground arith
  absent-append n new (x ∷ xs) h k = ground (arith, absent-append n new xs)

  pub IsDistinct-append :
      (new : AudioState F) (xs : List (AudioState F))
      → IsDistinct (input_names xs)
      → any (has_name new.name) xs ≡ false
      → IsDistinct (input_names (xs ++ new ∷ []))
  unfolding input_names has_name any
  IsDistinct-append new [] h k = (refl, tt)
  IsDistinct-append new (x ∷ xs) h k = (
    absent-append x.name new xs h.0
        (ground (arith, ==_iff new.name x.name, ==_iff x.name new.name)),
    IsDistinct-append new xs h.1 (ground arith),
  )
