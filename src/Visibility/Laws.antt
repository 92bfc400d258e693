-- ===== src/Visibility/Laws.antt =====
-- src/domain/scene_profiles.rs: what `is_hidden` answers, in terms of the names that were given.
use obsctl_rs.Prelude.{
  Bool, false, ◌&&◌, Option, none, some, List, [], ◌∷◌, ◌++◌, ◌==◌, any, ◌≡◌, ◌∙◌, ap, sym, arith,
  refl, retain, filter_map, Result-cases, ok, err, inl, inr, list_eq, nat_eq,
}
use mathlib.Core.Path.{fun_ext}
use obsctl_rs.Text.{Text, to_ascii_lowercase}
use obsctl_rs.Errors.{ValidationError}
use obsctl_rs.Names.{normalized_name}
use obsctl_rs.Names.Laws.{IsPadding, normalized_name-pad}
use obsctl_rs.Sets.{contains}
use obsctl_rs.Sets.Laws.{contains-collect}
use obsctl_rs.Visibility.{
  SceneVisibility, ActiveSceneProfile, no_profile, named, usable_name, resolve, is_hidden,
}

-- Whether an optional normalized name is `folded`.
abbrev pub names : Text → Option Text → Bool
names folded none = false
names folded (some name) = name == folded

-- Two usable names that differ at most in case and padding.
unfoldable pub same_name : Text → Text → Bool
same_name a b = elim (normalized_name b) [
  | ok folded ↦ names folded (usable_name a)
  | err e ↦ false
]

-- The scenes that the two inputs of `resolve` ask to hide.
unfoldable pub asked_to_hide : List (Text × Bool) → ActiveSceneProfile → Text → Bool
asked_to_hide baseline no_profile scene = any (λ s. s.1 && same_name s.0 scene) baseline
asked_to_hide baseline (named list) scene = any (λ name. same_name name scene) list

any-filter_map :
    (folded : Text) (xs : List Text)
    → any (λ n. n == folded) (filter_map usable_name xs)
      ≡ any (λ x. names folded (usable_name x)) xs
unfolding any filter_map
any-filter_map folded [] = refl
any-filter_map folded (x ∷ xs) = ground (arith, any-filter_map folded xs)

any-filter_map_flagged :
    (folded : Text) (xs : List (Text × Bool))
    → any (λ n. n == folded) (filter_map (λ s. usable_name s.0) (retain (λ s. s.1) xs))
      ≡ any (λ x. x.1 && names folded (usable_name x.0)) xs
unfolding any filter_map retain
any-filter_map_flagged folded [] = refl
any-filter_map_flagged folded ((x, flag) ∷ xs) = ground (arith, any-filter_map_flagged folded xs)

any-false {ℓ} : {A : Type ℓ} (xs : List A) → any (λ x. false) xs ≡ false
unfolding any
any-false [] = refl
any-false (x ∷ xs) = any-false xs

any-cong {ℓ} :
    {A : Type ℓ} (f g : A → Bool) (xs : List A) → ((x : A) → f x ≡ g x) → any f xs ≡ any g xs
any-cong f g xs h = ap (λ p. any p xs) (fun_ext h)

same_name-eq_ok :
    (a b folded : Text)
    → normalized_name b ≡ ok folded
    → same_name a b ≡ names folded (usable_name a)
unfolding same_name
same_name-eq_ok a b folded good = rw (good, same_name) refl

same_name-eq_err :
    (a b : Text) (e : ValidationError) → normalized_name b ≡ err e → same_name a b ≡ false
unfolding same_name
same_name-eq_err a b e bad = rw (bad, same_name) refl

is_hidden-eq_ok :
    (v : SceneVisibility) (scene folded : Text)
    → normalized_name scene ≡ ok folded
    → is_hidden v scene ≡ contains v.hidden folded
unfolding is_hidden
is_hidden-eq_ok v scene folded good = rw (good, is_hidden) refl

is_hidden-eq_err :
    (v : SceneVisibility) (scene : Text) (e : ValidationError)
    → normalized_name scene ≡ err e
    → is_hidden v scene ≡ false
unfolding is_hidden
is_hidden-eq_err v scene e bad = rw (bad, is_hidden) refl

-- A scene is hidden exactly when the active profile, or else the baseline of the scenes flagged as
-- hidden, lists a usable name with the same normalized form as the scene's.
pub is_hidden-resolve :
    (baseline : List (Text × Bool)) (active : ActiveSceneProfile) (scene : Text)
    → is_hidden (resolve baseline active) scene ≡ asked_to_hide baseline active scene
unfolding resolve asked_to_hide
is_hidden-resolve baseline no_profile scene = elim (Result-cases (normalized_name scene)) [
  | inl (folded, good) ↦
      is_hidden-eq_ok _ scene folded good
      ∙ contains-collect (filter_map (λ s. usable_name s.0) (retain (λ s. s.1) baseline)) folded
      ∙ any-filter_map_flagged folded baseline
      ∙ any-cong _ _ baseline
          (λ s. ap (λ b. s.1 && b) (sym (same_name-eq_ok s.0 scene folded good)))
  | inr (e, bad) ↦
      is_hidden-eq_err _ scene e bad
      ∙ sym (any-false baseline)
      ∙ any-cong _ _ baseline (λ s. ground (arith, same_name-eq_err s.0 scene e bad))
]
is_hidden-resolve baseline (named list) scene = elim (Result-cases (normalized_name scene)) [
  | inl (folded, good) ↦
      is_hidden-eq_ok _ scene folded good
      ∙ contains-collect (filter_map usable_name list) folded
      ∙ any-filter_map folded list
      ∙ any-cong _ _ list (λ s. sym (same_name-eq_ok s scene folded good))
  | inr (e, bad) ↦
      is_hidden-eq_err _ scene e bad
      ∙ sym (any-false list)
      ∙ any-cong _ _ list (λ s. sym (same_name-eq_err s scene e bad))
]

-- Whether a scene is hidden depends neither on the ASCII case of the name that is asked for, nor on
-- white space around it that holds no control character.
pub is_hidden-pad :
    (visibility : SceneVisibility) (before scene after : Text)
    → IsPadding before
    → IsPadding after
    → is_hidden visibility (before ++ (to_ascii_lowercase scene ++ after))
      ≡ is_hidden visibility scene
unfolding is_hidden
is_hidden-pad visibility before scene after h k =
    rw (normalized_name-pad before scene after h k, is_hidden) refl
