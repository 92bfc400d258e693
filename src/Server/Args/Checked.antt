-- ===== src/Server/Args/Checked.antt =====
-- src/server/command_args.rs: what a payload that was accepted holds.
use obsctl_rs.Prelude.{
  map_err-eq_ok, ok_injective, ℕ, suc, ◌≤◌, ◌≡◌, inl, inr, refl, subst, true, false, List, [], ◌∷◌,
  map, ok, map_err, any, length, All, arith, >>=-eq-ok, Bool-cases, ◌==◌, ==_iff, ==_refl, list_eq,
  nat_eq, ok_or, and_then, ltb, Option-cases,
}
use obsctl_rs.Text.{Text, to_ascii_lowercase}
use obsctl_rs.Sets.{contains}
use obsctl_rs.Names.{max_target_token_length, trim_and_validate_token_with_max_len, checked_name}
use obsctl_rs.Names.Laws.{IsName, checked_name-IsName}
use obsctl_rs.Tables.{distinct}
use obsctl_rs.Server.Fetch.{Json}
use obsctl_rs.Server.Args.{
  max_hidden_scenes_per_profile, scene_names_from, required_string, required_string_array,
  required_u8_percentage,
}

-- The scenes of a list, folded to lower case.
abbrev pub folded : List Text → List Text
folded scenes = map to_ascii_lowercase scenes

-- Usable names that differ in more than their case, none of them among the seen ones.
pub record AreScenes (seen scenes : List Text) : Type 0 where
  pub usable : All IsName scenes
  pub differ : distinct (folded scenes) ≡ true
  pub unseen : (x : Text) → contains seen x ≡ true → any (λ y. y == x) (folded scenes) ≡ false

AreScenes-nil : (seen : List Text) → AreScenes seen []
unfolding distinct any
AreScenes-nil seen = record { usable = tt; differ = refl; unseen = λ x known. refl }

contains-head : (seen : List Text) (x : Text) → contains (x ∷ seen) x ≡ true
unfolding contains any
contains-head seen x = rw (==_refl x) refl

contains-cons :
    (seen : List Text) (y x : Text) → contains seen x ≡ true → contains (y ∷ seen) x ≡ true
unfolding contains any
contains-cons seen y x h = ground arith

AreScenes-cons :
    (seen : List Text) (scene : Text) (scenes : List Text)
    → IsName scene
    → contains seen (to_ascii_lowercase scene) ≡ false
    → AreScenes (to_ascii_lowercase scene ∷ seen) scenes
    → AreScenes seen (scene ∷ scenes)
AreScenes-cons seen scene scenes good fresh h = record {
  usable = (good, h.usable);
  differ =
      unfold distinct in
      rw
        (
          h.unseen (to_ascii_lowercase scene) (contains-head seen (to_ascii_lowercase scene)),
          h.differ,
        )
        refl;
  unseen = λ x known. absent x known;
}
  where
    absent :
        (x : Text) → contains seen x ≡ true → any (λ y. y == x) (folded (scene ∷ scenes)) ≡ false
    absent x known =
        let later = h.unseen x (contains-cons seen (to_ascii_lowercase scene) x known) in
        elim (Bool-cases (to_ascii_lowercase scene == x)) [
          | inr other ↦ unfold any in rw (other, later) refl
          | inl same ↦ cc (rw ((==_iff (to_ascii_lowercase scene) x).0 same) at fresh, known)
        ]

module _ {F J : Type 0} (json : Json F J) where
  scene_names_from-AreScenes :
      (key : Text) (seen : List Text) (items : List J) (scenes : List Text)
      → scene_names_from json key seen items ≡ ok scenes
      → AreScenes seen scenes × (length scenes ≤ length items)
  unfolding scene_names_from
  scene_names_from-AreScenes key seen [] scenes h =
      subst (λ l. AreScenes seen l × (length l ≤ 0)) (ok_injective _ _ h)
        (AreScenes-nil seen, omega arith)
  scene_names_from-AreScenes key seen (item ∷ items) scenes h =
      let (raw, _, h1) = >>=-eq-ok (ok_or (json.as_str item) _) _ h in
      let (scene, checked, h2) =
        >>=-eq-ok (map_err _ (trim_and_validate_token_with_max_len raw max_target_token_length)) _
          h1 in
      let good =
        checked_name-IsName raw scene (unfold checked_name in map_err-eq_ok _ _ scene checked) in
      elim (Bool-cases (contains seen (to_ascii_lowercase scene))) [
        | inl old ↦
            (let (r, short) = scene_names_from-AreScenes key seen items scenes (rw old at h2) in
              (r, omega arith))
        | inr new ↦
            (let (rest, others, last) =
                >>=-eq-ok (scene_names_from json key (to_ascii_lowercase scene ∷ seen) items) _
                  (rw new at h2) in
              let (r, short) =
                scene_names_from-AreScenes key (to_ascii_lowercase scene ∷ seen) items rest
                  others in
              subst (λ l. AreScenes seen l × (length l ≤ suc (length items)))
                (ok_injective _ _ last) (AreScenes-cons seen scene rest good new r, omega arith))
      ]

  -- A list of scenes that is accepted from a payload has at most 128 entries, which are trimmed,
  -- not empty, of at most 256 characters, without control characters, and all different even
  -- without regard to ASCII case.
  pub required_string_array-AreScenes :
      (args : J) (key : Text) (scenes : List Text)
      → required_string_array json args key ≡ ok scenes
      → AreScenes [] scenes × (length scenes ≤ max_hidden_scenes_per_profile)
  unfolding required_string_array
  required_string_array-AreScenes args key scenes h =
      let (items, _, h1) = >>=-eq-ok (ok_or (and_then (json.get key args) json.as_array) _) _ h in
      elim (Bool-cases (ltb max_hidden_scenes_per_profile (length items))) [
        | inl long ↦ cc (rw long at h1)
        | inr fits ↦
            (let (r, short) = scene_names_from-AreScenes key [] items scenes (rw fits at h1) in
              (r, ground (arith, fits)))
      ]

  -- A target that was accepted is a usable name.
  pub required_string-IsName :
      (args : J) (key target : Text) → required_string json args key ≡ ok target → IsName target
  unfolding required_string
  required_string-IsName args key target h =
      let (raw, _, h1) = >>=-eq-ok (ok_or (and_then (json.get key args) json.as_str) _) _ h in
      checked_name-IsName raw target (unfold checked_name in map_err-eq_ok _ _ target h1)

  -- A percentage that was accepted is at most 100.
  pub required_u8_percentage-le :
      (args : J) (key : Text) (percent : ℕ)
      → required_u8_percentage json args key ≡ ok percent
      → percent ≤ 100
  unfolding required_u8_percentage
  required_u8_percentage-le args key percent h =
      let (value, _, h1) = >>=-eq-ok (ok_or (json.get key args) _) _ h in
      elim (Option-cases (json.as_u64 value)) [
        | inl nothing ↦ cc (rw nothing at h1)
        | inr (n, read) ↦ ground (arith, rw read at h1)
      ]
