-- ===== src/Server/Fetch/Distinct.antt =====
-- src/obs/validation.rs and src/server/snapshot_refresh.rs: the names that a fetch reads.
use obsctl_rs.Prelude.{
  map_err-eq_ok, ok_injective, and_then, ok_or, ◌≡◌, refl, ap, sym, subst, ◌∙◌, true, false, List,
  [], ◌∷◌, map, Result, ok, map_err, any, All, arith, >>=-eq-ok, Bool-cases, inl, inr, ◌==◌, ==_iff,
  ==_refl, list_eq, nat_eq,
}
use mathlib.Core.Path.{ap₂}
use obsctl_rs.Text.{Text, text}
use obsctl_rs.Sets.{contains}
use obsctl_rs.Errors.{ObsctlError}
use obsctl_rs.Names.{max_target_token_length, trim_and_validate_token_with_max_len, checked_name}
use obsctl_rs.Names.Laws.{IsName, checked_name-IsName}
use obsctl_rs.Volume.{Floats}
use obsctl_rs.Server.Projection.{ObsVersions, RawInputState, RefreshedObsState}
use obsctl_rs.Server.Store.Rows.{IsDistinct}
use obsctl_rs.Server.Store.Consistent.{fetched_names}
use obsctl_rs.Obs.Requests.{RequestData, get_input_mute, get_input_volume, get_input_list}
use obsctl_rs.Server.Fetch.{
  Json, collect_results, unique_names_from, collect_unique_names, extract_resource_names,
  fetch_scene_listing, fetch_input_state, fetch_input_states, fetch_state,
}

-- Usable names, all different.
pub record AreNames (names : List Text) : Type 0 where
  pub usable : All IsName names
  pub distinct : IsDistinct names

module _ {F J : Type 0} (json : Json F J) where
  -- What one more item adds to the names.
  pub record Added (list_key : Text) (read_name : J → Result ObsctlError Text) (seen : List Text)
      (items : List J) (names : List Text) : Type 0 where
    pub first : Text
    pub rest : List Text
    pub usable : IsName first
    pub fresh : contains seen first ≡ false
    pub others : unique_names_from json list_key read_name (first ∷ seen) items ≡ ok rest
    pub names_eq : first ∷ rest ≡ names

  unique_names_from-cons :
      (list_key : Text) (read_name : J → Result ObsctlError Text) (seen : List Text) (item : J)
      (items : List J) (names : List Text)
      → unique_names_from json list_key read_name seen (item ∷ items) ≡ ok names
      → Added list_key read_name seen items names
  unfolding unique_names_from
  unique_names_from-cons list_key read_name seen item items names h =
      let (name, _, h1) = >>=-eq-ok (read_name item) _ h in
      let (first, checked, h2) =
        >>=-eq-ok (map_err _ (trim_and_validate_token_with_max_len name max_target_token_length)) _
          h1 in
      let usable =
        checked_name-IsName name first (unfold checked_name in map_err-eq_ok _ _ first checked) in
      elim (Bool-cases (contains seen first)) [
        | inl old ↦ cc (rw old at h2)
        | inr new ↦
            let (rest, others, last) =
              >>=-eq-ok (unique_names_from json list_key read_name (first ∷ seen) items) _
                (rw new at h2) in
            record {
              first = first;
              rest = rest;
              usable = usable;
              fresh = new;
              others = others;
              names_eq = ok_injective _ _ last;
            }
      ]

  unique_names_from-nil :
      (list_key : Text) (read_name : J → Result ObsctlError Text) (seen names : List Text)
      → unique_names_from json list_key read_name seen [] ≡ ok names
      → [] ≡ names
  unfolding unique_names_from
  unique_names_from-nil list_key read_name seen names h = ok_injective _ _ h

  -- A seen text is another one than an unseen text.
  seen-differs :
      (seen : List Text) (first x : Text)
      → contains seen first ≡ false
      → contains seen x ≡ true
      → (first == x) ≡ false
  seen-differs seen first x fresh known = elim (Bool-cases (first == x)) [
    | inr other ↦ other
    | inl same ↦ cc (subst (λ t. contains seen t ≡ false) ((==_iff first x).0 same) fresh, known)
  ]

  contains-cons :
      (seen : List Text) (first x : Text)
      → contains seen x ≡ true
      → contains (first ∷ seen) x ≡ true
  unfolding contains any
  contains-cons seen first x h = ground arith

  contains-head : (seen : List Text) (first : Text) → contains (first ∷ seen) first ≡ true
  unfolding contains any
  contains-head seen first = rw (==_refl first) refl

  absent-cons :
      (first x : Text) (rest : List Text)
      → (first == x) ≡ false
      → any (λ y. y == x) rest ≡ false
      → any (λ y. y == x) (first ∷ rest) ≡ false
  unfolding any
  absent-cons first x rest h k = rw (h, k) refl

  -- No name that was seen before is read again.
  unique_names_from-absent :
      (list_key : Text) (read_name : J → Result ObsctlError Text) (seen : List Text)
      (items : List J) (names : List Text) (x : Text)
      → unique_names_from json list_key read_name seen items ≡ ok names
      → contains seen x ≡ true
      → any (λ y. y == x) names ≡ false
  unfolding any
  unique_names_from-absent list_key read_name seen [] names x h known =
      subst (λ l. any (λ y. y == x) l ≡ false)
        (unique_names_from-nil list_key read_name seen names h) refl
  unique_names_from-absent list_key read_name seen (item ∷ items) names x h known =
      let a = unique_names_from-cons list_key read_name seen item items names h in
      subst (λ l. any (λ y. y == x) l ≡ false) a.names_eq
        (absent-cons a.first x a.rest (seen-differs seen a.first x a.fresh known) (
          unique_names_from-absent list_key read_name (a.first ∷ seen) items a.rest x a.others
            (contains-cons seen a.first x known)))

  unique_names_from-AreNames :
      (list_key : Text) (read_name : J → Result ObsctlError Text) (seen : List Text)
      (items : List J) (names : List Text)
      → unique_names_from json list_key read_name seen items ≡ ok names
      → AreNames names
  unique_names_from-AreNames list_key read_name seen [] names h =
      subst AreNames (unique_names_from-nil list_key read_name seen names h)
        (record { usable = tt; distinct = tt })
  unique_names_from-AreNames list_key read_name seen (item ∷ items) names h =
      let a = unique_names_from-cons list_key read_name seen item items names h in
      let later =
        unique_names_from-AreNames list_key read_name (a.first ∷ seen) items a.rest a.others in
      subst AreNames a.names_eq (record {
        usable = (a.usable, later.usable);
        distinct = (
          unique_names_from-absent list_key read_name (a.first ∷ seen) items a.rest a.first a.others
              (contains-head seen a.first),
          later.distinct,
        );
      })

  -- The names that are read of a list in an answer are usable and all different.
  pub extract_resource_names-AreNames :
      (value : J) (list_key name_key : Text) (names : List Text)
      → extract_resource_names json value list_key name_key ≡ ok names
      → AreNames names
  unfolding extract_resource_names collect_unique_names
  extract_resource_names-AreNames value list_key name_key names h =
      let (list, _, read) =
        >>=-eq-ok (ok_or (and_then (json.get list_key value) json.as_array) _) _ h in
      unique_names_from-AreNames list_key _ [] list names read

  module _ (f : Floats F) (request : RequestData F → Result ObsctlError J) where
    fetch_input_state-name :
        (name : Text) (s : RawInputState F)
        → fetch_input_state json f request name ≡ ok s
        → s.name ≡ name
    unfolding fetch_input_state
    fetch_input_state-name name s h =
        let (m, _, h1) = >>=-eq-ok (get_input_mute name) _ h in
        let (v, _, h2) = >>=-eq-ok (get_input_volume name) _ h1 in
        sym (ap (λ i. i.name) (ok_injective _ s h2))

    collect_results-names :
        (names : List Text) (inputs : List (RawInputState F))
        → collect_results (fetch_input_state json f request) names ≡ ok inputs
        → map (λ i. i.name) inputs ≡ names
    unfolding collect_results
    collect_results-names [] inputs h =
        sym (ap (λ l. map (λ i. i.name) l) (ok_injective _ inputs h))
    collect_results-names (n ∷ names) inputs h =
        let (s, here, h1) = >>=-eq-ok (fetch_input_state json f request n) _ h in
        let (rest, later, h2) =
          >>=-eq-ok (collect_results (fetch_input_state json f request) names) _ h1 in
        sym (ap (λ l. map (λ i. i.name) l) (ok_injective _ inputs h2))
        ∙ ap₂ (λ x l. x ∷ l) (fetch_input_state-name n s here)
            (collect_results-names names rest later)

    -- Whatever OBS answers, a fetch that succeeds has read inputs whose names are trimmed, not
    -- empty, of at most 256 characters, without control characters and all different.
    pub fetch_state-AreNames :
        (versions : ObsVersions) (refreshed : RefreshedObsState F)
        → fetch_state json f request versions ≡ ok refreshed
        → AreNames (fetched_names refreshed)
    unfolding fetch_state fetch_input_states fetched_names
    fetch_state-AreNames versions refreshed h =
        let (scenes, _, h1) = >>=-eq-ok (fetch_scene_listing json f request) _ h in
        let (inputs, read, h2) = >>=-eq-ok (fetch_input_states json f request) _ h1 in
        let (answer, _, r1) = >>=-eq-ok (request get_input_list) _ read in
        let (names, extracted, r2) =
          >>=-eq-ok (extract_resource_names json answer (text "inputs") (text "inputName")) _ r1 in
        subst AreNames
          (sym (collect_results-names names inputs r2)
            ∙ ap (λ r. map (λ i. i.name) r.inputs) (ok_injective _ refreshed h2))
          (extract_resource_names-AreNames answer (text "inputs") (text "inputName") names
            extracted)
