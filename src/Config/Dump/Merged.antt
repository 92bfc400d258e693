-- ===== src/Config/Dump/Merged.antt =====
-- src/config/dump.rs: the merge against a description of what it leaves.
use obsctl_rs.Prelude.{
  ◌≡◌, refl, subst, ap, sym, ◌∙◌, Bool, not, Option, some, List, [], ◌∷◌, ◌++◌, map, ok,
  map_err-eq_ok, ok_injective, to_option, any, retain, >>=-eq-ok, Bool-cases, inl, inr, ◌==◌,
  list_eq, nat_eq, option_eq,
}
use mathlib.Core.Path.{ap₂}
use obsctl_rs.Text.{Text}
use obsctl_rs.Sets.{contains, collect}
use obsctl_rs.Sets.Laws.{contains-collect}
use obsctl_rs.Errors.{ResourceKind, scene, audio_input}
use obsctl_rs.Names.{normalized_name}
use obsctl_rs.Aliases.{ensure_unique_aliases_and_shortcuts}
use obsctl_rs.Config.{Config, SceneConfig, AudioInputConfig}
use obsctl_rs.Config.Dump.{
  ObsResources, MergeableEntry, mergeable_scene, mergeable_input, normalized, collect_results,
  reject_collisions, marked, discovered, merge_entries, merge,
}

-- What two names are compared by.
abbrev pub key : Text → Option Text
key name = to_option (normalized_name name)

-- A resource of the same name is in the list.
unfoldable pub stands_in : List Text → Text → Bool
stands_in names name = any (λ o. key o == key name) names

normalized-key : (kind : ResourceKind) (v n : Text) → normalized kind v ≡ ok n → key v ≡ some n
unfolding normalized
normalized-key kind v n h = ap to_option (map_err-eq_ok _ (normalized_name v) n h)

map_same : (l : List Text) → map (λ x. x) l ≡ l
map_same [] = refl
map_same (x ∷ l) = ap (λ r. x ∷ r) (map_same l)

module _ {T : Type 0} (m : MergeableEntry T) where
  -- The entries that a merge is to leave: each of the configuration's, stale unless OBS has it, and
  -- then each of OBS's that the configuration lacks.
  unfoldable pub expected : List T → List Text → List T
  expected existing obs_names =
      map (λ e. m.with_stale (not (stands_in obs_names (m.name e))) e) existing
      ++ map m.newly_discovered (retain (λ o. not (stands_in (map m.name existing) o)) obs_names)

  collect-any :
      {A : Type 0} (g : A → Text) (xs : List A) (ns : List Text) (n : Text)
      → collect_results (λ x. normalized m.kind (g x)) xs ≡ ok ns
      → any (λ y. y == n) ns ≡ any (λ o. key o == some n) (map g xs)
  unfolding collect_results any
  collect-any g [] ns n h = rw (← ok_injective _ _ h) refl
  collect-any g (x ∷ xs) ns n h =
      let (k, here, h1) = >>=-eq-ok (normalized m.kind (g x)) _ h in
      let (ks, more, h2) = >>=-eq-ok (collect_results (λ y. normalized m.kind (g y)) xs) _ h1 in
      rw (← ok_injective _ _ h2, normalized-key m.kind (g x) k here, collect-any g xs ks n more)
        refl

  -- A set of normalized names, against the names.
  set-stands_in :
      {A : Type 0} (g : A → Text) (xs : List A) (ns : List Text) (v n : Text)
      → collect_results (λ x. normalized m.kind (g x)) xs ≡ ok ns
      → normalized m.kind v ≡ ok n
      → contains (collect ns) n ≡ stands_in (map g xs) v
  unfolding stands_in
  set-stands_in g xs ns v n h k =
      contains-collect ns n ∙ collect-any g xs ns n h ∙ rw (normalized-key m.kind v n k) refl

  set_of_names :
      (obs ns : List Text) (v n : Text)
      → collect_results (λ x. normalized m.kind x) obs ≡ ok ns
      → normalized m.kind v ≡ ok n
      → contains (collect ns) n ≡ stands_in obs v
  set_of_names obs ns v n names named =
      set-stands_in (λ x. x) obs ns v n names named ∙ ap (λ l. stands_in l v) (map_same obs)

  kept-expected :
      (obs_names ns : List Text) (existing kept : List T)
      → collect_results (λ x. normalized m.kind x) obs_names ≡ ok ns
      → collect_results (marked m (collect ns)) existing ≡ ok kept
      → kept ≡ map (λ e. m.with_stale (not (stands_in obs_names (m.name e))) e) existing
  unfolding collect_results marked
  kept-expected obs_names ns [] kept names h = sym (ok_injective _ _ h)
  kept-expected obs_names ns (e ∷ existing) kept names h =
      let (x, here, h1) = >>=-eq-ok (marked m (collect ns) e) _ h in
      let (xs, more, h2) = >>=-eq-ok (collect_results (marked m (collect ns)) existing) _ h1 in
      let (n, named, h3) = >>=-eq-ok (normalized m.kind (m.name e)) _ here in
      sym (ok_injective _ _ h2)
      ∙ ap₂ (λ y ys. y ∷ ys)
          (sym (ok_injective _ _ h3)
            ∙ ap (λ b. m.with_stale (not b) e) (set_of_names obs_names ns (m.name e) n names named))
          (kept-expected obs_names ns existing xs names more)

  added-expected :
      (existing : List T) (ns obs_names : List Text) (added : List T)
      → collect_results (λ e. normalized m.kind (m.name e)) existing ≡ ok ns
      → discovered m (collect ns) obs_names ≡ ok added
      → added
        ≡ map m.newly_discovered (retain (λ o. not (stands_in (map m.name existing) o)) obs_names)
  unfolding discovered retain
  added-expected existing ns [] added names h = sym (ok_injective _ _ h)
  added-expected existing ns (o ∷ obs_names) added names h =
      let (n, named, h1) = >>=-eq-ok (normalized m.kind o) _ h in
      let (rest, more, h2) = >>=-eq-ok (discovered m (collect ns) obs_names) _ h1 in
      let later = added-expected existing ns obs_names rest names more in
      let seen = set-stands_in m.name existing ns o n names named in
      elim (Bool-cases (contains (collect ns) n)) [
        | inl old ↦ rw (← seen, old) (sym (ok_injective _ _ (rw old at h2)) ∙ later)
        | inr new ↦
            rw (← seen, new)
              (sym (ok_injective _ _ (rw new at h2)) ∙ ap (λ r. m.newly_discovered o ∷ r) later)
      ]

  merge_entries-expected :
      (existing : List T) (obs_names : List Text) (merged : List T)
      → merge_entries m existing obs_names ≡ ok merged
      → (merged ≡ expected existing obs_names)
        × (ensure_unique_aliases_and_shortcuts m.kind (map (λ e. (m.alias e, m.shortcut e)) merged)
            ≡ ok tt)
  unfolding merge_entries expected
  merge_entries-expected existing obs_names merged h =
      let (ns, obs, h1) = >>=-eq-ok (collect_results (normalized m.kind) obs_names) _ h in
      let (_, _, h2) = >>=-eq-ok (reject_collisions m (collect ns) existing) _ h1 in
      let (kept, marks, h3) = >>=-eq-ok (collect_results (marked m (collect ns)) existing) _ h2 in
      let (es, names, h4) =
        >>=-eq-ok (collect_results (λ e. normalized m.kind (m.name e)) existing) _ h3 in
      let (added, news, h5) = >>=-eq-ok (discovered m (collect es) obs_names) _ h4 in
      let (u, unique, h6) =
        >>=-eq-ok
          (ensure_unique_aliases_and_shortcuts m.kind
            (map (λ e. (m.alias e, m.shortcut e)) (kept ++ added)))
          _ h5 in
      (
        sym (ok_injective _ _ h6)
            ∙ ap₂ (λ k a. k ++ a) (kept-expected obs_names ns existing kept obs marks)
                (added-expected existing es obs_names added names news),
        rw (← ok_injective _ _ h6) unique,
      )

-- What a merge leaves of a configuration.
pub record IsMerged {F : Type 0} (config config' : Config F) (obs : ObsResources) : Type 0 where
  pub scenes : config'.scenes ≡ expected mergeable_scene config.scenes obs.scenes
  pub inputs : config'.audio.inputs ≡ expected mergeable_input config.audio.inputs obs.inputs
  pub unique :
      (ensure_unique_aliases_and_shortcuts scene
          (map (λ (e : SceneConfig). (e.alias, e.shortcut)) config'.scenes)
        ≡ ok tt)
      × (ensure_unique_aliases_and_shortcuts audio_input
            (map (λ (e : AudioInputConfig). (e.alias, e.shortcut)) config'.audio.inputs)
          ≡ ok tt)
  pub rest :
      config'
      ≡ record config { scenes = config'.scenes; audio = record { inputs = config'.audio.inputs } }

-- A merge that succeeds leaves each configured scene and input, marked as stale exactly when OBS
-- has none of its normalized name, followed by a new entry for each name of OBS that the
-- configuration lacks; their aliases and shortcuts pass the uniqueness check, and the rest of the
-- configuration is as it was.
pub merge-IsMerged :
    {F : Type 0} (config config' : Config F) (obs : ObsResources)
    → merge config obs ≡ ok config'
    → IsMerged config config' obs
unfolding merge
merge-IsMerged config config' obs h =
    let (ss, scenes, h1) = >>=-eq-ok (merge_entries mergeable_scene config.scenes obs.scenes) _ h in
    let (is, inputs, h2) =
      >>=-eq-ok (merge_entries mergeable_input config.audio.inputs obs.inputs) _ h1 in
    let (s, su) = merge_entries-expected mergeable_scene config.scenes obs.scenes ss scenes in
    let (i, iu) = merge_entries-expected mergeable_input config.audio.inputs obs.inputs is inputs in
    let same = ok_injective _ _ h2 in
    subst (λ c. IsMerged config c obs) same
      (record { scenes = s; inputs = i; unique = (su, iu); rest = refl })
