-- ===== src/Tables.antt =====
-- Tables of rows that are found by a key, as the code keeps them in constants.
use obsctl_rs.Prelude.{
  zero, suc, ◌≡◌, sym, Bool, true, not, ◌&&◌, some, List, [], ◌∷◌, map, arith, any, find, In,
  PartialEq, ◌==◌, ==_iff, ==_refl, Bool-cases, inl, inr,
}

module _ {ℓ} {K : Type ℓ} ⦃d : PartialEq K⦄ where
  -- No key stands in the list twice.
  unfoldable pub distinct : List K → Bool
  distinct [] = true
  distinct (k ∷ ks) = not (any (λ other. other == k) ks) && distinct ks

module _ {ℓ κ} {A : Type ℓ} {K : Type κ} ⦃d : PartialEq K⦄ (key : A → K) where
  any-map-In :
      (k : K) (xs : List A) (a : A) → In a xs → key a ≡ k → any (λ o. o == k) (map key xs) ≡ true
  unfolding any
  any-map-In k [] a at e = cc
  any-map-In k (x ∷ xs) a (zero, at) e = ground (arith, (==_iff (key x) k).1)
  any-map-In k (x ∷ xs) a (suc i, at) e = ground (arith, any-map-In k xs a (i, at) e)

  -- Where the keys are distinct, a row is found by its key.
  pub find-key :
      (xs : List A) (a : A)
      → distinct (map key xs) ≡ true
      → In a xs
      → find (λ x. key x == key a) xs ≡ some a
  unfolding find distinct
  find-key [] a good at = cc
  find-key (x ∷ xs) a good (zero, at) = ground (arith, ==_refl (key a))
  find-key (x ∷ xs) a good (suc i, at) = elim (Bool-cases (key x == key a)) [
    | inl same ↦
        (let hit = any-map-In (key x) xs a (i, at) (sym ((==_iff (key x) (key a)).0 same)) in
          ground arith)
    | inr other ↦ rw other (find-key xs a (ground arith) (i, at))
  ]
