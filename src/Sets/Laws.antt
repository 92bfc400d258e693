-- ===== src/Sets/Laws.antt =====
-- The members of a set that was collected from a list.
use obsctl_rs.Prelude.{
  Bool, true, false, ◌||◌, List, [], ◌∷◌, PartialEq, ◌==◌, ==_iff, any, ◌≡◌, ◌∙◌, arith, refl,
  Bool-cases, inl, inr, sym,
}
use obsctl_rs.Sets.{contains, insert, collect_from, collect}

or-false_right : (a : Bool) → (a || false) ≡ a
or-false_right a = ground arith

module _ {A : Type 0} ⦃d : PartialEq A⦄ where
  contains_eq : (set : List A) (x y : A) → contains set x ≡ true → x ≡ y → contains set y ≡ true
  contains_eq set x y h p = rw p at h

  contains-insert :
      (set : List A) (x y : A) → contains (insert set x) y ≡ (x == y || contains set y)
  unfolding insert
  contains-insert set x y = elim (Bool-cases (contains set x)) [
    | inr new ↦ rw new (unfold contains any in refl)
    | inl old ↦ ground (arith, old, ==_iff x y, contains_eq set x y)
  ]

  contains-collect_from :
      (set xs : List A) (y : A)
      → contains (collect_from set xs) y ≡ (contains set y || any (λ x. x == y) xs)
  unfolding collect_from any
  contains-collect_from set [] y = sym (or-false_right (contains set y))
  contains-collect_from set (x ∷ xs) y =
      ground (arith, contains-collect_from (insert set x) xs y, contains-insert set x y)

  pub contains-collect : (xs : List A) (y : A) → contains (collect xs) y ≡ any (λ x. x == y) xs
  contains-collect xs y =
      unfold collect in contains-collect_from [] xs y ∙ (unfold contains any in refl)
