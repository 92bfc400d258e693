-- ===== src/Sets.antt =====
-- `HashSet`, as the list of its members without a repetition.
pub mod Laws
pub mod Firsts
use obsctl_rs.Prelude.{Bool, List, [], ◌∷◌, PartialEq, ◌==◌, any, if◌then◌else◌, ◌≡◌, false}

module _ {ℓ} {A : Type ℓ} ⦃d : PartialEq A⦄ where
  unfoldable pub contains : List A → A → Bool
  contains set value = any (λ member. member == value) set

  -- `HashSet::insert`; the code reads its answer as `contains` before the insertion.
  unfoldable pub insert : List A → A → List A
  insert set value = if contains set value then set else value ∷ set

  -- `Iterator::collect` into a set.
  unfoldable pub collect_from : List A → List A → List A
  collect_from set [] = set
  collect_from set (x ∷ xs) = collect_from (insert set x) xs

  unfoldable pub collect : List A → List A
  collect xs = collect_from [] xs
