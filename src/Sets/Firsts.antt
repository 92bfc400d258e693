-- ===== src/Sets/Firsts.antt =====
-- A list without its repetitions, as a loop builds it that keeps what it has not met before.
use obsctl_rs.Prelude.{
  ◌≡◌, refl, sym, ap, ◌∙◌, Bool, true, not, ◌||◌, ◌&&◌, List, [], ◌∷◌, ◌++◌, append-nil,
  append_assoc, PartialEq, any, retain, Bool-cases, inl, inr, arith, if◌then◌else◌, ◌==◌, ==_iff,
}
use obsctl_rs.Sets.{contains}

module _ {ℓ} {A : Type ℓ} where
  retain-retain :
      (p q : A → Bool) (xs : List A) → retain p (retain q xs) ≡ retain (λ x. p x && q x) xs
  unfolding retain
  retain-retain p q [] = refl
  retain-retain p q (x ∷ xs) =
      let r = retain-retain p q xs in
      elim (Bool-cases (q x)) [
        | inr e ↦ elim (Bool-cases (p x)) [ inl f ↦ rw (f, e) r | inr f ↦ rw (f, e) r ]
        | inl e ↦ elim (Bool-cases (p x)) [
          | inl f ↦ rw (f, e, f) (ap (λ t. x ∷ t) r)
          | inr f ↦ rw (f, e, f) r
        ]
      ]

  retain_ext : (p q : A → Bool) (xs : List A) → ((x : A) → p x ≡ q x) → retain p xs ≡ retain q xs
  unfolding retain
  retain_ext p q [] h = refl
  retain_ext p q (x ∷ xs) h = rw (h x, retain_ext p q xs h) refl

  retain_all : (xs : List A) → retain (λ x. true) xs ≡ xs
  unfolding retain
  retain_all [] = refl
  retain_all (x ∷ xs) = ap (λ t. x ∷ t) (retain_all xs)

module _ {ℓ} {A : Type ℓ} ⦃d : PartialEq A⦄ where
  -- The first of each group of equal members.
  unfoldable pub firsts : List A → List A
  firsts [] = []
  firsts (x ∷ xs) = x ∷ retain (λ y. not (x == y)) (firsts xs)

  unfoldable pub push_new : List A → List A → List A
  push_new acc [] = acc
  push_new acc (x ∷ xs) = push_new (if contains acc x then acc else acc ++ x ∷ []) xs

  pub contains-append :
      (xs : List A) (x y : A) → contains (xs ++ x ∷ []) y ≡ (contains xs y || x == y)
  unfolding contains any
  contains-append [] x y = ground arith
  contains-append (z ∷ xs) x y = ground (arith, contains-append xs x y)

  known_only :
      (acc : List A) (x y : A)
      → contains acc x ≡ true
      → (not (contains acc y) && not (x == y)) ≡ not (contains acc y)
  known_only acc x y h = elim (Bool-cases (x == y)) [
    | inl e ↦ (let same : x ≡ y = (==_iff x y).0 e in rw (e, rw same at h) refl)
    | inr e ↦ elim (Bool-cases (contains acc y)) [ inl f ↦ rw f refl | inr f ↦ rw (e, f) refl ]
  ]

  neither :
      (acc : List A) (x y : A)
      → not (contains (acc ++ x ∷ []) y) ≡ (not (contains acc y) && not (x == y))
  neither acc x y =
      rw (contains-append acc x y)
        (elim (Bool-cases (contains acc y)) [ inl f ↦ rw f refl | inr f ↦ rw f refl ])

  push_new_lem :
      (acc xs : List A) → push_new acc xs ≡ acc ++ retain (λ y. not (contains acc y)) (firsts xs)
  unfolding push_new firsts retain
  push_new_lem acc [] = sym (append-nil acc)
  push_new_lem acc (x ∷ xs) =
      let once = retain-retain (λ y. not (contains acc y)) (λ y. not (x == y)) (firsts xs) in
      elim (Bool-cases (contains acc x)) [
        | inl h ↦ rw h (
            push_new_lem acc xs
            ∙ ap (λ t. acc ++ t)
                (sym (once ∙ retain_ext _ _ (firsts xs) (λ y. known_only acc x y h))))
        | inr h ↦ rw h (
            push_new_lem (acc ++ x ∷ []) xs
            ∙ append_assoc acc (x ∷ []) _
            ∙ ap (λ t. acc ++ x ∷ t) (retain_ext _ _ (firsts xs) (neither acc x) ∙ sym once))
      ]

  pub push_new-firsts : (xs : List A) → push_new [] xs ≡ firsts xs
  unfolding contains any
  push_new-firsts xs = push_new_lem [] xs ∙ retain_all (firsts xs)
