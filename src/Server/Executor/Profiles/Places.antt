-- ===== src/Server/Executor/Profiles/Places.antt =====
-- src/server/command_executor.rs: the search for a profile in a list that was changed at one place.
use obsctl_rs.Prelude.{
  ℕ, zero, suc, ◌≡◌, ◌⊎◌, inl, inr, refl, Bool, true, false, none, some, List, [], ◌∷◌, ◌++◌, arith,
  find, get_elem?, Bool-cases, Option-cases,
}
use obsctl_rs.Server.Executor.Profiles.{position, set_at, remove_at}

module _ {A : Type 0} (p : A → Bool) where
  -- The place where the first hit is has an item that hits.
  pub position-eq_some :
      (xs : List A) (i : ℕ)
      → position p xs ≡ some i
      → (x : A) × (get_elem? xs i ≡ some x) × (p x ≡ true)
  unfolding position
  position-eq_some [] i h = cc h
  position-eq_some (x ∷ xs) i h = elim (Bool-cases (p x)) [
    | inl hit ↦ (let e : zero ≡ i = ground (arith, hit) in rw (← e) (x, refl, hit))
    | inr miss ↦ elim (Option-cases (position p xs)) [
      | inl nothing ↦ cc (rw (miss, nothing) at h)
      | inr (j, found) ↦
          (let (y, at, hits) = position-eq_some xs j found in
            let e : suc j ≡ i = ground (arith, rw (miss, found) at h) in rw (← e) (y, at, hits))
    ]
  ]

  -- The new item is found at its place, unless an earlier one hits.
  pub find-set_at :
      (xs : List A) (i : ℕ) (x v : A)
      → get_elem? xs i ≡ some x
      → (position p xs ≡ none) ⊎ (position p xs ≡ some i)
      → p v ≡ true
      → find p (set_at xs i v) ≡ some v
  unfolding find set_at position
  find-set_at [] i x v at first hits = cc at
  find-set_at (y ∷ xs) zero x v at first hits = rw hits refl
  find-set_at (y ∷ xs) (suc i) x v at first hits = elim (Bool-cases (p y)) [
    | inl early ↦ ground (arith, early)
    | inr miss ↦ rw miss (
        find-set_at xs i x v at
          (elim (Option-cases (position p xs)) [
            | inl nothing ↦ inl nothing
            | inr (j, found) ↦ inr (ground (arith, miss, found))
          ])
          hits)
  ]

  pub find-set_at_other :
      (xs : List A) (i : ℕ) (x v : A)
      → get_elem? xs i ≡ some x
      → p x ≡ false
      → p v ≡ false
      → find p (set_at xs i v) ≡ find p xs
  unfolding find set_at
  find-set_at_other [] i x v at old new = refl
  find-set_at_other (y ∷ xs) zero x v at old new = ground arith
  find-set_at_other (y ∷ xs) (suc i) x v at old new =
      ground (arith, find-set_at_other xs i x v at old new)

  pub find-append :
      (xs : List A) (v : A) → position p xs ≡ none → p v ≡ true → find p (xs ++ v ∷ []) ≡ some v
  unfolding find position
  find-append [] v nothing hits = rw hits refl
  find-append (y ∷ xs) v nothing hits = elim (Bool-cases (p y)) [
    | inl early ↦ cc (rw early at nothing)
    | inr miss ↦ rw miss (
        find-append xs v
          (elim (Option-cases (position p xs)) [
            | inl none_there ↦ none_there
            | inr (j, found) ↦ cc (rw (miss, found) at nothing)
          ])
          hits)
  ]

  pub find-append_other : (xs : List A) (v : A) → p v ≡ false → find p (xs ++ v ∷ []) ≡ find p xs
  unfolding find
  find-append_other [] v miss = rw miss refl
  find-append_other (y ∷ xs) v miss = ground (arith, find-append_other xs v miss)

  pub find-remove_at_other :
      (xs : List A) (i : ℕ) (x : A)
      → get_elem? xs i ≡ some x
      → p x ≡ false
      → find p (remove_at xs i) ≡ find p xs
  unfolding find remove_at
  find-remove_at_other [] i x at old = refl
  find-remove_at_other (y ∷ xs) zero x at old = ground arith
  find-remove_at_other (y ∷ xs) (suc i) x at old =
      ground (arith, find-remove_at_other xs i x at old)
