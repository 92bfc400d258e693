-- ===== src/Series/Window.antt =====
-- src/tui/series.rs: the window against the list of all samples.
use obsctl_rs.Prelude.{
  ℕ, zero, suc, ◌+◌, ◌-◌, ◌≤◌, ◌≡◌, refl, sym, ap, ◌∙◌, List, [], ◌∷◌, ◌++◌, append-nil,
  append_assoc, arith, length, ltb, Bool-cases, inl, inr,
}
use obsctl_rs.Series.{capacity, RollingSeries, drop, empty_series, push, push_all, from_iter}

module _ {A : Type 0} where
  -- The last `n` items.
  unfoldable pub newest : ℕ → List A → List A
  newest n xs = drop (length xs - n) xs

  length-append : (xs ys : List A) → length (xs ++ ys) ≡ length xs + length ys
  length-append [] ys = omega arith
  length-append (x ∷ xs) ys = omega (arith, length-append xs ys)

  length-drop : (n : ℕ) (xs : List A) → length (drop n xs) ≡ length xs - n
  unfolding drop
  length-drop zero xs = omega arith
  length-drop (suc n) [] = omega arith
  length-drop (suc n) (x ∷ xs) = omega (arith, length-drop n xs)

  drop-append : (n : ℕ) (xs ys : List A) → n ≤ length xs → drop n (xs ++ ys) ≡ drop n xs ++ ys
  unfolding drop
  drop-append zero xs ys h = refl
  drop-append (suc n) [] ys h = absurd (omega arith)
  drop-append (suc n) (x ∷ xs) ys h = drop-append n xs ys (omega arith)

  drop-nil : (n : ℕ) → drop {A = A} n [] ≡ []
  unfolding drop
  drop-nil zero = refl
  drop-nil (suc n) = refl

  drop-drop : (a b : ℕ) (xs : List A) → drop a (drop b xs) ≡ drop (b + a) xs
  unfolding drop
  drop-drop a zero xs = ap (λ n. drop n xs) (omega arith)
  drop-drop a (suc b) [] = drop-nil a ∙ sym (drop-nil (suc b + a))
  drop-drop a (suc b) (x ∷ xs) =
      let shift : suc (b + a) ≡ suc b + a = omega arith in
      drop-drop a b xs ∙ ap (λ n. drop n (x ∷ xs)) shift

  kept : (n : ℕ) (xs : List A) → n ≡ 0 → xs ≡ drop n xs
  unfolding drop
  kept zero xs h = refl
  kept (suc n) xs h = absurd (omega arith)

  push-newest :
      (v : A) (s : RollingSeries A) → (push v s).samples ≡ newest capacity (s.samples ++ v ∷ [])
  unfolding push newest
  push-newest v s = elim (Bool-cases (ltb capacity (length (s.samples ++ v ∷ [])))) [
    | inl over ↦ rw over refl
    | inr fits ↦
        rw fits
          (kept (length (s.samples ++ v ∷ []) - capacity) (s.samples ++ v ∷ []) (ground arith))
  ]

  -- A window of a window is the window of the whole.
  newest-append :
      (n : ℕ) (xs : List A) (v : A) → newest n (newest n xs ++ v ∷ []) ≡ newest n (xs ++ v ∷ [])
  unfolding newest
  newest-append n xs v =
      let whole = xs ++ v ∷ [] in
      let d = length xs - n in
      let cut : drop d xs ++ v ∷ [] ≡ drop d whole =
        sym (drop-append d xs (v ∷ []) (omega arith)) in
      let more : length whole ≡ length xs + 1 = length-append xs (v ∷ []) in
      ap (λ l. drop (length l - n) l) cut
      ∙ drop-drop (length (drop d whole) - n) d whole
      ∙ ap (λ k. drop k whole) (omega (arith, length-drop d whole, more))

  push_all-newest :
      (xs ys : List A) (s : RollingSeries A)
      → s.samples ≡ newest capacity xs
      → (push_all ys s).samples ≡ newest capacity (xs ++ ys)
  unfolding push_all
  push_all-newest xs [] s h = h ∙ ap (newest capacity) (sym (append-nil xs))
  push_all-newest xs (v ∷ ys) s h =
      push_all-newest (xs ++ v ∷ []) ys (push v s)
        (push-newest v s ∙ ap (λ l. newest capacity (l ++ v ∷ [])) h ∙ newest-append capacity xs v)
      ∙ ap (newest capacity) (append_assoc xs (v ∷ []) ys)

  -- A series that is filled from a list holds the newest 32 of its items, in their order, or all of
  -- them if there are fewer.
  pub from_iter-newest : (xs : List A) → (from_iter xs).samples ≡ newest capacity xs
  unfolding from_iter empty_series
  from_iter-newest xs = push_all-newest [] xs empty_series (unfold newest drop in refl)
