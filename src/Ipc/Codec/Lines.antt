-- ===== src/Ipc/Codec/Lines.antt =====
-- src/ipc/codec.rs: the lines of a text of bytes, without the frame reader.
use obsctl_rs.Prelude.{
  ℕ, ◌+◌, ◌≡◌, refl, Bool, true, false, ◌||◌, List, [], ◌∷◌, ◌++◌, any, length, arith, Bool-cases,
  inl, inr, if◌then◌else◌, ◌==◌, nat_eq,
}
use obsctl_rs.Ipc.Codec.{ends_with_newline}

unfoldable pub has_newline : List ℕ → Bool
unfolding any
has_newline = any (λ c. c == 10)

-- A byte in front of the first line.
unfoldable pub in_front : ℕ → List (List ℕ) → List (List ℕ)
in_front c [] = []
in_front c (l ∷ ls) = (c ∷ l) ∷ ls

-- The complete lines of a text, each with its newline; what follows the last newline is no line.
unfoldable pub lines : List ℕ → List (List ℕ)
lines [] = []
lines (c ∷ cs) = let rest = lines cs in if c == 10 then (c ∷ []) ∷ rest else in_front c rest

pub length-append {ℓ} : {A : Type ℓ} (xs ys : List A) → length (xs ++ ys) ≡ length xs + length ys
length-append [] ys = omega arith
length-append (x ∷ xs) ys = omega (arith, length-append xs ys)

pub has_newline-append :
    (xs ys : List ℕ) → has_newline (xs ++ ys) ≡ (has_newline xs || has_newline ys)
unfolding has_newline any
has_newline-append [] ys = refl
has_newline-append (x ∷ xs) ys = elim (Bool-cases (x == 10)) [
  | inl e ↦ rw e refl
  | inr e ↦ rw e (has_newline-append xs ys)
]

pub ends_with_newline-append : (xs : List ℕ) → ends_with_newline (xs ++ 10 ∷ []) ≡ true
unfolding ends_with_newline
ends_with_newline-append [] = refl
ends_with_newline-append (x ∷ []) = refl
ends_with_newline-append (x ∷ y ∷ xs) = ends_with_newline-append (y ∷ xs)

pub ends_with_newline-has : (xs : List ℕ) → has_newline xs ≡ false → ends_with_newline xs ≡ false
unfolding ends_with_newline has_newline any
ends_with_newline-has [] h = refl
ends_with_newline-has (x ∷ []) h = ground (arith, h)
ends_with_newline-has (x ∷ y ∷ xs) h = ends_with_newline-has (y ∷ xs) (ground (arith, h))

-- A text without a newline has no line.
pub lines_none : (xs : List ℕ) → has_newline xs ≡ false → lines xs ≡ []
unfolding lines has_newline any in_front
lines_none [] h = refl
lines_none (x ∷ xs) h = elim (Bool-cases (x == 10)) [
  | inl e ↦ cc (rw e at h)
  | inr e ↦ (let r = lines_none xs (rw e at h) in rw (e, r) refl)
]

-- The first line of a text ends at its first newline.
pub lines_first :
    (front rest : List ℕ)
    → has_newline front ≡ false
    → lines (front ++ 10 ∷ rest) ≡ (front ++ 10 ∷ []) ∷ lines rest
unfolding lines has_newline any in_front
lines_first [] rest h = refl
lines_first (x ∷ xs) rest h = elim (Bool-cases (x == 10)) [
  | inl e ↦ cc (rw e at h)
  | inr e ↦ (let r = lines_first xs rest (rw e at h) in rw (e, r) refl)
]
