-- ===== src/Text/Trim.antt =====
-- Laws of trimming.
use obsctl_rs.Prelude.{
  ◌≡◌, ◌∙◌, ap, refl, ℕ, Bool, true, false, ◌++◌, [], ◌∷◌, arith, any, all, Bool-cases, inl, inr,
}
use obsctl_rs.Text.{Text, is_whitespace, trim_start, trim_end, trim}

-- Whether the text begins with white space.
abbrev pub starts_blank : Text → Bool
starts_blank [] = false
starts_blank (c ∷ cs) = is_whitespace c

starts_blank-trim_start : (s : Text) → starts_blank (trim_start s) ≡ false
unfolding trim_start
starts_blank-trim_start [] = refl
starts_blank-trim_start (c ∷ cs) = ground (arith, starts_blank-trim_start cs)

trim_start-eq_self : (s : Text) → starts_blank s ≡ false → trim_start s ≡ s
unfolding trim_start
trim_start-eq_self [] h = refl
trim_start-eq_self (c ∷ cs) h = ground arith

starts_blank-trim_end : (s : Text) → starts_blank s ≡ false → starts_blank (trim_end s) ≡ false
unfolding trim_end
starts_blank-trim_end [] h = refl
starts_blank-trim_end (c ∷ cs) h = ground arith

pub trim_end_idem : (s : Text) → trim_end (trim_end s) ≡ trim_end s
unfolding trim_end
trim_end_idem [] = refl
trim_end_idem (c ∷ cs) = ground (arith, trim_end_idem cs)

pub trim_idem : (s : Text) → trim (trim s) ≡ trim s
trim_idem s =
    unfold trim in
    ap trim_end (
      trim_start-eq_self (trim_end (trim_start s))
        (starts_blank-trim_end (trim_start s) (starts_blank-trim_start s)))
    ∙ trim_end_idem (trim_start s)

-- A property of single characters that fails nowhere in a text fails nowhere in the trimmed text.
module _ (p : ℕ → Bool) where
  any-trim_start : (s : Text) → any p s ≡ false → any p (trim_start s) ≡ false
  unfolding any trim_start
  any-trim_start [] h = refl
  any-trim_start (c ∷ cs) h = ground (arith, any-trim_start cs)

  any-trim_end : (s : Text) → any p s ≡ false → any p (trim_end s) ≡ false
  unfolding any trim_end
  any-trim_end [] h = refl
  any-trim_end (c ∷ cs) h = ground (arith, any-trim_end cs)

  pub any-trim : (s : Text) → any p s ≡ false → any p (trim s) ≡ false
  any-trim s h = unfold trim in any-trim_end (trim_start s) (any-trim_start s h)

-- Padding with white space does not change the trimmed text.
trim_start-pad :
    (pad s : Text) → all is_whitespace pad ≡ true → trim_start (pad ++ s) ≡ trim_start s
unfolding all trim_start
trim_start-pad [] s h = refl
trim_start-pad (c ∷ cs) s h = ground (arith, trim_start-pad cs s)

trim_end-blank : (pad : Text) → all is_whitespace pad ≡ true → trim_end pad ≡ []
unfolding all trim_end
trim_end-blank [] h = refl
trim_end-blank (c ∷ cs) h = ground (arith, trim_end-blank cs)

trim_end-pad : (s pad : Text) → all is_whitespace pad ≡ true → trim_end (s ++ pad) ≡ trim_end s
unfolding trim_end
trim_end-pad [] pad h = trim_end-blank pad h
trim_end-pad (c ∷ cs) pad h = ground (arith, trim_end-pad cs pad h)

trim_start-blank : (s : Text) → all is_whitespace s ≡ true → trim_start s ≡ []
unfolding all trim_start
trim_start-blank [] h = refl
trim_start-blank (c ∷ cs) h = ground (arith, trim_start-blank cs)

trim_start-append :
    (s pad : Text)
    → all is_whitespace pad ≡ true
    → trim_end (trim_start (s ++ pad)) ≡ trim_end (trim_start s)
unfolding trim_start
trim_start-append [] pad h = ap trim_end (trim_start-blank pad h)
trim_start-append (c ∷ cs) pad h = elim (Bool-cases (is_whitespace c)) [
  | inl e ↦ ground (arith, trim_start-append cs pad h)
  | inr e ↦ ground (arith, trim_end-pad (c ∷ cs) pad h)
]

pub trim-pad :
    (before s after : Text)
    → all is_whitespace before ≡ true
    → all is_whitespace after ≡ true
    → trim (before ++ (s ++ after)) ≡ trim s
trim-pad before s after h k =
    unfold trim in ap trim_end (trim_start-pad before (s ++ after) h) ∙ trim_start-append s after k
