-- ===== src/Text/Case.antt =====
-- Laws of ASCII case folding.
use obsctl_rs.Prelude.{ℕ, suc, ◌≡◌, ◌∙◌, ap, refl, map, [], ◌∷◌, arith, length, any}
use obsctl_rs.Text.{
  Text, is_whitespace, is_control, is_empty, trim_start, trim_end, trim, lower_char,
  to_ascii_lowercase,
}

lower_char_idem : (c : ℕ) → lower_char (lower_char c) ≡ lower_char c
unfolding lower_char
lower_char_idem c = ground arith

is_whitespace-lower_char : (c : ℕ) → is_whitespace (lower_char c) ≡ is_whitespace c
unfolding lower_char is_whitespace
is_whitespace-lower_char c = ground arith

is_control-lower_char : (c : ℕ) → is_control (lower_char c) ≡ is_control c
unfolding lower_char is_control
is_control-lower_char c = ground arith

pub to_ascii_lowercase_idem :
    (s : Text) → to_ascii_lowercase (to_ascii_lowercase s) ≡ to_ascii_lowercase s
unfolding to_ascii_lowercase
to_ascii_lowercase_idem [] = refl
to_ascii_lowercase_idem (c ∷ cs) = cc (lower_char_idem c, to_ascii_lowercase_idem cs)

trim_start-lower : (s : Text) → trim_start (map lower_char s) ≡ map lower_char (trim_start s)
unfolding trim_start
trim_start-lower [] = refl
trim_start-lower (c ∷ cs) = ground (arith, is_whitespace-lower_char c, trim_start-lower cs)

is_empty-map : (s : Text) → is_empty (map lower_char s) ≡ is_empty s
is_empty-map [] = refl
is_empty-map (c ∷ cs) = refl

trim_end-lower : (s : Text) → trim_end (map lower_char s) ≡ map lower_char (trim_end s)
unfolding trim_end
trim_end-lower [] = refl
trim_end-lower (c ∷ cs) =
    ground (arith, is_whitespace-lower_char c, trim_end-lower cs, is_empty-map (trim_end cs))

pub trim-lower : (s : Text) → trim (to_ascii_lowercase s) ≡ to_ascii_lowercase (trim s)
trim-lower s =
    unfold trim to_ascii_lowercase in
    ap trim_end (trim_start-lower s) ∙ trim_end-lower (trim_start s)

pub any-control-lower : (s : Text) → any is_control (to_ascii_lowercase s) ≡ any is_control s
unfolding any to_ascii_lowercase
any-control-lower [] = refl
any-control-lower (c ∷ cs) = cc (is_control-lower_char c, any-control-lower cs)

pub length-lower : (s : Text) → length (to_ascii_lowercase s) ≡ length s
unfolding to_ascii_lowercase
length-lower [] = refl
length-lower (c ∷ cs) = ap suc (length-lower cs)

pub is_empty-lower : (s : Text) → is_empty (to_ascii_lowercase s) ≡ is_empty s
unfolding to_ascii_lowercase
is_empty-lower [] = refl
is_empty-lower (c ∷ cs) = refl
