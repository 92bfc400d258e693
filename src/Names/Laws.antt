-- ===== src/Names/Laws.antt =====
-- src/domain/names.rs: what a checked name and a normalized name are.
use obsctl_rs.Prelude.{
  ℕ, ◌≤◌, ◌≡◌, ◌↔◌, ◌∙◌, ap, sym, refl, subst, Bool, true, false, ◌++◌, [], ◌∷◌, arith, Result, ok,
  err, map_ok, any, all, length,
}
use obsctl_rs.Text.{Text, is_control, is_whitespace, is_empty, trim, to_ascii_lowercase}
use obsctl_rs.Text.Trim.{trim_idem, any-trim, trim-pad}
use obsctl_rs.Text.Case.{
  to_ascii_lowercase_idem, trim-lower, any-control-lower, length-lower, is_empty-lower,
}
use obsctl_rs.Names.{
  max_target_token_length, trim_and_validate_token_with_max_len, checked_name, normalized_name,
}

-- A usable name: trimmed, not blank, of at most 256 characters, with no control character.
pub record IsName (w : Text) : Type 0 where
  pub plain : any is_control w ≡ false
  pub trimmed : trim w ≡ w
  pub present : is_empty w ≡ false
  pub short : length w ≤ max_target_token_length

pub checked_name-eq_ok :
    (v w : Text)
    → checked_name v ≡ ok w
    → (any is_control v ≡ false)
      × (trim v ≡ w)
      × (is_empty w ≡ false)
      × (length w ≤ max_target_token_length)
unfolding checked_name trim_and_validate_token_with_max_len
checked_name-eq_ok v w h = ground arith

-- What the check on names returns is trimmed, not empty, of at most 256 characters and without
-- control characters.
pub checked_name-IsName : (v w : Text) → checked_name v ≡ ok w → IsName w
checked_name-IsName v w h =
    let (plain, cut, present, short) = checked_name-eq_ok v w h in
    record {
      plain = subst (λ t. any is_control t ≡ false) cut (any-trim is_control v plain);
      trimmed = ap trim (sym cut) ∙ trim_idem v ∙ cut;
      present = present;
      short = short;
    }

pub IsName-checked_name : (w : Text) → IsName w → checked_name w ≡ ok w
unfolding checked_name trim_and_validate_token_with_max_len
IsName-checked_name w h = rw (h.plain, h.trimmed, h.present) (ground arith)

-- The check on names returns a text as it is exactly when the text is trimmed, not empty, of at
-- most 256 characters and without control characters.
checked_name_fixed : (w : Text) → (checked_name w ≡ ok w) ↔ IsName w
checked_name_fixed w = (checked_name-IsName w w, IsName-checked_name w)

-- The check sees a text in lower case as it sees the text, and answers in lower case.
pub checked_name-lower :
    (v : Text) → checked_name (to_ascii_lowercase v) ≡ map_ok to_ascii_lowercase (checked_name v)
unfolding checked_name trim_and_validate_token_with_max_len
checked_name-lower v =
    rw (any-control-lower v, trim-lower v, is_empty-lower (trim v), length-lower (trim v))
      (ground arith)

map_ok-lower_idem :
    {E : Type 0} (r : Result E Text)
    → map_ok to_ascii_lowercase (map_ok to_ascii_lowercase r) ≡ map_ok to_ascii_lowercase r
map_ok-lower_idem (ok w) = ap ok (to_ascii_lowercase_idem w)
map_ok-lower_idem (err e) = refl

-- Case does not matter to `normalized_name`.
pub normalized_name-lower : (v : Text) → normalized_name (to_ascii_lowercase v) ≡ normalized_name v
unfolding normalized_name
normalized_name-lower v = rw (checked_name-lower v) (map_ok-lower_idem (checked_name v))

pub checked_name_idem : (v w : Text) → checked_name v ≡ ok w → checked_name w ≡ ok w
checked_name_idem v w h = IsName-checked_name w (checked_name-IsName v w h)

map_ok-eq_ok :
    {E A B : Type 0} (f : A → B) (r : Result E A) (b : B)
    → map_ok f r ≡ ok b
    → (a : A) × (r ≡ ok a) × (f a ≡ b)
map_ok-eq_ok f (ok a) b h = (a, refl, cc)
map_ok-eq_ok f (err e) b h = cc

pub normalized_name-eq_ok :
    (v w : Text)
    → normalized_name v ≡ ok w
    → (u : Text) × (checked_name v ≡ ok u) × (to_ascii_lowercase u ≡ w)
unfolding normalized_name
normalized_name-eq_ok v w h = map_ok-eq_ok to_ascii_lowercase (checked_name v) w h

-- A normalized name is its own normalized form.
normalized_name_idem : (v w : Text) → normalized_name v ≡ ok w → normalized_name w ≡ ok w
normalized_name_idem v w h =
    let (u, checked, folded) = normalized_name-eq_ok v w h in
    rw (← folded, normalized_name-lower u)
      (unfold normalized_name in rw (checked_name_idem v u checked) refl)

-- Padding does not matter.
any-append : (p : ℕ → Bool) (a b : Text) → any p a ≡ false → any p (a ++ b) ≡ any p b
unfolding any
any-append p [] b h = refl
any-append p (c ∷ cs) b h = ground (arith, any-append p cs b)

any-append_right : (p : ℕ → Bool) (a b : Text) → any p b ≡ false → any p (a ++ b) ≡ any p a
unfolding any
any-append_right p [] b h = h
any-append_right p (c ∷ cs) b h = ground (arith, any-append_right p cs b)

-- A blank: white space that is no control character.
pub record IsPadding (s : Text) : Type 0 where
  pub white : all is_whitespace s ≡ true
  pub printable : any is_control s ≡ false

pub checked_name-pad :
    (before v after : Text)
    → IsPadding before
    → IsPadding after
    → checked_name (before ++ (v ++ after)) ≡ checked_name v
unfolding checked_name trim_and_validate_token_with_max_len
checked_name-pad before v after h k =
    rw
      (
        any-append is_control before (v ++ after) h.printable,
        any-append_right is_control v after k.printable,
        trim-pad before v after h.white k.white,
      )
      refl

-- The normalized form of a name depends neither on its ASCII case, nor on white space around it
-- that holds no control character.
pub normalized_name-pad :
    (before v after : Text)
    → IsPadding before
    → IsPadding after
    → normalized_name (before ++ (to_ascii_lowercase v ++ after)) ≡ normalized_name v
unfolding normalized_name
normalized_name-pad before v after h k =
    ap (map_ok to_ascii_lowercase) (checked_name-pad before (to_ascii_lowercase v) after h k)
    ∙ normalized_name-lower v
