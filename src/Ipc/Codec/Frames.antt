-- ===== src/Ipc/Codec/Frames.antt =====
-- src/ipc/codec.rs: the frame of one value, and the first line of a text of bytes.
use obsctl_rs.Prelude.{
  ℕ, ◌+◌, ◌≤◌, ◌≡◌, refl, sym, ap, ◌∙◌, true, false, some, List, [], ◌∷◌, ◌++◌, append_assoc, ok,
  map_err, >>=-eq-ok, map_err-eq_ok, ok_injective, any, length, arith, ltb, Bool-cases, inl, inr,
  nat_eq,
}
use obsctl_rs.Text.{Text, is_empty}
use obsctl_rs.Ipc.Codec.{
  max_ipc_line_bytes, Format, is_line_end, trim_end_matches, encode, decode, encode_framed,
}
use obsctl_rs.Ipc.Codec.Lines.{has_newline, length-append, has_newline-append}
use obsctl_rs.Ipc.Codec.Reads.{IsLine}

-- A frame is trimmed to what was serialized.
trim_end_matches-append :
    (s : Text) → any is_line_end s ≡ false → trim_end_matches (s ++ 10 ∷ []) ≡ s
unfolding trim_end_matches any is_line_end
trim_end_matches-append [] h = refl
trim_end_matches-append (c ∷ s) h = elim (Bool-cases (is_line_end c)) [
  | inl e ↦ cc (rw e at h)
  | inr e ↦
      (let r = trim_end_matches-append s (rw e at h) in
        elim (Bool-cases (is_empty s)) [ inl f ↦ rw (r, f, e) refl | inr f ↦ rw (r, f) refl ])
]

-- The first line of a text is one line only.
lines_equal :
    (a b r s : List ℕ)
    → has_newline a ≡ false
    → has_newline b ≡ false
    → a ++ 10 ∷ r ≡ b ++ 10 ∷ s
    → (a ≡ b) × (r ≡ s)
unfolding has_newline any
lines_equal [] [] r s p q h = (refl, cc h)
lines_equal [] (y ∷ b) r s p q h = let e : 10 ≡ y = cc h in cc (rw (← e) at q)
lines_equal (x ∷ a) [] r s p q h = let e : x ≡ 10 = cc h in cc (rw e at p)
lines_equal (x ∷ a) (y ∷ b) r s p q h =
    let e : x ≡ y = cc h in
    let t : a ++ 10 ∷ r ≡ b ++ 10 ∷ s = cc h in
    let (f, g) = lines_equal a b r s (ground arith) (ground arith) t in (cc (e, f), g)

-- What comes before the first newline is no longer than the line.
plain_prefix :
    (a r p q : List ℕ) → has_newline p ≡ false → a ++ 10 ∷ r ≡ p ++ q → length p ≤ length a
unfolding has_newline any
plain_prefix a r [] q h e = omega arith
plain_prefix [] r (x ∷ p) q h e = let s : 10 ≡ x = cc e in cc (rw (← s) at h)
plain_prefix (y ∷ a) r (x ∷ p) q h e =
    let t : a ++ 10 ∷ r ≡ p ++ q = cc e in omega (arith, plain_prefix a r p q (ground (arith, h)) t)

opened : (line rest : List ℕ) (l : IsLine line) → line ++ rest ≡ l.front ++ 10 ∷ rest
opened line rest l = rw l.ends (append_assoc l.front (10 ∷ []) rest)

pub first_line : (a b r s : List ℕ) → IsLine a → IsLine b → a ++ r ≡ b ++ s → (a ≡ b) × (r ≡ s)
first_line a b r s l m h =
    let (f, e) =
      lines_equal l.front m.front r s l.plain m.plain (sym (opened a r l) ∙ h ∙ opened b s m) in
    (l.ends ∙ ap (λ t. t ++ 10 ∷ []) f ∙ sym m.ends, e)

pub line-has_newline : (line rest : List ℕ) → IsLine line → has_newline (line ++ rest) ≡ true
unfolding has_newline any
line-has_newline line rest l =
    rw (opened line rest l, has_newline-append l.front (10 ∷ rest), l.plain) refl

pub prefix-le :
    (line rest p q : List ℕ)
    → IsLine line
    → has_newline p ≡ false
    → line ++ rest ≡ p ++ q
    → length p ≤ length line
prefix-le line rest p q l h e =
    let short = plain_prefix l.front rest p q h (sym (opened line rest l) ∙ e) in
    let size : length line ≡ length l.front + 1 = rw l.ends (length-append l.front (10 ∷ [])) in
    omega (arith, short, size)

module _ {V : Type 0} (format : Format V) where
  -- What the code relies on: a value is read back from its text, which is not empty and on one line; and
  -- in UTF-8 a character is a byte ten exactly where it is a newline.
  pub record IsFormat : Type 0 where
    pub reads_back : (v : V) (s : Text) → format.to_string v ≡ ok s → format.from_str s ≡ ok v
    pub one_line : (v : V) (s : Text) → format.to_string v ≡ ok s → any is_line_end s ≡ false
    pub filled : (v : V) (s : Text) → format.to_string v ≡ ok s → is_empty s ≡ false
    pub utf8 : (s : Text) → format.from_utf8 (format.as_bytes s) ≡ some s
    pub newline : (s : Text) → format.as_bytes (s ++ 10 ∷ []) ≡ format.as_bytes s ++ 10 ∷ []
    pub plain : (s : Text) → any is_line_end s ≡ false → has_newline (format.as_bytes s) ≡ false

  -- A frame that was encoded is a line that is not too long, and is decoded to its value.
  pub record IsFrame (v : V) (line : Text) : Type 0 where
    pub whole : IsLine (format.as_bytes line)
    pub fits : length (format.as_bytes line) ≤ max_ipc_line_bytes
    pub decoded : decode format line ≡ ok v

  pub encode_framed-IsFrame :
      (v : V) (line : Text) → IsFormat → encode_framed format v ≡ ok line → IsFrame v line
  unfolding encode_framed encode decode
  encode_framed-IsFrame v line law h =
      let (e, encoded, h1) = >>=-eq-ok (map_err _ (encode format v)) _ h in
      let (s, written, h2) =
        >>=-eq-ok (map_err _ (format.to_string v)) _
          (map_err-eq_ok _ (encode format v) e encoded) in
      let text = map_err-eq_ok _ (format.to_string v) s written in
      let whole = ok_injective _ _ h2 in
      elim (Bool-cases (ltb max_ipc_line_bytes (length (format.as_bytes e)))) [
        | inl long ↦ cc (rw long at h1)
        | inr fits ↦
            (let same = ok_injective _ _ (rw fits at h1) in
              let line_is : line ≡ s ++ 10 ∷ [] = sym same ∙ sym whole in
              record {
                whole = record {
                  front = format.as_bytes s;
                  plain = law.plain s (law.one_line v s text);
                  ends = rw line_is (law.newline s);
                };
                fits = rw (← same) (ground (arith, fits));
                decoded =
                    rw
                      (
                        line_is,
                        trim_end_matches-append s (law.one_line v s text),
                        law.filled v s text,
                        law.reads_back v s text,
                      )
                      refl;
              })
      ]
