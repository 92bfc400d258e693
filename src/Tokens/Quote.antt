-- ===== src/Tokens/Quote.antt =====
-- `quote_argument` of src/tui/completion.rs against `tokenize` of src/domain/parser.rs.
use obsctl_rs.Prelude.{
  ℕ, ◌≡◌, refl, ap, sym, ◌∙◌, Bool, true, false, none, some, List, [], ◌∷◌, ◌++◌, append-nil,
  append_assoc, arith, ok, any, ◌==◌, nat_eq, ==_iff, Bool-cases, inl, inr,
}
use obsctl_rs.Text.{Text, is_whitespace, is_empty}
use obsctl_rs.Tokens.{
  Token, Lexer, is_quote, push, on_quote, finish_token, is_escape, on_char, lex, tokenize, replace,
  needs_quotes, quote_argument, completion,
}

-- A character that is no escape is read alone.
lex-cons :
    (c : ℕ) (cs : Text) (s : Lexer) → is_escape c s ≡ false → lex (c ∷ cs) s ≡ lex cs (on_char c s)
unfolding lex
lex-cons c [] s h = refl
lex-cons c (d ∷ cs) s h = rw (h, lex) refl

abbrev pushed : Text → Lexer → Lexer
pushed cs s = record s { current = s.current ++ cs }

on_char-plain :
    (c : ℕ) (s : Lexer)
    → needs_quotes c ≡ false
    → s.open_quote ≡ none
    → (is_escape c s ≡ false) × (on_char c s ≡ pushed (c ∷ []) s)
unfolding on_char needs_quotes is_quote is_escape push is_whitespace
on_char-plain c s h k = rw k (ground arith)

abbrev bare : List Token → Text → Bool → Lexer
bare tokens current q = record {
  tokens = tokens;
  current = current;
  current_quoted = q;
  open_quote = none;
}

-- A text without blanks, quotes and backslashes joins the current token.
lex-plain :
    (n rest : Text) (tokens : List Token) (current : Text) (q : Bool)
    → any needs_quotes n ≡ false
    → lex (n ++ rest) (bare tokens current q) ≡ lex rest (bare tokens (current ++ n) q)
unfolding any
lex-plain [] rest tokens current q h =
    ap (λ t. lex rest (bare tokens t q)) (sym (append-nil current))
lex-plain (c ∷ cs) rest tokens current q h =
    let (single, stays) = on_char-plain c (bare tokens current q) (ground arith) refl in
    lex-cons c (cs ++ rest) (bare tokens current q) single
    ∙ ap (lex (cs ++ rest)) stays
    ∙ lex-plain cs rest tokens (current ++ c ∷ []) q (ground arith)
    ∙ ap (λ t. lex rest (bare tokens t q)) (append_assoc current (c ∷ []) cs)

abbrev inside : List Token → Text → Lexer
inside tokens current = record {
  tokens = tokens;
  current = current;
  current_quoted = true;
  open_quote = some b'"';
}

abbrev escaped : Text → Text
escaped n = replace b'"' (b'\\' ∷ b'"' ∷ []) (replace b'\\' (b'\\' ∷ b'\\' ∷ []) n)

on_char-letter :
    (c : ℕ) (tokens : List Token) (current : Text)
    → (c == b'\\') ≡ false
    → (c == b'"') ≡ false
    → (is_escape c (inside tokens current) ≡ false)
      × (on_char c (inside tokens current) ≡ inside tokens (current ++ c ∷ []))
unfolding on_char is_quote is_escape push on_quote
on_char-letter c tokens current h k = rw (h, k) (ground arith)

-- What is left to show once a character has joined the token.
resume :
    (c d : ℕ) (cs rest : Text) (tokens : List Token) (current : Text) (before : Lexer)
    → c ≡ d
    → before ≡ lex rest (inside tokens ((current ++ d ∷ []) ++ cs))
    → before ≡ lex rest (inside tokens (current ++ c ∷ cs))
resume c d cs rest tokens current before same h =
    h
    ∙ ap (λ t. lex rest (inside tokens t))
        (append_assoc current (d ∷ []) cs ∙ ap (λ x. current ++ x ∷ cs) (sym same))

-- The character after a backslash joins the token.
lex-escape :
    (d : ℕ) (rest : Text) (tokens : List Token) (current : Text)
    → lex (b'\\' ∷ d ∷ rest) (inside tokens current) ≡ lex rest (inside tokens (current ++ d ∷ []))
unfolding lex is_escape push
lex-escape d rest tokens current = refl

-- Inside quotes, the escaped text joins the current token as it is.
lex-escaped :
    (n rest : Text) (tokens : List Token) (current : Text)
    → lex (escaped n ++ rest) (inside tokens current) ≡ lex rest (inside tokens (current ++ n))
unfolding replace
lex-escaped [] rest tokens current = ap (λ t. lex rest (inside tokens t)) (sym (append-nil current))
lex-escaped (c ∷ cs) rest tokens current = elim (Bool-cases (c == b'\\')) [
  | inl slash ↦ rw slash (
      resume c b'\\' cs rest tokens current _ ((==_iff c b'\\').0 slash) (
        lex-escape b'\\' (escaped cs ++ rest) tokens current
        ∙ lex-escaped cs rest tokens (current ++ b'\\' ∷ [])))
  | inr ordinary ↦ elim (Bool-cases (c == b'"')) [
    | inl quote ↦
        rw (ordinary, quote)
          (resume c b'"' cs rest tokens current _ ((==_iff c b'"').0 quote) (
            lex-escape b'"' (escaped cs ++ rest) tokens current
            ∙ lex-escaped cs rest tokens (current ++ b'"' ∷ [])))
    | inr letter ↦
        let (single, joins) = on_char-letter c tokens current ordinary letter in
        rw (ordinary, letter)
          (resume c c cs rest tokens current _ refl (
            lex-cons c (escaped cs ++ rest) (inside tokens current) single
            ∙ ap (lex (escaped cs ++ rest)) joins
            ∙ lex-escaped cs rest tokens (current ++ c ∷ [])))
  ]
]

-- The token of an argument that `quote_argument` wrote.
unfoldable pub quoted_token : Text → Token
quoted_token n = record { text = n; quoted = any needs_quotes n }

lex-quote_argument :
    (n : Text) (tokens : List Token)
    → lex (quote_argument n) (bare tokens [] false) ≡ bare tokens n (any needs_quotes n)
unfolding quote_argument
lex-quote_argument n tokens = elim (Bool-cases (any needs_quotes n)) [
  | inl quotes ↦ rw quotes (
      lex-cons b'"' (escaped n ++ b'"' ∷ []) (bare tokens [] false) (unfold is_escape in refl)
      ∙ unfold on_char on_quote is_quote in
        lex-escaped n (b'"' ∷ []) tokens []
        ∙ unfold lex is_escape on_char on_quote is_quote in refl)
  | inr plain ↦ rw plain (
      ap (λ t. lex t (bare tokens [] false)) (sym (append-nil n))
      ∙ lex-plain n [] tokens [] false plain
      ∙ unfold lex in refl)
]

on_char-blank :
    (cmd : Text)
    → is_empty cmd ≡ false
    → on_char b' ' (bare [] cmd false) ≡ bare (record { text = cmd; quoted = false } ∷ []) [] false
unfolding on_char is_quote is_escape finish_token
on_char-blank cmd h = rw h refl

-- For a command name without blanks, quotes and backslashes and an argument, neither of them empty,
-- the tokenizer splits the completed line into the name and the argument, which is marked as quoted
-- exactly when it needs quotes.
pub tokenize-completion :
    (cmd n : Text)
    → any needs_quotes cmd ≡ false
    → is_empty cmd ≡ false
    → is_empty n ≡ false
    → tokenize (completion cmd n) ≡ ok (record { text = cmd; quoted = false } ∷ quoted_token n ∷ [])
unfolding tokenize completion quoted_token finish_token
tokenize-completion cmd n h present named =
    rw
      (
        lex-plain cmd (b' ' ∷ quote_argument n) [] [] false h,
        lex-cons b' ' (quote_argument n) (bare [] cmd false) (unfold is_escape in refl),
        on_char-blank cmd present,
        lex-quote_argument n (record { text = cmd; quoted = false } ∷ []),
        named,
      )
      refl
