-- ===== src/Palette/Complete.antt =====
-- The completed lines of src/tui/completion.rs against `parse` of src/domain/parser.rs.
use obsctl_rs.Prelude.{
  ℕ, zero, suc, ◌≡◌, refl, ap, subst, ◌∙◌, true, false, some, append_assoc, all, List, [], ◌∷◌,
  ◌++◌, ok, arith, All, In, any, find, get_elem?, nat_eq, list_eq, Bool-cases, inl, inr,
}
use mathlib.Core.Option.{some-injective}
use obsctl_rs.Text.{
  Text, text, is_whitespace, is_control, is_empty, trim_start, trim_end, trim, to_ascii_lowercase,
}
use obsctl_rs.Names.{checked_name, normalized_name, trim_and_validate_token_with_max_len}
use obsctl_rs.Names.Laws.{IsName, IsName-checked_name}
use obsctl_rs.Command.{
  Command, set_scene, set_profile, set_scene_collection, set_scene_profile, delete_scene_profile,
  mute, unmute, toggle_mute,
}
use obsctl_rs.Tokens.{Token, needs_quotes, quote_argument, completion, complete_candidate}
use obsctl_rs.Tokens.Quote.{quoted_token, tokenize-completion}
use obsctl_rs.Palette.{
  palette_commands, is_palette_prefix, is_spelled, trim_prefixes, sanitize_target,
  normalize_command_name, target_of, one_target, find_spec, build_checked, dispatch, parse_tokens,
  parse,
}

-- The commands that take one argument, by their canonical names.
unfoldable pub one_argument : List (Text × (Text → Command))
one_argument =
    (text "scene", set_scene)
    ∷ (text "profile", set_profile)
    ∷ (text "collection", set_scene_collection)
    ∷ (text "scene-profile", set_scene_profile)
    ∷ (text "scene-profile-delete", delete_scene_profile)
    ∷ (text "mute", mute)
    ∷ (text "unmute", unmute)
    ∷ (text "toggle-mute", toggle_mute)
    ∷ []

trim_end-append :
    (xs ys : Text) → is_empty (trim_end ys) ≡ false → trim_end (xs ++ ys) ≡ xs ++ trim_end ys
unfolding trim_end
trim_end-append [] ys h = refl
trim_end-append (x ∷ []) ys h = ground arith
trim_end-append (x ∷ y ∷ xs) ys h = ground (arith, trim_end-append (y ∷ xs) ys h)

-- A text without blanks is not trimmed at its end.
trim_end-plain : (n : Text) → any needs_quotes n ≡ false → trim_end n ≡ n
unfolding trim_end any needs_quotes
trim_end-plain [] h = refl
trim_end-plain (c ∷ cs) h = ground (arith, trim_end-plain cs)

trim_end-quote_argument :
    (n : Text)
    → is_empty n ≡ false
    → (trim_end (quote_argument n) ≡ quote_argument n) × (is_empty (quote_argument n) ≡ false)
unfolding quote_argument
trim_end-quote_argument n h = elim (Bool-cases (any needs_quotes n)) [
  | inl quotes ↦ rw quotes (
    trim_end-append (b'"' ∷ _) (b'"' ∷ []) (unfold trim_end is_whitespace in refl)
        ∙ unfold trim_end is_whitespace in refl,
    refl,
  )
  | inr plain ↦ rw plain (trim_end-plain n plain, h)
]

-- A name that the parser takes as it stands.
pub record IsCommandName (cmd : Text) (make : Text → Command) : Type 0 where
  pub plain : any needs_quotes cmd ≡ false
  pub present : is_empty cmd ≡ false
  pub starts :
      (rest : Text)
      → (trim_start (cmd ++ rest) ≡ cmd ++ rest) × (trim_prefixes (cmd ++ rest) ≡ cmd ++ rest)
  pub normal : normalized_name cmd ≡ ok cmd
  pub row : (t : Token) → dispatch cmd (t ∷ []) (find_spec cmd) ≡ one_target make (t ∷ [])

rows-IsCommandName : All (λ c. IsCommandName c.0 c.1) one_argument
unfolding one_argument any needs_quotes is_whitespace text trim_start trim_prefixes
    is_palette_prefix normalized_name checked_name trim_and_validate_token_with_max_len is_control
    trim to_ascii_lowercase dispatch find_spec palette_commands find is_spelled build_checked
rows-IsCommandName = (
  record {
    plain = refl;
    present = refl;
    starts = λ rest. (refl, refl);
    normal = refl;
    row = λ t. refl;
  },
  (
    record {
      plain = refl;
      present = refl;
      starts = λ rest. (refl, refl);
      normal = refl;
      row = λ t. refl;
    },
    (
      record {
        plain = refl;
        present = refl;
        starts = λ rest. (refl, refl);
        normal = refl;
        row = λ t. refl;
      },
      (
        record {
          plain = refl;
          present = refl;
          starts = λ rest. (refl, refl);
          normal = refl;
          row = λ t. refl;
        },
        (
          record {
            plain = refl;
            present = refl;
            starts = λ rest. (refl, refl);
            normal = refl;
            row = λ t. refl;
          },
          (
            record {
              plain = refl;
              present = refl;
              starts = λ rest. (refl, refl);
              normal = refl;
              row = λ t. refl;
            },
            (
              record {
                plain = refl;
                present = refl;
                starts = λ rest. (refl, refl);
                normal = refl;
                row = λ t. refl;
              },
              (
                record {
                  plain = refl;
                  present = refl;
                  starts = λ rest. (refl, refl);
                  normal = refl;
                  row = λ t. refl;
                },
                tt,
              ),
            ),
          ),
        ),
      ),
    ),
  ),
)

completion-trim :
    (cmd n : Text) (make : Text → Command)
    → IsCommandName cmd make
    → is_empty n ≡ false
    → (trim_end (completion cmd n) ≡ completion cmd n)
      × (trim_start (completion cmd n) ≡ completion cmd n)
unfolding completion
completion-trim cmd n make h present =
    let (kept, filled) = trim_end-quote_argument n present in
    let tail : trim_end (b' ' ∷ quote_argument n) ≡ b' ' ∷ quote_argument n =
      unfold trim_end in rw (kept, filled) refl in
    (
      trim_end-append cmd (b' ' ∷ quote_argument n) (ap is_empty tail) ∙ ap (λ t. cmd ++ t) tail,
      (h.starts (b' ' ∷ quote_argument n)).0,
    )

prefix-visible : (p : ℕ) → is_palette_prefix p ≡ true → is_whitespace p ≡ false
unfolding is_palette_prefix any is_whitespace
prefix-visible p h = ground (arith, h)

trim_start-prefix :
    (prefix line : Text)
    → all is_palette_prefix prefix ≡ true
    → trim_start line ≡ line
    → trim_start (prefix ++ line) ≡ prefix ++ line
unfolding trim_start all
trim_start-prefix [] line h same = same
trim_start-prefix (p ∷ prefix) line h same = rw (prefix-visible p (ground (arith, h))) refl

trim_prefixes-prefix :
    (prefix line : Text)
    → all is_palette_prefix prefix ≡ true
    → trim_prefixes (prefix ++ line) ≡ trim_prefixes line
unfolding trim_prefixes all
trim_prefixes-prefix [] line h = refl
trim_prefixes-prefix (p ∷ prefix) line h = ground (arith, h, trim_prefixes-prefix prefix line)

-- The prefixes of a line that is trimmed are cut off.
prefixed-trim :
    (prefix line : Text)
    → all is_palette_prefix prefix ≡ true
    → is_empty line ≡ false
    → trim_end line ≡ line
    → trim_start line ≡ line
    → trim_prefixes (trim (prefix ++ line)) ≡ trim_prefixes line
unfolding trim
prefixed-trim prefix line h present right left =
    rw (trim_start-prefix prefix line h left, trim_end-append prefix line (rw right present), right)
      (trim_prefixes-prefix prefix line h)

parse_tokens-completed :
    (cmd n : Text) (make : Text → Command)
    → IsCommandName cmd make
    → IsName n
    → parse_tokens (record { text = cmd; quoted = false } ∷ quoted_token n ∷ [])
      ≡ some (ok (make n))
unfolding parse_tokens normalize_command_name
parse_tokens-completed cmd n make h name =
    rw (h.normal, parse_tokens)
      (h.row (quoted_token n)
        ∙ unfold one_target target_of sanitize_target quoted_token in
          rw (IsName-checked_name n name) refl)

is_empty-append : (xs ys : Text) → is_empty xs ≡ false → is_empty (xs ++ ys) ≡ false
is_empty-append [] ys h = cc h
is_empty-append (x ∷ xs) ys h = refl

completion-present : (cmd n : Text) → is_empty cmd ≡ false → is_empty (completion cmd n) ≡ false
unfolding completion
completion-present cmd n h = is_empty-append cmd (b' ' ∷ quote_argument n) h

completion-prefixes :
    (cmd n : Text) (make : Text → Command)
    → IsCommandName cmd make
    → trim_prefixes (completion cmd n) ≡ completion cmd n
unfolding completion
completion-prefixes cmd n make h = (h.starts (b' ' ∷ quote_argument n)).1

parse-completed :
    (prefix cmd n : Text) (make : Text → Command)
    → all is_palette_prefix prefix ≡ true
    → IsCommandName cmd make
    → IsName n
    → parse (prefix ++ completion cmd n) ≡ some (ok (make n))
unfolding parse
parse-completed prefix cmd n make p h name =
    let (right, left) = completion-trim cmd n make h name.present in
    let present = completion-present cmd n h.present in
    rw
      (
        prefixed-trim prefix (completion cmd n) p present right left,
        completion-prefixes cmd n make h,
        tokenize-completion cmd n h.plain h.present name.present,
        parse_tokens-completed cmd n make h name,
        present,
      )
      refl

at_row :
    (rows : List (Text × (Text → Command))) (i : ℕ) (c : Text × (Text → Command))
    → All (λ c. IsCommandName c.0 c.1) rows
    → get_elem? rows i ≡ some c
    → IsCommandName c.0 c.1
at_row [] i c all h = cc h
at_row (x ∷ rows) zero c all h = subst (λ c. IsCommandName c.0 c.1) (some-injective x c h) all.0
at_row (x ∷ rows) (suc i) c all h = at_row rows i c all.1 h

candidate-prefixed :
    (prefix cmd n : Text)
    → any needs_quotes cmd ≡ false
    → complete_candidate prefix cmd n ≡ prefix ++ completion cmd n
unfolding complete_candidate completion
candidate-prefixed prefix cmd n plain =
    rw (trim_end-plain cmd plain) (append_assoc prefix cmd (b' ' ∷ quote_argument n))

-- For each palette command that takes a name alone, after any number of palette prefixes, and for
-- each usable name, the parser reads the line that completes the command with the name, quoted
-- where it must be, as that command on that name.
pub parse-completion :
    (prefix cmd n : Text) (make : Text → Command)
    → all is_palette_prefix prefix ≡ true
    → In (cmd, make) one_argument
    → IsName n
    → parse (complete_candidate prefix cmd n) ≡ some (ok (make n))
parse-completion prefix cmd n make p (i, at) name =
    let h = at_row one_argument i (cmd, make) rows-IsCommandName at in
    ap parse (candidate-prefixed prefix cmd n h.plain) ∙ parse-completed prefix cmd n make p h name
