-- ===== src/Aliases/Reference.antt =====
-- src/domain/aliases.rs: the entries that a target may mean, described without the resolver's loops.
use obsctl_rs.Prelude.{
  ℕ, suc, ◌-◌, ◌≡◌, refl, ap, ◌∙◌, true, false, Option, none, some, List, [], ◌∷◌, ◌++◌, arith,
  append-nil, find, retain, get_elem?, all, leb, Bool-cases, Option-cases, inl, inr, if◌then◌else◌,
  ◌==◌, list_eq, nat_eq, option_eq,
}
use obsctl_rs.Text.{Text, is_ascii_digit}
use obsctl_rs.Numbers.{parse_unsigned, u64_limit}
use obsctl_rs.Errors.{ResourceKind, scene, audio_input}
use obsctl_rs.Aliases.{
  AliasEntry, Reader, read_shortcut, read_alias, read_name, exact_match_order, first_exact,
  numbered_row,
}

-- The entries with a spelling that is the text.
unfoldable pub spelled : Reader → Text → List AliasEntry → List AliasEntry
spelled read text entries = retain (λ e. read e == some text) entries

-- The entries that are spelled as the text: those with the shortcut, then the alias, then the name.
unfoldable pub exact : Text → List AliasEntry → List AliasEntry
exact text entries =
    spelled (λ e. e.shortcut) text entries
    ++ (spelled (λ e. e.alias) text entries ++ spelled (λ e. some e.name) text entries)

unfoldable pub first : List AliasEntry → Option AliasEntry
first [] = none
first (e ∷ rest) = some e

-- The row with a number, where the rows of a list are numbered from `k` on.
unfoldable pub row_from : ℕ → List AliasEntry → ℕ → Option AliasEntry
row_from k [] number = none
row_from k (e ∷ rows) number =
    let later = row_from (suc k) rows number in if number == k then some e else later

-- The row of a scene list that a text of digits numbers, from 1 on.
unfoldable pub row : ResourceKind → Text → List AliasEntry → Option AliasEntry
row audio_input text entries = none
row scene text entries =
    if all is_ascii_digit text
    then elim (parse_unsigned u64_limit text) [
      | some number ↦ row_from 1 entries number
      | none ↦ none
    ]
    else none

first-spelled :
    (read : Reader) (text : Text) (xs ys : List AliasEntry)
    → first (spelled read text xs ++ ys)
      ≡ elim (find (λ e. read e == some text) xs) [ some e ↦ some e | none ↦ first ys ]
unfolding first spelled retain find
first-spelled read text [] ys = refl
first-spelled read text (x ∷ xs) ys = ground (arith, first-spelled read text xs ys)

-- One round of the loop, where the rest of the order finds the first of the rest.
first_exact-cons :
    (read : Reader) (order : List Reader) (text : Text) (entries ys : List AliasEntry)
    → first_exact order text entries ≡ first ys
    → first_exact (read ∷ order) text entries ≡ first (spelled read text entries ++ ys)
unfolding first_exact
first_exact-cons read order text entries ys h =
    elim (Option-cases (find (λ e. read e == some text) entries)) [
      | inl miss ↦ rw (first-spelled read text entries ys, miss, first_exact) h
      | inr (x, hit) ↦ rw (first-spelled read text entries ys, hit, first_exact) refl
    ]

-- The loop over the exact spellings finds the first of them.
pub first_exact-exact :
    (text : Text) (entries : List AliasEntry)
    → first_exact exact_match_order text entries ≡ first (exact text entries)
unfolding exact_match_order exact first_exact first
first_exact-exact text entries =
    first_exact-cons read_shortcut (read_alias ∷ read_name ∷ []) text entries _ (
      first_exact-cons read_alias (read_name ∷ []) text entries _
        (first_exact-cons read_name [] text entries [] refl ∙ ap first (append-nil _)))

row_from-get_elem :
    (k : ℕ) (rows : List AliasEntry) (number : ℕ)
    → row_from k rows number ≡ (if leb k number then get_elem? rows (number - k) else none)
unfolding row_from
row_from-get_elem k [] number = ground arith
row_from-get_elem k (e ∷ rows) number = elim (Bool-cases (number == k)) [
  | inl same ↦
      (let e0 : number - k ≡ 0 = ground (arith, same) in
        let le : leb k number ≡ true = ground (arith, same) in rw (same, le, e0) refl)
  | inr other ↦ elim (Bool-cases (leb k number)) [
    | inl below ↦
        (let next : leb (suc k) number ≡ true = ground (arith, other, below) in
          let e1 : number - k ≡ suc (number - suc k) = ground (arith, other, below) in
          rw (other, below, e1) (row_from-get_elem (suc k) rows number ∙ rw next refl))
    | inr above ↦
        (let next : leb (suc k) number ≡ false = ground (arith, above) in
          rw (other, above) (row_from-get_elem (suc k) rows number ∙ rw next refl))
  ]
]

no_number : parse_unsigned u64_limit [] ≡ none
unfolding parse_unsigned
no_number = refl

pub numbered_row-row :
    (kind : ResourceKind) (text : Text) (entries : List AliasEntry)
    → numbered_row kind text entries ≡ row kind text entries
unfolding numbered_row row all
numbered_row-row audio_input text entries = refl
numbered_row-row scene [] entries = rw no_number refl
numbered_row-row scene (c ∷ text) entries =
    elim (Option-cases (parse_unsigned u64_limit (c ∷ text))) [
      | inl bad ↦ rw (bad, numbered_row, row) refl
      | inr (number, good) ↦ rw (good, row_from-get_elem 1 entries number) refl
    ]
