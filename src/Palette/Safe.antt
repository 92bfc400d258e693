-- ===== src/Palette/Safe.antt =====
-- src/domain/parser.rs: the indices that the builders read, and the bounds of the commands.
use obsctl_rs.Prelude.{
  ℕ, zero, suc, ◌≤◌, ◌≡◌, subst, true, false, Option, none, some, List, [], ◌∷◌, ok, err, arith,
  All, In, In-find, find, length, ◌==◌, ==_iff, nat_eq, Bool-cases, Option-cases, Result-cases, inl,
  inr,
}
use obsctl_rs.Text.{Text, trim, is_empty}
use obsctl_rs.Names.{checked_name}
use obsctl_rs.Names.Laws.{IsName, checked_name-IsName}
use obsctl_rs.Command.{
  Command, set_scene, set_profile, set_scene_collection, set_scene_profile, delete_scene_profile,
  mute, unmute, toggle_mute, set_volume,
}
use obsctl_rs.Tokens.{Token, tokenize}
use obsctl_rs.Palette.{
  Parsed, PaletteCommandSpec, sanitize_target, normalize_command_name, target_of, one_target,
  parse_volume_percent, set_volume_of, build_set_volume, palette_commands, is_spelled, find_spec,
  build_checked, dispatch, parse_tokens, trim_prefixes, parse,
}

-- The target of a command is a usable name, and a volume is at most 100 percent.
unfoldable pub IsValid : Command → Type 0
IsValid (set_scene t) = IsName t
IsValid (set_profile t) = IsName t
IsValid (set_scene_collection t) = IsName t
IsValid (set_scene_profile t) = IsName t
IsValid (delete_scene_profile t) = IsName t
IsValid (mute t) = IsName t
IsValid (unmute t) = IsName t
IsValid (toggle_mute t) = IsName t
IsValid (set_volume t percent) = IsName t × (percent ≤ 100)
IsValid _ = Unit

-- No panic; and a command that is returned is valid.
unfoldable pub IsSafe : Option Parsed → Type 0
IsSafe none = true ≡ false
IsSafe (some (err e)) = Unit
IsSafe (some (ok c)) = IsValid c

-- What a row builds from as many arguments as it takes is safe.
abbrev pub HasSafeBuild : PaletteCommandSpec → Type 0
HasSafeBuild s = (args : List Token) → length args ≡ s.arity → IsSafe (s.build args)

sanitize_target-IsName : (v t : Text) → sanitize_target v ≡ ok t → IsName t
unfolding sanitize_target
sanitize_target-IsName v t h = elim (Result-cases (checked_name v)) [
  | inl (u, good) ↦ checked_name-IsName v t (ground arith)
  | inr (e, bad) ↦ cc (rw bad at h)
]

one_target-IsSafe :
    (make : Text → Command)
    → ((t : Text) → IsName t → IsValid (make t))
    → (args : List Token) → length args ≡ 1
    → IsSafe (one_target make args)
unfolding one_target target_of IsSafe
one_target-IsSafe make valid [] h = cc h
one_target-IsSafe make valid (first ∷ args) h = elim (Result-cases (sanitize_target first.text)) [
  | inl (t, good) ↦ rw good (valid t (sanitize_target-IsName first.text t good))
  | inr (e, bad) ↦ rw bad tt
]

parse_volume_percent-le : (v : Text) (p : ℕ) → parse_volume_percent v ≡ ok p → p ≤ 100
unfolding parse_volume_percent
parse_volume_percent-le v p h = ground arith

set_volume_of-IsSafe : (target percent : Token) → IsSafe (some (set_volume_of target percent))
unfolding set_volume_of IsSafe IsValid
set_volume_of-IsSafe target percent = elim (Bool-cases percent.quoted) [
  | inl quoted ↦ rw quoted tt
  | inr plain ↦ elim (Result-cases (parse_volume_percent percent.text)) [
    | inr (e, bad) ↦ rw (plain, bad) tt
    | inl (p, good) ↦ elim (Result-cases (sanitize_target target.text)) [
      | inr (e, bad) ↦ rw (plain, good, bad) tt
      | inl (t, named) ↦
          rw (plain, good, named)
            (
              sanitize_target-IsName target.text t named,
              parse_volume_percent-le percent.text p good,
            )
    ]
  ]
]

build_set_volume-IsSafe : (args : List Token) → length args ≡ 2 → IsSafe (build_set_volume args)
unfolding build_set_volume IsSafe
build_set_volume-IsSafe [] h = cc h
build_set_volume-IsSafe (a ∷ []) h = cc h
build_set_volume-IsSafe (a ∷ b ∷ args) h = set_volume_of-IsSafe a b

rows-HasSafeBuild : All HasSafeBuild palette_commands
unfolding palette_commands IsSafe IsValid
rows-HasSafeBuild = (
  λ args h. tt,
  (
    λ args h. tt,
    (
      one_target-IsSafe set_scene (λ t h. h),
      (
        one_target-IsSafe set_profile (λ t h. h),
        (
          one_target-IsSafe set_scene_collection (λ t h. h),
          (
            one_target-IsSafe set_scene_profile (λ t h. h),
            (
              λ args h. tt,
              (
                one_target-IsSafe delete_scene_profile (λ t h. h),
                (
                  one_target-IsSafe mute (λ t h. h),
                  (
                    one_target-IsSafe unmute (λ t h. h),
                    (
                      one_target-IsSafe toggle_mute (λ t h. h),
                      (
                        build_set_volume-IsSafe,
                        (
                          λ args h. tt,
                          (
                            λ args h. tt,
                            (
                              λ args h. tt,
                              (
                                λ args h. tt,
                                (
                                  λ args h. tt,
                                  (
                                    λ args h. tt,
                                    (
                                      λ args h. tt,
                                      (
                                        λ args h. tt,
                                        (
                                          λ args h. tt,
                                          (λ args h. tt, (λ args h. tt, (λ args h. tt, tt))),
                                        ),
                                      ),
                                    ),
                                  ),
                                ),
                              ),
                            ),
                          ),
                        ),
                      ),
                    ),
                  ),
                ),
              ),
            ),
          ),
        ),
      ),
    ),
  ),
)

All-In {ℓ κ} : {A : Type ℓ} (P : A → Type κ) (xs : List A) (a : A) → All P xs → In a xs → P a
All-In P [] a all (i, h) = cc
All-In P (x ∷ xs) a all (zero, h) = subst P (ground arith) all.0
All-In P (x ∷ xs) a all (suc i, h) = All-In P xs a all.1 (i, h)

dispatch-IsSafe :
    (head : Text) (args : List Token) (name : Text) → IsSafe (dispatch head args (find_spec name))
unfolding dispatch find_spec build_checked
dispatch-IsSafe head args name = elim (Option-cases (find (is_spelled name) palette_commands)) [
  | inl missing ↦ rw missing (unfold IsSafe in tt)
  | inr (s, found) ↦
      let here = (In-find (is_spelled name) palette_commands s found).0 in
      elim (Bool-cases (length args == s.arity)) [
        | inr wrong ↦ rw (found, wrong) (unfold IsSafe in tt)
        | inl right ↦
            rw (found, right)
              (All-In HasSafeBuild palette_commands s rows-HasSafeBuild here args
                ((==_iff (length args) s.arity).0 right))
      ]
]

parse_tokens-IsSafe : (tokens : List Token) → IsSafe (parse_tokens tokens)
unfolding parse_tokens
parse_tokens-IsSafe [] = unfold IsSafe in tt
parse_tokens-IsSafe (head ∷ args) = elim (Result-cases (normalize_command_name head.text)) [
  | inl (name, good) ↦ rw (good, parse_tokens) (dispatch-IsSafe head.text args name)
  | inr (e, bad) ↦ rw (bad, parse_tokens) (unfold IsSafe in tt)
]

-- The palette's parser indexes out of range on no input, and a command that it returns has a usable
-- name for its target and a volume of at most 100 percent.
pub parse-IsSafe : (input : Text) → IsSafe (parse input)
unfolding parse
parse-IsSafe input = elim (Bool-cases (is_empty (trim_prefixes (trim input)))) [
  | inl blank ↦ rw blank (unfold IsSafe in tt)
  | inr line ↦ elim (Result-cases (tokenize (trim_prefixes (trim input)))) [
    | inl (tokens, good) ↦ rw (line, good) (parse_tokens-IsSafe tokens)
    | inr (e, bad) ↦ rw (line, bad) (unfold IsSafe in tt)
  ]
]
