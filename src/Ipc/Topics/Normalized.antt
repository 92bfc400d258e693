-- ===== src/Ipc/Topics/Normalized.antt =====
-- src/ipc/protocol.rs: the topics of a request against a description without a loop.
use obsctl_rs.Prelude.{
  ◌≡◌, refl, ◌∙◌, false, not, List, [], ◌∷◌, ◌++◌, Result, ok, err, any, filter_map, retain,
  is_some, length, ltb, Bool-cases, Option-cases, inl, inr, list_eq, nat_eq, if◌then◌else◌, ◌==◌,
}
use obsctl_rs.Text.{Text, is_empty}
use obsctl_rs.Sets.{contains, insert}
use obsctl_rs.Sets.Firsts.{firsts, push_new, push_new-firsts, contains-append}
use obsctl_rs.Server.Hub.{Topic}
use obsctl_rs.Ipc.Topics.{
  parse_topic, topic_eq, SubscribeTopicsError, empty_list, too_many_topics, unknown_topics, Scan,
  scan_parsed, scan_topics, max_subscribe_topics, normalize_subscribe_topics,
}

-- The spellings that are no topic's.
unfoldable pub unknown_of : List Text → List Text
unknown_of = retain (λ t. not (is_some (parse_topic t)))

-- What a request for topics is to be read as.
unfoldable pub expected : List Text → Result SubscribeTopicsError (List Topic)
expected topics =
    if is_empty topics
    then err empty_list
    else if ltb max_subscribe_topics (length topics)
    then err (too_many_topics (length topics) max_subscribe_topics)
    else if is_empty (unknown_of topics)
    then ok (firsts (filter_map parse_topic topics))
    else err (unknown_topics (firsts (unknown_of topics)))

contains-insert :
    (seen normalized : List Topic) (p y : Topic)
    → contains seen p ≡ false
    → ((z : Topic) → contains seen z ≡ contains normalized z)
    → contains (insert seen p) y ≡ contains (normalized ++ p ∷ []) y
unfolding insert contains any
contains-insert seen normalized p y fresh same =
    rw (fresh, contains-append normalized p y, ← same y)
      (elim (Bool-cases (p == y)) [
        | inl e ↦ elim (Bool-cases (contains seen y)) [
          | inl f ↦ rw (e, f) refl
          | inr f ↦ rw (e, f) refl
        ]
        | inr e ↦ elim (Bool-cases (contains seen y)) [
          | inl f ↦ rw (e, f) refl
          | inr f ↦ rw (e, f) refl
        ]
      ])

scan_topics-normalized :
    (topics : List Text) (scan : Scan)
    → ((z : Topic) → contains scan.seen z ≡ contains scan.normalized z)
    → (scan_topics scan topics).normalized
      ≡ push_new scan.normalized (filter_map parse_topic topics)
unfolding scan_topics scan_parsed push_new filter_map
scan_topics-normalized [] scan same = refl
scan_topics-normalized (t ∷ topics) scan same = elim (Option-cases (parse_topic t)) [
  | inl nothing ↦ elim (Bool-cases (contains scan.unknown t)) [
    | inl e ↦
        rw (scan_topics, nothing, scan_parsed, e, filter_map)
          (scan_topics-normalized topics scan same)
    | inr e ↦
        rw (scan_topics, nothing, scan_parsed, e, filter_map) (scan_topics-normalized topics _ same)
  ]
  | inr (p, hit) ↦ elim (Bool-cases (contains scan.seen p)) [
    | inl e ↦
        rw (scan_topics, hit, scan_parsed, e, filter_map, ← same p, e)
          (scan_topics-normalized topics scan same)
    | inr e ↦
        rw (scan_topics, hit, scan_parsed, e, filter_map, ← same p, e)
          (scan_topics-normalized topics _
            (λ y. contains-insert scan.seen scan.normalized p y e same))
  ]
]

scan_topics-unknown :
    (topics : List Text) (scan : Scan)
    → (scan_topics scan topics).unknown ≡ push_new scan.unknown (unknown_of topics)
unfolding scan_topics scan_parsed push_new unknown_of retain
scan_topics-unknown [] scan = refl
scan_topics-unknown (t ∷ topics) scan = elim (Option-cases (parse_topic t)) [
  | inl nothing ↦ elim (Bool-cases (contains scan.unknown t)) [
    | inl e ↦ rw (scan_topics, nothing, scan_parsed, e) (scan_topics-unknown topics scan)
    | inr e ↦ rw (scan_topics, nothing, scan_parsed, e) (scan_topics-unknown topics _)
  ]
  | inr (p, hit) ↦ elim (Bool-cases (contains scan.seen p)) [
    | inl e ↦ rw (scan_topics, hit, scan_parsed, e) (scan_topics-unknown topics scan)
    | inr e ↦ rw (scan_topics, hit, scan_parsed, e) (scan_topics-unknown topics _)
  ]
]

firsts_empty : (xs : List Text) → is_empty (firsts xs) ≡ is_empty xs
unfolding firsts
firsts_empty [] = refl
firsts_empty (x ∷ xs) = refl

-- For every list of spellings: an empty one and one of more than 16 are refused; else, if some
-- spelling is no topic's, the error lists each such spelling once, in the order of their first
-- occurrences; else the answer is the topics, each once, in the order of their first occurrences.
pub normalize_subscribe_topics-expected :
    (topics : List Text) → normalize_subscribe_topics topics ≡ expected topics
unfolding normalize_subscribe_topics expected
normalize_subscribe_topics-expected topics =
    let start : Scan = record { seen = []; normalized = []; unknown = [] } in
    let found =
      scan_topics-normalized topics start (λ z. refl)
      ∙ push_new-firsts (filter_map parse_topic topics) in
    let rest = scan_topics-unknown topics start ∙ push_new-firsts (unknown_of topics) in
    rw (found, rest, firsts_empty (unknown_of topics)) refl
