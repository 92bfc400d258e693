-- ===== src/Ipc/Topics.antt =====
-- src/ipc/protocol.rs: the topics that a client may subscribe to, and the reading of a request for some.
pub mod Normalized
pub mod Tests
use obsctl_rs.Prelude.{
  ℕ, ◌≡◌, ◌↔◌, refl, Bool, true, false, Option, none, some, List, [], ◌∷◌, ◌++◌, Result, ok, err,
  find, any, length, ltb, PartialEq, if◌then◌else◌, ◌==◌, list_eq, nat_eq,
}
use obsctl_rs.Text.{Text, text, is_empty}
use obsctl_rs.Sets.{contains, insert}
use obsctl_rs.Server.Hub.{Topic, state, events, logs}

unfoldable max_subscribe_topics : ℕ
max_subscribe_topics = 16

unfoldable all_topics : List Topic
all_topics = state ∷ events ∷ logs ∷ []

unfoldable topic_str : Topic → Text
topic_str state = text "state"
topic_str events = text "events"
topic_str logs = text "logs"

unfoldable parse_topic : Text → Option Topic
parse_topic topic = find (λ known. topic_str known == topic) all_topics

-- The derived `PartialEq`.
unfoldable same_topic : Topic → Topic → Bool
same_topic state state = true
same_topic events events = true
same_topic logs logs = true
same_topic _ _ = false

same_topic_iff : (a b : Topic) → (same_topic a b ≡ true) ↔ (a ≡ b)
unfolding same_topic
same_topic_iff state state = (λ h. refl, λ e. refl)
same_topic_iff events events = (λ h. refl, λ e. refl)
same_topic_iff logs logs = (λ h. refl, λ e. refl)
same_topic_iff state events = (λ h. cc h, λ e. cc e)
same_topic_iff state logs = (λ h. cc h, λ e. cc e)
same_topic_iff events state = (λ h. cc h, λ e. cc e)
same_topic_iff events logs = (λ h. cc h, λ e. cc e)
same_topic_iff logs state = (λ h. cc h, λ e. cc e)
same_topic_iff logs events = (λ h. cc h, λ e. cc e)

instance abbrev topic_eq : PartialEq Topic
topic_eq = record { same = same_topic; sound = same_topic_iff }

pub data SubscribeTopicsError : Type 0 where
  empty_list : SubscribeTopicsError
  too_many_topics : ℕ → ℕ → SubscribeTopicsError
  unknown_topics : List Text → SubscribeTopicsError

-- The variables of the loop.
pub record Scan : Type 0 where
  pub seen : List Topic
  pub normalized : List Topic
  pub unknown : List Text

unfoldable scan_parsed : Scan → Text → Option Topic → Scan
scan_parsed scan topic (some parsed) =
    if contains scan.seen parsed
    then scan
    else record scan { seen = insert scan.seen parsed; normalized = scan.normalized ++ parsed ∷ [] }
scan_parsed scan topic none =
    if contains scan.unknown topic
    then scan
    else record scan { unknown = scan.unknown ++ topic ∷ [] }

unfoldable scan_topics : Scan → List Text → Scan
scan_topics scan [] = scan
scan_topics scan (topic ∷ topics) = scan_topics (scan_parsed scan topic (parse_topic topic)) topics

unfoldable normalize_subscribe_topics : List Text → Result SubscribeTopicsError (List Topic)
normalize_subscribe_topics topics =
    if is_empty topics
    then err empty_list
    else if ltb max_subscribe_topics (length topics)
    then err (too_many_topics (length topics) max_subscribe_topics)
    else (let scan = scan_topics (record { seen = []; normalized = []; unknown = [] }) topics in
        if is_empty scan.unknown then ok scan.normalized else err (unknown_topics scan.unknown))
