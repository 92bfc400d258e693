-- ===== src/Ipc/Topics/Tests.antt =====
-- Requests for topics.
use obsctl_rs.Prelude.{◌≡◌, refl, List, [], ◌∷◌, ok, err, find, any}
use obsctl_rs.Text.{Text, text}
use obsctl_rs.Sets.{contains, insert}
use obsctl_rs.Server.Hub.{state, events}
use obsctl_rs.Ipc.Topics.{
  all_topics, topic_str, parse_topic, same_topic, unknown_topics, scan_parsed, scan_topics,
  max_subscribe_topics, normalize_subscribe_topics,
}
use obsctl_rs.Ipc.Topics.Normalized.{expected, normalize_subscribe_topics-expected}

abbrev repeated : List Text
repeated = text "events" ∷ text "state" ∷ text "events" ∷ []

repeated_once : normalize_subscribe_topics repeated ≡ ok (events ∷ state ∷ [])
unfolding normalize_subscribe_topics scan_topics scan_parsed parse_topic find all_topics topic_str
    same_topic contains insert any max_subscribe_topics text
repeated_once = refl

unknown_once :
    normalize_subscribe_topics (text "bad" ∷ text "state" ∷ text "bad" ∷ [])
    ≡ err (unknown_topics (text "bad" ∷ []))
unfolding normalize_subscribe_topics scan_topics scan_parsed parse_topic find all_topics topic_str
    same_topic contains insert any max_subscribe_topics text
unknown_once = refl

normalize_subscribe_topics-expected_example :
    normalize_subscribe_topics repeated ≡ expected repeated
normalize_subscribe_topics-expected_example = normalize_subscribe_topics-expected repeated
