-- ===== src/Handlers/Display.antt =====
-- internal/application/events/handle_inapp_notification_channel.go: what a notification looks like to
-- the WebSocket clients. The texts of a time and `strings.ToLower` are parameters. A range over a map
-- takes its entries in any order: `order` is the order of that run.
use Prim.Native.String.{◌++◌}
use text.Mathlib.Text.{find?}
use edu_learn_notification_s.Prelude.{
  ℕ, ◌-◌, ◌*◌, ◌/◌, Bool, true, false, ◌||◌, String, List, [], ◌∷◌, none, some, any, ltb, eqb, ◌==◌,
  decimal, if◌then◌else◌,
}
use edu_learn_notification_s.Otp.{minute}
use edu_learn_notification_s.Notification.{Notification, InAppWsMessage}

-- `Format(time.RFC3339)`, `Local().String()`, `strings.ToLower`, and the order of the map
-- `categories`.
pub record Clock : Type 0 where
  pub rfc3339 : ℕ → String
  pub local : ℕ → String
  pub to_lower : String → String
  pub order : List (String × List String)

-- strings.Contains
abbrev pub contains : String → String → Bool
contains text part = elim (find? text part) [ none ↦ false | some i ↦ true ]

abbrev pub high_priority_keywords : List String
high_priority_keywords = "urgent" ∷ "important" ∷ "critical" ∷ "action required" ∷ []

-- A keyword stands in the subject or in the body, in lower case.
abbrev pub mentions : (String → String) → Notification → String → Bool
mentions lower n keyword = contains (lower n.subject) keyword || contains (lower n.body) keyword

-- func determinePriority(n *entity.Notification) string
unfoldable pub determine_priority : (String → String) → Notification → String
determine_priority lower n =
    if n.priority == ""
    then (if any (mentions lower n) high_priority_keywords then "high" else "normal")
    else lower n.priority

-- The map `categories`, in the order of the source.
abbrev pub categories : List (String × List String)
categories =
    ("system", "system" ∷ "update" ∷ "maintenance" ∷ [])
    ∷ ("account", "account" ∷ "profile" ∷ "password" ∷ "security" ∷ [])
    ∷ ("course", "course" ∷ "lesson" ∷ "assignment" ∷ "grade" ∷ [])
    ∷ ("social", "comment" ∷ "like" ∷ "mention" ∷ "follow" ∷ [])
    ∷ ("payment", "payment" ∷ "subscription" ∷ "invoice" ∷ "billing" ∷ [])
    ∷ []

-- func categorizeNotification(n *entity.Notification) string, with the map in an order
unfoldable pub categorize : List (String × List String) → (String → String) → Notification → String
categorize [] lower n = "general"
categorize ((category, keywords) ∷ rest) lower n =
    let later = categorize rest lower n in
    if any (mentions lower n) keywords then category else later

-- "1 minute ago", "5 minutes ago"
ago : ℕ → String → String
ago count unit =
    if eqb count 1 then ("1 " ++ unit) ++ " ago" else ((decimal count ++ " ") ++ unit) ++ "s ago"

abbrev hour : ℕ
hour = 60 * minute

abbrev day : ℕ
day = 24 * hour

-- func getTimeAgo(created time.Time) string
pub get_time_ago : ℕ → ℕ → String
unfolding ago
get_time_ago now created =
    let duration = now - created in
    if ltb duration minute
    then "just now"
    else if ltb duration hour
    then ago (duration / minute) "minute"
    else if ltb duration day
    then ago (duration / hour) "hour"
    else if ltb duration (7 * day)
    then ago (duration / day) "day"
    else ago (duration / (7 * day)) "week"

-- func buildMetadata, extractActionURL
unfoldable pub build_metadata : Clock → ℕ → Notification → List (String × String)
build_metadata clock now n =
    let rest =
      ("created_timestamp", clock.local n.created_at)
      ∷ ("time_ago", get_time_ago now n.created_at)
      ∷ ("category", categorize clock.order clock.to_lower n)
      ∷ [] in
    if n.action_url == "" then rest else ("action_url", n.action_url) ∷ rest

-- func buildWebSocketMessage
unfoldable pub build_ws_message : Clock → ℕ → Notification → InAppWsMessage
build_ws_message clock now n = record {
  type = "notification";
  id = n.id;
  user_id = n.user_id;
  subject = n.subject;
  body = n.body;
  recipient = n.recipient;
  is_read = n.is_read;
  created_at = clock.rfc3339 n.created_at;
  priority = determine_priority clock.to_lower n;
  action_url = "";
  notification_type = n.type;
  metadata = build_metadata clock now n;
}
