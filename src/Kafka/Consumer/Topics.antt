-- ===== src/Kafka/Consumer/Topics.antt =====
-- The registry of the handlers, and the topics that are subscribed.
use edu_learn_notification_s.Prelude.{
  Bool, false, not, ◌||◌, ◌&&◌, String, ◌≡◌, ◌≢◌, refl, ◌∙◌, List, [], ◌∷◌, ◌++◌, some, map, any,
  arith, eq_iff, ◌==◌, if◌then◌else◌,
}
use edu_learn_notification_s.Errors.{ok}
use edu_learn_notification_s.Kafka.Consumer.{
  Registry, handlers_of, append_handlers, check_handlers, registered, register_handlers, topic_set,
  insert_sorted, sort_strings, sanitize_topics,
}

-- The text stands in the list.
abbrev pub is_in : String → List String → Bool
is_in t ts = any (λ s. s == t) ts

-- No text stands twice in the list.
abbrev pub IsOnce : List String → Type 0
IsOnce [] = Unit {0}
IsOnce (t ∷ ts) = (is_in t ts ≡ false) × IsOnce ts

is_in-topic_set :
    (t : String) (ts : List String) → is_in t (topic_set ts) ≡ (not (t == "") && is_in t ts)
unfolding topic_set
is_in-topic_set t [] = ground arith
is_in-topic_set t (s ∷ ts) =
    ground (arith, is_in-topic_set t ts, is_in-topic_set s ts, eq_iff s t, eq_iff s "", eq_iff t "")

topic_set-IsOnce : (ts : List String) → IsOnce (topic_set ts)
unfolding topic_set
topic_set-IsOnce [] = tt
topic_set-IsOnce (s ∷ ts) = ground (arith, topic_set-IsOnce ts)

is_in-insert_sorted :
    (t s : String) (ts : List String) → is_in t (insert_sorted s ts) ≡ (s == t || is_in t ts)
unfolding insert_sorted
is_in-insert_sorted t s [] = ground arith
is_in-insert_sorted t s (r ∷ ts) = ground (arith, is_in-insert_sorted t s ts)

insert_sorted-IsOnce :
    (s : String) (ts : List String) → is_in s ts ≡ false → IsOnce ts → IsOnce (insert_sorted s ts)
unfolding insert_sorted
insert_sorted-IsOnce s [] n h = (refl, tt)
insert_sorted-IsOnce s (r ∷ ts) n h =
    ground (arith, insert_sorted-IsOnce s ts, is_in-insert_sorted r s ts, eq_iff s r, eq_iff r s)

is_in-sort_strings : (t : String) (ts : List String) → is_in t (sort_strings ts) ≡ is_in t ts
unfolding sort_strings
is_in-sort_strings t [] = refl
is_in-sort_strings t (s ∷ ts) =
    ground (arith, is_in-insert_sorted t s (sort_strings ts), is_in-sort_strings t ts)

sort_strings-IsOnce : (ts : List String) → IsOnce ts → IsOnce (sort_strings ts)
unfolding sort_strings
sort_strings-IsOnce [] h = tt
sort_strings-IsOnce (s ∷ ts) h =
    insert_sorted-IsOnce s (sort_strings ts) (is_in-sort_strings s ts ∙ h.0)
      (sort_strings-IsOnce ts h.1)

-- Of a list of topics exactly the ones that are not empty are subscribed, each once.
pub sanitize_topics-is_in :
    (ts : List String)
    → IsOnce (sanitize_topics ts)
      × ((t : String) → is_in t (sanitize_topics ts) ≡ (not (t == "") && is_in t ts))
unfolding sanitize_topics
sanitize_topics-is_in ts = (
  sort_strings-IsOnce (topic_set ts) (topic_set-IsOnce ts),
  λ t. is_in-sort_strings t (topic_set ts) ∙ is_in-topic_set t ts,
)

module _ {H : Type 0} where
  handlers_of-append :
      (t topic : String) (hs : List H) (r : Registry H)
      → handlers_of t (append_handlers topic hs r)
        ≡ (if topic == t then handlers_of t r ++ hs else handlers_of t r)
  unfolding handlers_of append_handlers
  handlers_of-append t topic hs [] = ground arith
  handlers_of-append t topic hs ((s, old) ∷ r) =
      ground (arith, handlers_of-append t topic hs r, eq_iff s topic, eq_iff s t, eq_iff topic t)

  check_handlers-some : (hs : List H) → check_handlers (map some hs) ≡ ok hs
  unfolding check_handlers
  check_handlers-some [] = refl
  check_handlers-some (h ∷ hs) = rw (check_handlers-some hs) refl

  register_steps :
      (topic : String) (h : H) (hs : List H) (r : Registry H)
      → topic ≢ ""
      → register_handlers topic (map some (h ∷ hs)) r ≡ (ok tt, append_handlers topic (h ∷ hs) r)
  unfolding register_handlers registered
  register_steps topic h hs r ne = ground (arith, eq_iff topic "", check_handlers-some (h ∷ hs))

  -- Handlers that are there, at least one, for a topic with a name, are registered behind the ones that
  -- the topic had, in their order, and no other topic's handlers change.
  pub register_handlers-handlers_of :
      (topic : String) (h : H) (hs : List H) (r : Registry H)
      → topic ≢ ""
      → ((register_handlers topic (map some (h ∷ hs)) r).0 ≡ ok tt)
        × ((t : String)
            → handlers_of t (register_handlers topic (map some (h ∷ hs)) r).1
              ≡ (if topic == t then handlers_of t r ++ h ∷ hs else handlers_of t r))
  register_handlers-handlers_of topic h hs r ne =
      rw (register_steps topic h hs r ne) (refl, λ t. handlers_of-append t topic (h ∷ hs) r)
