-- ===== src/Handlers/Categories.antt =====
-- The category that a notification is shown under, whatever the order of the map.
use edu_learn_notification_s.Prelude.{false, String, ◌≡◌, ◌≢◌, ◌↔◌, List, [], ◌∷◌, any, arith, All}
use edu_learn_notification_s.Notification.{Notification}
use edu_learn_notification_s.Handlers.Display.{mentions, categorize}

-- In every order of a map that has no category "general", a notification is shown under "general"
-- exactly when it mentions no keyword of any category.
pub categorize_general_iff :
    (lower : String → String) (n : Notification) (order : List (String × List String))
    → All (λ entry. entry.0 ≢ "general") order
    → (categorize order lower n ≡ "general")
      ↔ All (λ entry. any (mentions lower n) entry.1 ≡ false) order
unfolding categorize
categorize_general_iff lower n [] h = ground arith
categorize_general_iff lower n ((category, keywords) ∷ rest) h =
    ground (arith, h.0, categorize_general_iff lower n rest h.1)
