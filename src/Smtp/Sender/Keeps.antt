-- ===== src/Smtp/Sender/Keeps.antt =====
-- The attempts of Send, with the other sends beside it: that none of them panics, and what they come to.
use edu_learn_notification_s.Prelude.{some, ℕ, Bool, ◌≡◌, String, List}
use edu_learn_notification_s.Errors.{Result}
use edu_learn_notification_s.Notification.{Notification}
use edu_learn_notification_s.Smtp.{EmailConfig, Email, NetSmtp, State}
use edu_learn_notification_s.Smtp.Pool.Opened.{NetLaws}
use edu_learn_notification_s.Smtp.Sender.{Schedule}
use edu_learn_notification_s.Smtp.Sender.Traffic.{Steps, TidySends}

module _ {W : Type 0} {net : NetSmtp W} {in_use : W → ℕ → Bool} (laws : NetLaws net in_use)
    (bytes : Email → Result String) (config : EmailConfig) where
  -- The sender is in order, whatever connections the running sends hold.
  abbrev pub InOrder : State W → Type 0
  InOrder s = (held : List ℕ) × TidySends laws bytes config (record { held = held; sender = s })

  -- What the schedule shows is what the running sends do, step by step.
  pub record ScheduleLaws (schedule : Schedule W) : Type 0 where
    pub meanwhile_runs :
        (held : List ℕ) (s : State W)
        → (held' : List ℕ) × Steps net bytes config
            (record { held = held; sender = s })
            (record { held = held'; sender = schedule.meanwhile s })
    pub late_runs :
        (held : List ℕ) (n : Notification) (s t : State W)
        → schedule.late n s ≡ some t
        → (held' : List ℕ) × Steps net bytes config
            (record { held = held; sender = s })
            (record { held = held'; sender = t })
