-- ===== src/Grpc.antt =====
-- internal/interfaces/grpc/handler.go: the handlers of the gRPC service. A request and a response are
-- records with the fields that the handlers read and write. `validate` is the validator of
-- go-playground, `text` is `Error()`, `rfc3339` the formatting of a time. A handler returns a response
-- and never an error; it panics where it reads a field through a nil pointer. Logs and the counter of
-- the passwords sent are left out.
pub mod Otp
pub mod Notifications
pub mod Middleware
use edu_learn_notification_s.Prelude.{
  ℕ, ◌%◌, Bool, true, false, String, List, [], ◌∷◌, map, Option, none, some, eqb, ◌==◌,
  if◌then◌else◌,
}
use edu_learn_notification_s.Errors.{Err, Result, ok, err}
use edu_learn_notification_s.Effect.{Exec}
use edu_learn_notification_s.Notification.{Notification, NotificationCategory, map_to_category}
use edu_learn_notification_s.Ports.{Page}
use edu_learn_notification_s.Sending.Service.{NotificationService}

-- proto.NotificationParams: a page or a size below 1 is as 0.
pub record NotificationParams : Type 0 where
  pub page : ℕ
  pub page_size : ℕ
  pub is_read : Bool
  pub category : String

pub data Request : Type 0 where
  otp_request : (user_id email username : String) → Request
  verify_otp_request : (email otp : String) → Request
  forgot_password_request : (user_id username email reset_link : String) → Request
  get_notification_request : (notification_id user_id : String) → Request
  get_notifications_request : (user_id : String) → Option NotificationParams → Request
  mark_notification_request : (notification_id user_id : String) → Request
  delete_notification_request : (notification_id user_id : String) → Request
  clear_user_notifications_request : (user_id : String) → Request
  mark_all_notifications_request : (user_id : String) → Request

pub record ProtoError : Type 0 where
  pub code : String
  pub message : String
  pub details : List String

-- The `Result` of a response: a success or an error.
pub data Response (A : Type 0) : Type 0 where
  success : A → Response A
  error : ProtoError → Response A

pub record NotificationData : Type 0 where
  pub id : String
  pub user_id : String
  pub type : String
  pub subject : String
  pub body : String
  pub recipient : String
  pub is_read : Bool
  pub created_at : String
  pub priority : String
  pub action_url : String
  pub category : String
  pub metadata : List (String × String)

-- proto.GetAllNotificationsSuccess; the total is an int32, here its bits.
pub record GetAllNotificationsSuccess : Type 0 where
  pub notifications : List NotificationData
  pub total : ℕ

-- What a handler gives, and the state after it.
pub data Reply (A : Type 0) : Type 0 where
  replies : A → Reply A
  panics : Reply A

-- The services, at the time of the request.
pub record EmailOtpService (W : Type 0) : Type 0 where
  pub send_otp : String → String → String → Exec W (Unit {0})
  pub verify_otp : String → String → Exec W Bool

pub record ForgotPasswordService (W : Type 0) : Type 0 where
  pub send : String → String → String → String → Exec W (Unit {0})

-- createErrorResponse, and the literals of the other responses
abbrev pub create_error_response : {A : Type 0} → String → String → List String → Response A
create_error_response code message details =
    error (record { code = code; message = message; details = details })

abbrev pub to_data : (ℕ → String) → Notification → NotificationData
to_data rfc3339 n = record {
  id = n.id;
  user_id = n.user_id;
  type = n.type;
  subject = n.subject;
  body = n.body;
  recipient = n.recipient;
  is_read = n.is_read;
  created_at = rfc3339 n.created_at;
  priority = n.priority;
  action_url = n.action_url;
  category = n.category;
  metadata = n.metadata;
}

abbrev pub to_page : (ℕ → String) → Page → GetAllNotificationsSuccess
to_page rfc3339 p = record {
  notifications = map (to_data rfc3339) p.notifications;
  total = p.total % 4_294_967_296;
}

-- The parameters of a list: the first page and ten entries for a number below 1; a negative number
-- stands as 0.
abbrev pub page_of : NotificationParams → ℕ
page_of p = if eqb p.page 0 then 1 else p.page

abbrev pub page_size_of : NotificationParams → ℕ
page_size_of p = if eqb p.page_size 0 then 10 else p.page_size

-- Only the filter for what was read can be asked for.
abbrev pub is_read_of : NotificationParams → Option Bool
is_read_of p = if p.is_read then some true else none

abbrev pub category_of : NotificationParams → Option NotificationCategory
category_of p = if p.category == "" then none else some (map_to_category p.category)

-- The answer of VerifyOTP.
abbrev pub verified : Bool → Response String
verified true = success "OTP verified successfully"
verified false = create_error_response "InvalidArgument" "Invalid OTP" []

module _ {W : Type 0} (text : Err → String) where
  -- `if err := h.validateRequest(req); err != nil { return … }`, with what follows
  abbrev pub validated :
      {A : Type 0} → Result (Unit {0}) → String → (W → Response A × W) → W → Response A × W
  validated (err e) message next w =
      (create_error_response "InvalidArgument" message (text e ∷ []), w)
  validated (ok u) message next w = next w

  -- What follows a call of a service.
  abbrev pub finish : {A B : Type 0} → String → (A → Response B) → Result A × W → Response B × W
  finish message respond (err e, w) = (create_error_response "Internal" message (text e ∷ []), w)
  finish message respond (ok a, w) = (respond a, w)

module _ {W : Type 0} (text : Err → String) (validate : Request → Result (Unit {0})) where
  module _ (otps : EmailOtpService W) where
    -- func (h *Handler) SendOTP
    unfoldable serve_send_otp : String → String → String → W → Response String × W
    serve_send_otp user_id email username =
        validated text (validate (otp_request user_id email username)) "Invalid request data" λ w.
          finish text "Failed to send OTP" (λ _. success "OTP sent successfully")
            (otps.send_otp user_id email username w)

    -- func (h *Handler) VerifyOTP
    unfoldable pub serve_verify_otp : String → String → W → Response String × W
    serve_verify_otp email otp =
        validated text (validate (verify_otp_request email otp)) "Invalid request data"
          λ w. finish text "Failed to verify OTP" verified (otps.verify_otp email otp w)

  -- func (h *Handler) ForgotPassword
  unfoldable serve_forgot_password :
      ForgotPasswordService W → String → String → String → String → W → Response String × W
  serve_forgot_password passwords user_id username email reset_link =
      validated text (validate (forgot_password_request user_id username email reset_link))
        "Invalid request data"
        λ w.
          finish text "Failed to send password reset email"
            (λ _. success "Password reset email sent successfully")
            (passwords.send user_id username email reset_link w)

  module _ (notifications : NotificationService W) (rfc3339 : ℕ → String) (now : ℕ) where
    -- func (h *Handler) GetNotification
    pub serve_get_notification : String → String → W → Response NotificationData × W
    serve_get_notification id user_id =
        validated text (validate (get_notification_request id user_id)) "Invalid request data" λ w.
          finish text "Failed to get notification" (λ n. success (to_data rfc3339 n))
            (notifications.get_notification now id user_id w)

    list_page : String → NotificationParams → W → Response GetAllNotificationsSuccess × W
    list_page user_id p w =
        finish text "Failed to get notifications" (λ page. success (to_page rfc3339 page))
          (notifications.list_notifications now user_id (page_of p) (page_size_of p) (is_read_of p)
            (category_of p) w)

    -- After the validation: the parameters are read through a pointer that may be nil.
    list_with :
        Result (Unit {0})
        → String
        → Option NotificationParams
        → W
        → Reply (Response GetAllNotificationsSuccess × W)
    unfolding list_page
    list_with (err e) user_id params w =
        replies (create_error_response "InvalidArgument" "Invalid request data" (text e ∷ []), w)
    list_with (ok u) user_id none w = panics
    list_with (ok u) user_id (some p) w = replies (list_page user_id p w)

    -- func (h *Handler) GetNotifications
    pub serve_get_notifications :
        String → Option NotificationParams → W → Reply (Response GetAllNotificationsSuccess × W)
    unfolding list_with
    serve_get_notifications user_id params =
        list_with (validate (get_notifications_request user_id params)) user_id params

    -- func (h *Handler) MarkAsRead
    pub serve_mark_as_read : String → String → W → Response String × W
    serve_mark_as_read id user_id =
        validated text (validate (mark_notification_request id user_id)) "Invalid request data" λ w.
          finish text "Failed to mark notification as read"
            (λ _. success "Notification marked as read")
            (notifications.mark_as_read now id user_id w)

    -- func (h *Handler) DeleteNotification
    pub serve_delete_notification : String → String → W → Response Bool × W
    serve_delete_notification id user_id =
        validated text (validate (delete_notification_request id user_id)) "Validation Failed" λ w.
          finish text "Failed to delete notification" (λ _. success true)
            (notifications.delete_notification id user_id w)

    -- func (h *Handler) ClearNotifications
    unfoldable pub serve_clear_notifications : String → W → Response Bool × W
    serve_clear_notifications user_id =
        validated text (validate (clear_user_notifications_request user_id)) "Validation Failed"
          λ w.
            finish text "Failed to clear notifications" (λ _. success true)
              (notifications.clear_notifications user_id w)

    -- func (h *Handler) MarkAllAsRead
    unfoldable serve_mark_all_as_read : String → W → Response String × W
    serve_mark_all_as_read user_id =
        validated text (validate (mark_all_notifications_request user_id)) "Invalid request data"
          λ w.
            finish text "Failed to mark all notifications as read"
              (λ _. success "All notifications marked as read")
              (notifications.mark_all_as_read now user_id w)
