-- ===== src/Tests/GrpcRuns.antt =====
-- The gRPC handlers over the repository of "n1", and a server that panics.
use edu_learn_notification_s.Prelude.{
  ℕ, ◌+◌, ◌*◌, true, String, ◌≡◌, ◌≢◌, refl, ap, [], ◌∷◌, none, some,
}
use edu_learn_notification_s.Errors.{Err, Result, ok}
use edu_learn_notification_s.Ports.{NotificationFilter}
use edu_learn_notification_s.NotificationStore.{notification_repository}
use edu_learn_notification_s.ServiceErrors.{GoError}
use edu_learn_notification_s.Tests.Shelf.{
  Shelf, row, peek, db, notes, pages, flags, shelf-TableLaws, notes-CacheLaws, shelf-IsApart,
}
use edu_learn_notification_s.Tests.StoreRuns.{shelf, fresh}
use edu_learn_notification_s.Sending.Service.{NotificationService, notification_service}
use edu_learn_notification_s.Grpc.{
  Request, success, Reply, replies, panics, NotificationData, NotificationParams,
  serve_get_notification, serve_mark_as_read, serve_delete_notification, serve_get_notifications,
}
use edu_learn_notification_s.Grpc.Notifications.{
  Asks, Answers, serve_delete_notification-serve_get_notification, serve_get_notifications-Asks,
}
use edu_learn_notification_s.Grpc.Middleware.{
  Context, ServerInfo, Interceptor, Handler, Call, Unary, ServerStream, Streamed,
  chain_interceptors, recovery_handler, get_unary_server_interceptors,
  get_stream_server_interceptors,
}
use edu_learn_notification_s.Grpc.Middleware.Chain.{
  nested, Recovers, recovered, chain_interceptors-nested, get_server_interceptors-recovered,
}

abbrev no_text : Err → String
no_text e = ""

abbrev accept : Request → Result (Unit {0})
accept r = ok tt

abbrev service : NotificationService Shelf
service = notification_service (notification_repository db notes pages flags)

serve_delete_notification-serve_get_notification_example :
    ((serve_delete_notification no_text accept service (λ t. "") 7 "n1" "ann" shelf).0
        ≡ success true
      → (d : NotificationData)
      → (serve_get_notification no_text accept service
          (λ t. "")
          7
          "n1"
          "ann"
          (serve_delete_notification no_text accept service (λ t. "") 7 "n1" "ann" shelf).1).0
        ≢ success d)
    × ((serve_mark_as_read no_text accept service (λ t. "") 7 "n1" "ann" shelf).0
          ≡ success "Notification marked as read"
        → (d : NotificationData)
        → (serve_get_notification no_text accept service
            (λ t. "")
            7
            "n1"
            "ann"
            (serve_mark_as_read no_text accept service (λ t. "") 7 "n1" "ann" shelf).1).0
          ≡ success d
        → d.is_read ≡ true)
serve_delete_notification-serve_get_notification_example =
    serve_delete_notification-serve_get_notification db notes pages flags row peek shelf-TableLaws
      notes-CacheLaws shelf-IsApart no_text accept (λ t. "") (λ key w. refl) 7 "n1" "ann"
      "Notification marked as read" true shelf fresh

serve_get_notifications-Asks_example :
    (accept (Request.get_notifications_request "ann" none) ≡ ok tt
      → serve_get_notifications no_text accept service (λ t. "") 7 "ann" none shelf ≡ panics)
    × ((p : NotificationParams)
        → accept (Request.get_notifications_request "ann" (some p)) ≡ ok tt
        → (f : NotificationFilter) × Asks "ann" p f
          × Answers
              (λ t. "")
              ((notification_repository db notes pages flags).get_notifications 7 f shelf)
              (serve_get_notifications no_text accept service (λ t. "") 7 "ann" (some p) shelf))
serve_get_notifications-Asks_example =
    serve_get_notifications-Asks (notification_repository db notes pages flags) no_text accept
      (λ t. "") 7 "ann" shelf

abbrev twice : Interceptor ℕ ℕ
twice n info h = 2 * h n

abbrev one_more : Interceptor ℕ ℕ
one_more n info h = h (n + 1)

abbrev list_call : ServerInfo
list_call = record { full_method = "/notification/GetNotifications" }

chain_interceptors-nested_example :
    chain_interceptors (twice ∷ one_more ∷ []) 3 list_call (λ n. n * n)
    ≡ nested (twice ∷ one_more ∷ []) list_call (λ n. n * n) 3
chain_interceptors-nested_example =
    chain_interceptors-nested (twice ∷ one_more ∷ []) 3 list_call (λ n. n * n)

module _ {R I : Type 0} where
  abbrev recover : (GoError → R) → GoError → Interceptor I (ℕ → Reply R × ℕ)
  recover failed e input info h w = recovered (failed e) (h input w)

  recover-Recovers : (failed : GoError → R) → Recovers failed (recover failed)
  recover-Recovers failed = record {
    passes = λ e input info h w w' r eq. ap (recovered (failed e)) eq;
    recovers = λ e input info h w w' eq. ap (recovered (failed e)) eq;
  }

abbrev blank_context : Context
blank_context = record { request_id = none; user_id = none; metadata = none; span = none }

abbrev spanned : String → Context → Context
spanned name ctx = record ctx { span = some name }

abbrev metrics : {I R : Type 0} → Interceptor I R
metrics input info h = h input

abbrev call : Call String
call = record { ctx = blank_context; req = "list" }

abbrev stream : ServerStream
stream = record { ctx = blank_context; stream = 0 }

abbrev crash : Handler (Call String) (Unary ℕ String)
crash c w = (panics, w + 1)

abbrev finish : Handler ServerStream (Streamed ℕ)
finish s w = (replies none, w)

get_server_interceptors-recovered_example :
    (get_unary_server_interceptors spanned
        (recover (λ e. (none, some e)))
        metrics
        call
        list_call
        crash
        4
      ≡ (replies (none, some recovery_handler), 5))
    × (get_stream_server_interceptors spanned
          (recover (λ e. some e))
          metrics
          stream
          list_call
          finish
          4
        ≡ (replies none, 4))
get_server_interceptors-recovered_example =
    get_server_interceptors-recovered spanned (recover (λ e. (none, some e))) metrics
      (recover (λ e. some e)) metrics (recover-Recovers (λ e. (none, some e)))
      (λ input info h. refl) (recover-Recovers (λ e. some e)) (λ input info h. refl) call stream
      list_call crash finish 4
