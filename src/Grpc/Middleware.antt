-- ===== src/Grpc/Middleware.antt =====
-- internal/interfaces/grpc/middleware.go: the interceptors of the gRPC server and their chain. The
-- recovery of go-grpc-middleware and the metrics of go-grpc-prometheus are parameters, as is the start
-- of a span, which gives the context of the call that follows; the attributes of a span have no effect.
pub mod Chain
use edu_learn_notification_s.Prelude.{
  ℕ, zero, suc, Bool, true, false, String, List, [], ◌∷◌, Option, none, some, length, eqb, ◌==◌,
  if◌then◌else◌,
}
use edu_learn_notification_s.ServiceErrors.{
  GoError, with_status, to_grpc_status, from_error, internal,
}
use edu_learn_notification_s.Grpc.{Reply, replies, panics}

-- The values of a context that the interceptors read. The keys of the metadata are in lower case.
pub record Context : Type 0 where
  pub request_id : Option String
  pub user_id : Option String
  pub metadata : Option (List (String × List String))
  pub span : Option String

pub record ServerInfo : Type 0 where
  pub full_method : String

-- md.Get(key), its first value
first_value : List String → String
first_value [] = ""
first_value (v ∷ vs) = v

-- func getMetadataValue(md metadata.MD, key string) string
unfoldable pub get_metadata_value : String → List (String × List String) → String
unfolding first_value
get_metadata_value key [] = ""
get_metadata_value key ((k, vs) ∷ md) =
    if k == key then first_value vs else get_metadata_value key md

from_metadata : String → Option (List (String × List String)) → String
from_metadata key none = ""
from_metadata key (some md) = get_metadata_value key md

value_or : Option String → String → String
value_or none text = text
value_or (some value) text = value

-- func getRequestID(ctx context.Context) string
pub get_request_id : Context → String
unfolding from_metadata value_or
get_request_id ctx = value_or ctx.request_id (from_metadata "x-request-id" ctx.metadata)

-- func getUserID(ctx context.Context) string
unfoldable get_user_id : Context → String
unfolding from_metadata value_or
get_user_id ctx = value_or ctx.user_id (from_metadata "x-user-id" ctx.metadata)

-- What follows a call, of an input `I` and with a result `R`.
abbrev pub Handler : Type 0 → Type 0 → Type 0
Handler I R = I → R

abbrev pub Interceptor : Type 0 → Type 0 → Type 0
Interceptor I R = I → ServerInfo → Handler I R → R

module _ {I R : Type 0} where
  -- interceptors[i]; the loop stays within the slice.
  interceptor_at : List (Interceptor I R) → ℕ → Interceptor I R
  interceptor_at [] i input info handler = handler input
  interceptor_at (x ∷ xs) zero input info handler = x input info handler
  interceptor_at (x ∷ xs) (suc i) input info handler = interceptor_at xs i input info handler

  -- The loop from the index below `n` down to 0, with the handler made so far.
  chain_from : List (Interceptor I R) → ℕ → ServerInfo → Handler I R → Handler I R
  unfolding interceptor_at
  chain_from xs zero info current = current
  chain_from xs (suc i) info current =
      chain_from xs i info (λ input. interceptor_at xs i input info current)

  -- func chainUnaryInterceptors and func chainStreamInterceptors
  pub chain_interceptors : List (Interceptor I R) → Interceptor I R
  unfolding chain_from
  chain_interceptors xs input info handler =
      if eqb (length xs) 0 then handler input else chain_from xs (length xs) info handler input

-- A unary call: its context and its request; the result is a response and an error, each maybe nil.
pub record Call (Req : Type 0) : Type 0 where
  pub ctx : Context
  pub req : Req

abbrev pub Unary : Type 0 → Type 0 → Type 0
Unary W Resp = W → Reply (Option Resp × Option GoError) × W

-- A server stream with its context; the result is an error, maybe nil.
pub record ServerStream : Type 0 where
  pub ctx : Context
  pub stream : ℕ

abbrev pub Streamed : Type 0 → Type 0
Streamed W = W → Reply (Option GoError) × W

-- func recoveryHandler(log ports.LoggerService) recovery.RecoveryHandlerFunc
abbrev pub recovery_handler : GoError
recovery_handler =
    with_status (record { code = internal; message = "Internal server error"; details = none })

module _ {W : Type 0} (start_span : String → Context → Context) where
  module _ {Req Resp : Type 0} where
    -- func tracingUnaryInterceptor(config MiddlewareConfig) grpc.UnaryServerInterceptor
    pub tracing_unary_interceptor : Interceptor (Call Req) (Unary W Resp)
    tracing_unary_interceptor call info handler =
        handler (record call { ctx = start_span info.full_method call.ctx })

    -- func CreateUnaryServerInterceptors, chained by GetUnaryServerInterceptors
    unfoldable pub get_unary_server_interceptors :
        (recovery : GoError → Interceptor (Call Req) (Unary W Resp))
        (prometheus : Interceptor (Call Req) (Unary W Resp))
        → Interceptor (Call Req) (Unary W Resp)
    unfolding tracing_unary_interceptor
    get_unary_server_interceptors recovery prometheus =
        chain_interceptors (recovery recovery_handler ∷ tracing_unary_interceptor ∷ prometheus ∷ [])

  -- func tracingStreamInterceptor(config MiddlewareConfig) grpc.StreamServerInterceptor
  tracing_stream_interceptor : Interceptor ServerStream (Streamed W)
  tracing_stream_interceptor ss info handler =
      handler (record ss { ctx = start_span info.full_method ss.ctx })

  -- func CreateStreamServerInterceptors, chained by GetStreamServerInterceptors
  pub get_stream_server_interceptors :
      (recovery : GoError → Interceptor ServerStream (Streamed W))
      (prometheus : Interceptor ServerStream (Streamed W))
      → Interceptor ServerStream (Streamed W)
  unfolding tracing_stream_interceptor
  get_stream_server_interceptors recovery prometheus =
      chain_interceptors (recovery recovery_handler ∷ tracing_stream_interceptor ∷ prometheus ∷ [])

-- ToGRPCStatus(FromError(err)).Err()
abbrev pub structured : Option GoError → Option GoError
structured none = none
structured (some e) = some (with_status (to_grpc_status (from_error e)))

restated :
    {W Resp : Type 0}
    → Reply (Option Resp × Option GoError) × W
    → Reply (Option Resp × Option GoError) × W
restated (panics, w) = (panics, w)
restated (replies (resp, e), w) = (replies (resp, structured e), w)

-- The context with the request's identifier: the one that it has, or a new one.
identified : {W : Type 0} → Context → String × W → Context × W
identified ctx (id, w) = (record ctx { request_id = some id }, w)

module _ {W Req Resp : Type 0} where
  -- func errorHandlingUnaryInterceptor(config MiddlewareConfig) grpc.UnaryServerInterceptor
  unfoldable pub error_handling_unary_interceptor : Interceptor (Call Req) (Unary W Resp)
  unfolding restated
  error_handling_unary_interceptor call info handler w = restated (handler call w)

  -- func requestIDUnaryInterceptor() grpc.UnaryServerInterceptor
  pub request_id_unary_interceptor : (W → String × W) → Interceptor (Call Req) (Unary W Resp)
  unfolding identified
  request_id_unary_interceptor new_id call info handler w =
      let id = get_request_id call.ctx in
      let (ctx, w') = identified call.ctx (if id == "" then new_id w else (id, w)) in
      handler (record call { ctx = ctx }) w'

module _ {W : Type 0} where
  restated_stream : Reply (Option GoError) × W → Reply (Option GoError) × W
  restated_stream (panics, w) = (panics, w)
  restated_stream (replies e, w) = (replies (structured e), w)

  -- func errorHandlingStreamInterceptor(config MiddlewareConfig) grpc.StreamServerInterceptor
  unfoldable error_handling_stream_interceptor : Interceptor ServerStream (Streamed W)
  unfolding restated_stream
  error_handling_stream_interceptor ss info handler w = restated_stream (handler ss w)

  -- func requestIDStreamInterceptor() grpc.StreamServerInterceptor
  unfoldable request_id_stream_interceptor :
      (W → String × W) → Interceptor ServerStream (Streamed W)
  unfolding identified
  request_id_stream_interceptor new_id ss info handler w =
      let id = get_request_id ss.ctx in
      let (ctx, w') = identified ss.ctx (if id == "" then new_id w else (id, w)) in
      handler (record ss { ctx = ctx }) w'
