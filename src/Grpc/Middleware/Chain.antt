-- ===== src/Grpc/Middleware/Chain.antt =====
-- The order of the interceptors, and what they make of a handler.
use edu_learn_notification_s.Prelude.{
  ℕ, zero, suc, false, String, List, [], ◌∷◌, ◌≡◌, ◌≢◌, refl, ap, ◌∙◌, sym, none, some, length,
  arith, eqb, eq_iff, ◌==◌, inl, inr, Bool-cases,
}
use edu_learn_notification_s.ServiceErrors.{GoError}
use edu_learn_notification_s.Grpc.{Reply, replies, panics}
use edu_learn_notification_s.Grpc.Middleware.{
  Context, ServerInfo, Handler, Interceptor, interceptor_at, chain_from, chain_interceptors, Call,
  Unary, ServerStream, Streamed, recovery_handler, tracing_unary_interceptor,
  get_unary_server_interceptors, tracing_stream_interceptor, get_stream_server_interceptors,
  get_request_id, request_id_unary_interceptor,
}

module _ {I R : Type 0} where
  -- The interceptors nested: each is given the ones behind it as its handler.
  abbrev pub nested : List (Interceptor I R) → ServerInfo → Handler I R → Handler I R
  nested [] info handler = handler
  nested (x ∷ xs) info handler = λ input. x input info (nested xs info handler)

  chain_from-cons :
      (x : Interceptor I R) (xs : List (Interceptor I R)) (n : ℕ) (info : ServerInfo)
      (handler : Handler I R)
      → chain_from (x ∷ xs) (suc n) info handler
        ≡ (λ input. x input info (chain_from xs n info handler))
  unfolding chain_from interceptor_at
  chain_from-cons x xs zero info handler = refl
  chain_from-cons x xs (suc n) info handler =
      chain_from-cons x xs n info (λ input. interceptor_at xs n input info handler)

  chain_from-nested :
      (xs : List (Interceptor I R)) (info : ServerInfo) (handler : Handler I R)
      → chain_from xs (length xs) info handler ≡ nested xs info handler
  unfolding chain_from
  chain_from-nested [] info handler = refl
  chain_from-nested (x ∷ xs) info handler =
      chain_from-cons x xs (length xs) info handler
      ∙ ap (λ h input. x input info h) (chain_from-nested xs info handler)

  -- The loop over the indices makes the nested interceptors: the first of the list is the outermost, and
  -- the handler itself is called innermost, with no interceptor too.
  pub chain_interceptors-nested :
      (xs : List (Interceptor I R)) (input : I) (info : ServerInfo) (handler : Handler I R)
      → chain_interceptors xs input info handler ≡ nested xs info handler input
  unfolding chain_interceptors
  chain_interceptors-nested [] input info handler = refl
  chain_interceptors-nested (x ∷ xs) input info handler =
      let some_left : eqb (suc (length xs)) 0 ≡ false = ground arith in
      rw some_left (ap (λ h. h input) (chain_from-nested (x ∷ xs) info handler))

-- What recovery.UnaryServerInterceptor and its stream form promise: a reply is passed on, and a panic
-- becomes the error of the recovery handler. The metrics pass the call and its result on.
pub record Recovers {W I R : Type 0} (failed : GoError → R)
    (recovery : GoError → Interceptor I (W → Reply R × W)) : Type 0 where
  pub passes :
      (e : GoError) (input : I) (info : ServerInfo) (h : Handler I (W → Reply R × W)) (w w' : W)
      (r : R)
      → h input w ≡ (replies r, w')
      → recovery e input info h w ≡ (replies r, w')
  pub recovers :
      (e : GoError) (input : I) (info : ServerInfo) (h : Handler I (W → Reply R × W)) (w w' : W)
      → h input w ≡ (panics, w')
      → recovery e input info h w ≡ (replies (failed e), w')

abbrev pub Passes : {I R : Type 0} → Interceptor I R → Type 0
Passes {I} {R} x = (input : I) (info : ServerInfo) (h : Handler I R) → x input info h ≡ h input

-- A handler's reply, with a panic as an error.
abbrev pub recovered : {W R : Type 0} → R → Reply R × W → Reply R × W
recovered failed (replies r, w) = (replies r, w)
recovered failed (panics, w) = (replies failed, w)

module _ {W I R : Type 0} (failed : GoError → R)
    (recovery : GoError → Interceptor I (W → Reply R × W)) (laws : Recovers failed recovery) where
  recovery-recovered :
      (e : GoError) (input : I) (info : ServerInfo) (h : Handler I (W → Reply R × W)) (w : W)
      (r : Reply R × W)
      → h input w ≡ r
      → recovery e input info h w ≡ recovered (failed e) r
  recovery-recovered e input info h w (replies r, w') eq = laws.passes e input info h w w' r eq
  recovery-recovered e input info h w (panics, w') eq = laws.recovers e input info h w w' eq

module _ {W Req Resp : Type 0} (start_span : String → Context → Context)
    (recovery : GoError → Interceptor (Call Req) (Unary W Resp))
    (prometheus : Interceptor (Call Req) (Unary W Resp))
    (stream_recovery : GoError → Interceptor ServerStream (Streamed W))
    (stream_prometheus : Interceptor ServerStream (Streamed W)) where
  -- With the interceptors of the server every call is replied to, and no panic of a handler leaves it: a
  -- handler that replies is passed through as it is, on the context of the call's span, and one that
  -- panics is replied to by the status Internal with a text that tells nothing of the panic; unary calls
  -- and streams alike.
  pub get_server_interceptors-recovered :
      Recovers (λ e. (none, some e)) recovery
      → Passes prometheus
      → Recovers (λ e. some e) stream_recovery
      → Passes stream_prometheus
      → (call : Call Req) (ss : ServerStream) (info : ServerInfo)
        (h : Handler (Call Req) (Unary W Resp)) (k : Handler ServerStream (Streamed W)) (w : W)
      → (get_unary_server_interceptors start_span recovery prometheus call info h w
          ≡ recovered
              (none, some recovery_handler)
              (h (record call { ctx = start_span info.full_method call.ctx }) w))
        × (get_stream_server_interceptors start_span stream_recovery stream_prometheus ss info k w
            ≡ recovered
                (some recovery_handler)
                (k (record ss { ctx = start_span info.full_method ss.ctx }) w))
  unfolding get_unary_server_interceptors tracing_unary_interceptor get_stream_server_interceptors
      tracing_stream_interceptor
  get_server_interceptors-recovered laws counts stream_laws stream_counts call ss info h k w = (
    ap (λ f. f w) (chain_interceptors-nested _ call info h)
        ∙ recovery-recovered _ recovery laws recovery_handler call info _ w _
            (ap (λ f. f w) (counts _ info h)),
    ap (λ f. f w) (chain_interceptors-nested _ ss info k)
        ∙ recovery-recovered _ stream_recovery stream_laws recovery_handler ss info _ w _
            (ap (λ f. f w) (stream_counts _ info k)),
  )

get_request_id-some :
    (id : String) (ctx : Context) → get_request_id (record ctx { request_id = some id }) ≡ id
unfolding get_request_id
get_request_id-some id ctx = refl

module _ {W Req Resp : Type 0} (new_id : W → String × W) where
  -- Behind the interceptor of the identifiers a handler finds one that is not empty, where the new ones
  -- are not: the one that the request came with, or else a new one.
  request_id_unary_interceptor-get_request_id :
      (call : Call Req) (info : ServerInfo) (h : Handler (Call Req) (Unary W Resp)) (w : W)
      → ((v : W) → (new_id v).0 ≢ "")
      → (ctx : Context) × (w' : W) × (request_id_unary_interceptor new_id call info h w
          ≡ h (record call { ctx = ctx }) w')
        × (get_request_id ctx ≢ "")
        × (get_request_id call.ctx ≢ "" → (get_request_id ctx ≡ get_request_id call.ctx) × (w' ≡ w))
  unfolding request_id_unary_interceptor
  request_id_unary_interceptor-get_request_id call info h w fresh =
      let id = get_request_id call.ctx in
      elim (Bool-cases (id == "")) [
        | inl e ↦
            let new = (new_id w).0 in
            (
              record call.ctx { request_id = some new },
              (new_id w).1,
              rw e refl,
              λ q. fresh w (sym (get_request_id-some new call.ctx) ∙ q),
              λ given. absurd (given ((eq_iff id "").0 e)),
            )
        | inr e ↦ (
          record call.ctx { request_id = some id },
          w,
          rw e refl,
          λ q. let same = (eq_iff id "").1 (sym (get_request_id-some id call.ctx) ∙ q) in cc,
          λ given. (get_request_id-some id call.ctx, refl),
        )
      ]
