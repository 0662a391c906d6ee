-- ===== src/Tests/AuthRuns.antt =====
-- The authentication with a library that knows one token, "ann-token" of the user "ann", signed by the
-- secret "s3cret".
use edu_learn_notification_s.Prelude.{
  Bool, true, String, List, [], ◌∷◌, ◌++◌, some, ◌≡◌, ◌≢◌, refl, sym, ap, subst, arith, ◌==◌,
  eq_iff, if◌then◌else◌,
}
use edu_learn_notification_s.Errors.{Result, ok, err, new}
use edu_learn_notification_s.Hub.{Hub, done, write}
use edu_learn_notification_s.Hub.Loop.{new_hub}
use edu_learn_notification_s.Hub.Pumps.{connected, serve_ws, new_client, accept}
use edu_learn_notification_s.Hub.Auth.{
  text, Token, authenticate, validate_token, user_of_token, user_of_claims, user_claim, other_claim,
  text_claim, as_text, query_get, key_for,
}
use edu_learn_notification_s.Hub.Auth.Connect.{Verifies, Credential, serve_ws-authenticate}

abbrev ann : Token Bool
ann = record { method = true; valid = true; claims = some (("sub", text "ann") ∷ []) }

abbrev Signed : Bool → String → String → Token Bool → Type 0
Signed method key s t = (key ≡ "s3cret") × (s ≡ "ann-token") × (t ≡ ann)

abbrev under : String → Result String → Result (Token Bool)
under s (err e) = err e
under s (ok key) =
    if s == "ann-token"
    then (if key == "s3cret" then ok ann else err (new "signature is invalid"))
    else err (new "token is malformed")

abbrev parse : String → (Bool → Result String) → Result (Token Bool)
parse s key_of = under s (key_of true)

under-ok :
    (s : String) (r : Result String) (t : Token Bool)
    → under s r ≡ ok t
    → (key : String) × (r ≡ ok key) × (key ≡ "s3cret") × (s ≡ "ann-token") × (t ≡ ann)
under-ok s (err e) t h = ground arith
under-ok s (ok key) t h = (
  key,
  refl,
  ground (arith, eq_iff s "ann-token", eq_iff key "s3cret"),
  ground (arith, eq_iff s "ann-token", eq_iff key "s3cret"),
  ground (arith, eq_iff s "ann-token", eq_iff key "s3cret"),
)

parse-Verifies : Verifies Signed parse
parse-Verifies = record {
  verifies = λ s key_of t e.
      let (key, given, secret, token, is_ann) = under-ok s (key_of true) t e in
      (
        key,
        subst (λ m. key_of m ≡ ok key) (sym (ap (λ (x : Token Bool). x.method) is_ann)) given,
        (secret, token, is_ann),
      );
}

abbrev is_hmac : Bool → Bool
is_hmac method = method

abbrev start : Hub
start = new_hub (λ c. new_client 0 "")

abbrev joined : Hub
joined = record start {
  objects = write start.objects 0 (new_client 7 "ann");
  next = 1;
  register = 0 ∷ [];
}

serve_ws_run :
    serve_ws 7 (authenticate is_hmac parse "s3cret" ("ann-token" ∷ [])) true start
    ≡ done (joined, connected 0)
unfolding authenticate serve_ws validate_token user_of_token user_of_claims user_claim other_claim
    text_claim as_text query_get key_for accept new_hub
serve_ws_run = refl

serve_ws-authenticate_example :
    (s : String) × (rest : List String) × (user : String) × (("ann-token" ∷ []) ≡ s ∷ rest)
    × Credential Signed is_hmac parse "s3cret" s user
    × (user ≢ "")
    × ((joined.objects 0).user_id ≡ user)
    × (joined.register ≡ start.register ++ 0 ∷ [])
serve_ws-authenticate_example =
    serve_ws-authenticate Signed is_hmac parse "s3cret" parse-Verifies ("ann-token" ∷ []) 7 0 true
      start joined serve_ws_run
