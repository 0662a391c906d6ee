-- ===== src/Hub/Auth.antt =====
-- internal/interfaces/websocket/auth.go: the authentication of a request for a WebSocket connection.
-- The JWT library is a parameter: `parse` is jwt.Parse with the function that gives it the key, and
-- `is_hmac` the type assertion on the method of a token. A text is its own bytes.
pub mod Connect
use edu_learn_notification_s.Prelude.{
  Bool, not, String, List, [], ◌∷◌, Option, none, some, ◌==◌, if◌then◌else◌,
}
use edu_learn_notification_s.Errors.{Result, ok, err, new, wrap, with_context, ◌>>=◌}

-- A value of a claim: a text, or anything else of JSON.
pub data ClaimValue : Type 0 where
  text : String → ClaimValue
  other : ClaimValue

abbrev pub MapClaims : Type 0
MapClaims = List (String × ClaimValue)

-- `claims[key].(string)`
unfoldable pub as_text : ClaimValue → Option String
as_text (text s) = some s
as_text other = none

unfoldable pub text_claim : String → MapClaims → Option String
unfolding as_text
text_claim key [] = none
text_claim key ((k, v) ∷ claims) = if k == key then as_text v else text_claim key claims

-- jwt.Token. `claims` is none where they are not a jwt.MapClaims.
pub record Token (Method : Type 0) : Type 0 where
  pub method : Method
  pub valid : Bool
  pub claims : Option MapClaims

-- The values of `token` in the query, r.URL.Query(): Get takes the first, or "".
unfoldable pub query_get : List String → String
query_get [] = ""
query_get (v ∷ vs) = v

unfoldable pub other_claim : Option String → Option String → Result String
other_claim (some sub) id = ok sub
other_claim none (some id) = ok id
other_claim none none = err (new "user_id not found in token")

-- The claim "user_id", or "sub" and then "id" where it is missing or empty.
unfoldable pub user_claim : Option String → Option String → Option String → Result String
unfolding other_claim
user_claim (some user_id) sub id = if user_id == "" then other_claim sub id else ok user_id
user_claim none sub id = other_claim sub id

unfoldable pub user_of_claims : Option MapClaims → Result String
unfolding user_claim
user_of_claims none = err (new "invalid token claims")
user_of_claims (some claims) =
    user_claim (text_claim "user_id" claims) (text_claim "sub" claims) (text_claim "id" claims)

module _ {Method : Type 0} (is_hmac : Method → Bool)
    (parse : String → (Method → Result String) → Result (Token Method)) (secret : String) where
  -- The function that gives jwt.Parse the key.
  unfoldable pub key_for : Method → Result String
  key_for method = if is_hmac method then ok secret else err (new "unexpected signing method")

  unfoldable pub user_of_token : Token Method → Result String
  unfolding user_of_claims
  user_of_token token =
      if not token.valid then err (new "invalid token") else user_of_claims token.claims

  -- func (a *JWTAuthenticator) validateToken(tokenString string) (string, error)
  unfoldable pub validate_token : String → Result String
  unfolding user_of_token
  validate_token token_string = do
    token ← with_context "failed to parse token" (parse token_string key_for)
    user_of_token token

  -- func (a *JWTAuthenticator) Authenticate(r *http.Request) (string, error); both reads are of the query
  unfoldable pub authenticate : List String → Result String
  unfolding query_get
  authenticate tokens =
      let first = query_get tokens in
      let token = if first == "" then query_get tokens else first in
      if token == "" then err (new "no token provided") else validate_token token
