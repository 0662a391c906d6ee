-- ===== src/Hub/Auth/Connect.antt =====
-- Who is connected: the authentication in front of ServeWS.
use edu_learn_notification_s.Prelude.{
  ℕ, Bool, true, String, List, [], ◌∷◌, ◌++◌, Option, none, some, ◌≡◌, ◌≢◌, refl, sym, ap, ◌∙◌, ◌⊎◌,
  inl, inr, arith, ◌==◌, eq_iff, eqb_iff, subst, Bool-cases, length, ltb,
}
use edu_learn_notification_s.Errors.{Result, ok, Result-cases}
use edu_learn_notification_s.Hub.{Hub, Outcome, done, register_cap}
use edu_learn_notification_s.Hub.Pumps.{Response, connected, serve_ws, accept, new_client}
use edu_learn_notification_s.Hub.Auth.{
  MapClaims, text_claim, Token, key_for, user_claim, other_claim, user_of_claims, user_of_token,
  validate_token, authenticate, query_get,
}

-- What jwt.Parse promises of a token that it returns: it asked for the key by the method of the token,
-- and the signature of the text is good under that method and key.
pub record Verifies {Method : Type 0} (Signed : Method → String → String → Token Method → Type 0)
    (parse : String → (Method → Result String) → Result (Token Method)) : Type 0 where
  pub verifies :
      (s : String) (key_of : Method → Result String) (t : Token Method)
      → parse s key_of ≡ ok t
      → (key : String) × (key_of t.method ≡ ok key) × Signed t.method key s t

abbrev pub Chosen : Option String → Option String → Option String → String → Type 0
Chosen user_id sub id user =
    (user_id ≡ some user)
    ⊎ (((user_id ≡ none) ⊎ (user_id ≡ some ""))
        × ((sub ≡ some user) ⊎ ((sub ≡ none) × (id ≡ some user))))

-- The user that claims name: by "user_id", or where that is missing or empty by "sub", then by "id".
abbrev pub Names : MapClaims → String → Type 0
Names claims user =
    Chosen (text_claim "user_id" claims) (text_claim "sub" claims) (text_claim "id" claims) user

other_claim-ok :
    (sub id : Option String) (user : String)
    → other_claim sub id ≡ ok user
    → (sub ≡ some user) ⊎ ((sub ≡ none) × (id ≡ some user))
unfolding other_claim
other_claim-ok (some s) id user h = ground arith
other_claim-ok none (some i) user h = ground arith
other_claim-ok none none user h = ground arith

user_claim-ok :
    (user_id sub id : Option String) (user : String)
    → user_claim user_id sub id ≡ ok user
    → Chosen user_id sub id user
unfolding user_claim
user_claim-ok none sub id user h = inr (inl refl, other_claim-ok sub id user h)
user_claim-ok (some u) sub id user h = elim (Bool-cases (u == "")) [
  | inl e ↦ inr (inr (ap some ((eq_iff u "").0 e)), other_claim-ok sub id user (ground arith))
  | inr e ↦ inl (ground arith)
]

user_of_claims-ok :
    (claims : Option MapClaims) (user : String)
    → user_of_claims claims ≡ ok user
    → (cs : MapClaims) × (claims ≡ some cs) × Names cs user
unfolding user_of_claims
user_of_claims-ok none user h = ground arith
user_of_claims-ok (some cs) user h = (cs, refl, user_claim-ok _ _ _ user h)

-- Of a request that is connected: the connection is the user's, and waits to be registered.
abbrev Waits : String → Hub → Outcome (Hub × Response) → Type 0
Waits user h (done (h', connected c)) =
    ((h'.objects c).user_id ≡ user) × (h'.register ≡ h.register ++ c ∷ [])
Waits user h other = Unit {0}

accept-Waits : (now : ℕ) (user : String) (h : Hub) → Waits user h (accept now user h)
unfolding accept new_client
accept-Waits now user h = elim (Bool-cases (ltb (length h.register) register_cap)) [
  | inl e ↦ rw e (ground (arith, eqb_iff h.next h.next), refl)
  | inr e ↦ rw e tt
]

serve_ws-ok :
    (now : ℕ) (user : String) (upgraded : Bool) (h h' : Hub) (c : ℕ)
    → serve_ws now (ok user) upgraded h ≡ done (h', connected c)
    → (user ≢ "") × (accept now user h ≡ done (h', connected c))
unfolding serve_ws
serve_ws-ok now user upgraded h h' c e = (λ q. ground (arith, eq_iff user ""), ground arith)

module _ {Method : Type 0} (Signed : Method → String → String → Token Method → Type 0)
    (is_hmac : Method → Bool) (parse : String → (Method → Result String) → Result (Token Method))
    (secret : String) where
  user_of_token-ok :
      (t : Token Method) (user : String)
      → user_of_token is_hmac parse secret t ≡ ok user
      → (t.valid ≡ true) × (cs : MapClaims) × (t.claims ≡ some cs) × Names cs user
  unfolding user_of_token
  user_of_token-ok t user h = elim (Bool-cases t.valid) [
    | inl e ↦
        let (cs, eq, names) = user_of_claims-ok t.claims user (ground arith) in (e, cs, eq, names)
    | inr e ↦ ground arith
  ]

  key_for-ok :
      (m : Method) (key : String)
      → key_for is_hmac parse secret m ≡ ok key
      → (is_hmac m ≡ true) × (key ≡ secret)
  unfolding key_for
  key_for-ok m key h = (ground arith, ground arith)

  -- A token whose signature is good under the server's secret and an HMAC method, and which names `user`.
  abbrev pub Credential : String → String → Type 0
  Credential s user =
      (t : Token Method) × (cs : MapClaims) × (is_hmac t.method ≡ true)
      × Signed t.method secret s t
      × (t.valid ≡ true)
      × (t.claims ≡ some cs)
      × Names cs user

  validate_token-ok :
      Verifies Signed parse
      → (s user : String) → validate_token is_hmac parse secret s ≡ ok user
      → Credential s user
  unfolding validate_token
  validate_token-ok laws s user h = elim (Result-cases (parse s (key_for is_hmac parse secret))) [
    | inl (t, e) ↦
        let run : validate_token is_hmac parse secret s ≡ user_of_token is_hmac parse secret t =
          rw e refl in
        let (key, given, good) = laws.verifies s (key_for is_hmac parse secret) t e in
        let (hmac, same) = key_for-ok t.method key given in
        let (valid, cs, eq, names) = user_of_token-ok t user (sym run ∙ h) in
        (t, cs, hmac, subst (λ k. Signed t.method k s t) same good, valid, eq, names)
    | inr (e, eq) ↦ ground arith
  ]

  authenticate-ok :
      Verifies Signed parse
      → (tokens : List String) (user : String) → authenticate is_hmac parse secret tokens ≡ ok user
      → (s : String) × (rest : List String) × (tokens ≡ s ∷ rest) × Credential s user
  unfolding authenticate query_get
  authenticate-ok laws [] user h = ground arith
  authenticate-ok laws (s ∷ rest) user h =
      (s, rest, refl, validate_token-ok laws s user (ground arith))

  -- A connection is made only for a request whose query carries a token that the library has verified with
  -- an HMAC method and the secret of the server; the connection then waits to be registered, for the user
  -- that the claims of this token name, who is not the empty text. An empty "user_id" falls back on "sub"
  -- and "id".
  pub serve_ws-authenticate :
      Verifies Signed parse
      → (tokens : List String) (now c : ℕ) (upgraded : Bool) (h h' : Hub)
      → serve_ws now (authenticate is_hmac parse secret tokens) upgraded h ≡ done (h', connected c)
      → (s : String) × (rest : List String) × (user : String) × (tokens ≡ s ∷ rest)
        × Credential s user
        × (user ≢ "")
        × ((h'.objects c).user_id ≡ user)
        × (h'.register ≡ h.register ++ c ∷ [])
  unfolding serve_ws
  serve_ws-authenticate laws tokens now c upgraded h h' e =
      elim (Result-cases (authenticate is_hmac parse secret tokens)) [
        | inr (x, eq) ↦ ground (arith, e, eq)
        | inl (user, eq) ↦
            let (s, rest, given, credential) = authenticate-ok laws tokens user eq in
            let (named, accepted) =
              serve_ws-ok now user upgraded h h' c
                (subst (λ r. serve_ws now r upgraded h ≡ done (h', connected c)) eq e) in
            let (own, waits) = subst (Waits user h) accepted (accept-Waits now user h) in
            (s, rest, user, given, credential, named, own, waits)
      ]
