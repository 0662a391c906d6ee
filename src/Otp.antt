-- ===== src/Otp.antt =====
-- internal/domain/entities/otp.go: the one-time password. Times are nanoseconds since the zero
-- time of Go, durations nanoseconds. `crypto/rand` is a stream of draws: the draw `i` is what the
-- reader gives for the call number `i`, a natural number that `rand.Int` reduces, or its error.
pub mod Code
use edu_learn_notification_s.Prelude.{
  ℕ, zero, suc, ◌+◌, ◌-◌, ◌*◌, ◌%◌, Bool, not, String, Char, List, [], ◌∷◌, get_or, ltb, eqb,
  length, ◌==◌, if◌then◌else◌,
}
use edu_learn_notification_s.Errors.{Result, ok, err, new, domain, otp_expired, invalid_otp, ◌>>=◌}

abbrev pub second : ℕ
second = 1_000_000_000

abbrev pub minute : ℕ
minute = 60 * second

abbrev pub otp_length : ℕ
otp_length = 6

abbrev pub otp_expiration : ℕ
otp_expiration = 10 * minute

abbrev pub max_otp_attempts : ℕ
max_otp_attempts = 3

pub record Otp : Type 0 where
  pub code : String
  pub email : String
  pub user_id : String
  pub expires_at : ℕ
  pub attempts : ℕ

-- func (o OTP) IsExpired(now time.Time) bool
unfoldable is_expired : ℕ → Otp → Bool
is_expired now o = ltb o.expires_at now

-- func (o *OTP) IsValid() bool
is_valid : ℕ → Otp → Bool
is_valid now o = ltb now o.expires_at

-- func (o *OTP) IncrementAttempts()
increment_attempts : Otp → Otp
increment_attempts o = record o { attempts = o.attempts + 1 }

-- func (o *OTP) CanAttempt() bool
can_attempt : Otp → Bool
can_attempt o = ltb o.attempts max_otp_attempts

-- func (o *OTP) Verify(code string) error: the result, and the object after the call.
unfoldable pub verify : String → ℕ → Otp → Result (Unit {0}) × Otp
unfolding is_valid increment_attempts can_attempt
verify code now o =
    if not (o.code == code)
    then (err (domain invalid_otp), o)
    else if not (is_valid now o)
    then (err (domain otp_expired), o)
    else if not (can_attempt o)
    then (err (new "maximum OTP attempts exceeded"), o)
    else let o' = increment_attempts o in
      if not (o'.code == code) then (err (domain invalid_otp), o') else (ok tt, o')

abbrev pub digits : List Char
digits = "0" ∷ "1" ∷ "2" ∷ "3" ∷ "4" ∷ "5" ∷ "6" ∷ "7" ∷ "8" ∷ "9" ∷ []

-- The digit that the loop stores at place `i` for the number `num`.
pub digit_at : ℕ → ℕ → Char
digit_at i num =
    if eqb i 0
    then (if ltb num 5 then get_or digits (num + 5) "0" else get_or digits num "0")
    else get_or digits num "0"

-- The loop of GenerateOTP from place `i`, with `n` places left.
pub generate_from : (ℕ → Result ℕ) → ℕ → ℕ → Result (List Char)
unfolding digit_at
generate_from draw zero i = ok []
generate_from draw (suc n) i = do
  num ← draw i
  rest ← generate_from draw n (i + 1)
  ok (digit_at i (num % length digits) ∷ rest)

-- func GenerateOTP(randReader io.Reader) (string, error); the reader given is not used.
unfoldable pub generate_otp : (ℕ → Result ℕ) → Result (List Char)
unfolding generate_from
generate_otp draw = generate_from draw otp_length 0

-- string(code)
abbrev to_string : List Char → String
to_string [] = String.[]
to_string (c ∷ cs) = String.◌∷◌ c (to_string cs)

-- func NewOTP(userId, email string) (*OTP, error)
unfoldable pub new_otp : (ℕ → Result ℕ) → ℕ → String → String → Result Otp
new_otp draw now user_id email = do
  code ← generate_otp draw
  ok (record {
    code = to_string code;
    email = email;
    user_id = user_id;
    expires_at = now + otp_expiration;
    attempts = 0;
  })
