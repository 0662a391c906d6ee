-- ===== src/Utils.antt =====
-- pkg/utils/generate_uuid.go: the helpers on texts. A text is the list of its bytes; a rune that the
-- loops look for is one byte of ASCII, which no other rune holds. `read` is crypto/rand, which fills as
-- many bytes as it is asked for, `encode` base64. A slice out of range panics: none.
pub mod Search
pub mod Masks
use edu_learn_notification_s.Prelude.{
  ℕ, zero, suc, ◌+◌, ◌-◌, ◌%◌, Bool, true, false, not, ◌&&◌, ◌||◌, List, [], ◌∷◌, ◌++◌, map, Option,
  none, some, length, any, all, eqb, ltb, leb, if◌then◌else◌,
}
use edu_learn_notification_s.Errors.{new}
use edu_learn_notification_s.Effect.{Exec, fail, pure, ◌>>=◌}

abbrev pub Bytes : Type 0
Bytes = List ℕ

-- s[:n] and s[n:], within the text
unfoldable pub take : ℕ → Bytes → Bytes
take zero s = []
take (suc n) [] = []
take (suc n) (c ∷ s) = c ∷ take n s

unfoldable pub drop : ℕ → Bytes → Bytes
drop zero s = s
drop (suc n) [] = []
drop (suc n) (c ∷ s) = drop n s

abbrev shifted : Option ℕ → Option ℕ
shifted none = none
shifted (some i) = some (suc i)

-- The first place of a byte, and the last; none is -1.
pub index : ℕ → Bytes → Option ℕ
index b [] = none
index b (c ∷ s) = let rest = index b s in if eqb c b then some 0 else shifted rest

last_index : ℕ → Bytes → Option ℕ
last_index b [] = none
last_index b (c ∷ s) = elim (last_index b s) [
  | some i ↦ some (suc i)
  | none ↦ if eqb c b then some 0 else none
]

abbrev pub at_sign : ℕ
at_sign = b'@'

-- func IsEmail(email string) bool
unfoldable is_email : Bytes → Bool
unfolding index last_index
is_email email = elim (index at_sign email) [
  | none ↦ false
  | some at ↦ elim (last_index b'.' email) [
    | none ↦ false
    | some dot ↦ ltb 0 at && ltb (at + 1) dot && ltb dot (length email - 1)
  ]
]

abbrev pub stars : Bytes
stars = b'*' ∷ b'*' ∷ b'*' ∷ []

-- email[:n] + "***" + email[at:]
pub masked : ℕ → Option ℕ → Bytes → Option Bytes
masked n none email = none
masked n (some at) email = some (take n email ++ (stars ++ drop at email))

-- func MaskEmail(email string) string
pub mask_email : Bytes → Option Bytes
unfolding index masked
mask_email email =
    if ltb (length email) 5 then some (stars ++ (at_sign ∷ stars)) else elim (index at_sign email) [
      | none ↦ masked 1 none email
      | some at ↦ if ltb at 3 then masked 1 (some at) email else masked 2 (some at) email
    ]

-- func MaskPhoneNumber(phone string) string
unfoldable mask_phone_number : Bytes → Bytes
unfolding take drop
mask_phone_number phone =
    if ltb (length phone) 4
    then stars
    else take 3 phone ++ ((b'*' ∷ stars) ++ drop (length phone - 2) phone)

-- func toLower(s string) string
pub to_lower : Bytes → Bytes
to_lower s = map (λ c. if leb b'A' c && leb c b'Z' then c + 32 else c) s

-- s[i:i+len(t)] == t
pub same_bytes : Bytes → Bytes → Bool
same_bytes [] [] = true
same_bytes [] (d ∷ t) = false
same_bytes (c ∷ s) [] = false
same_bytes (c ∷ s) (d ∷ t) = eqb c d && same_bytes s t

-- The loop of containsIgnoreCase from the place `i`, with `n` places left.
pub search_from : ℕ → ℕ → Bytes → Bytes → Bool
unfolding same_bytes
search_from zero i s t = false
search_from (suc n) i s t =
    let later = search_from n (i + 1) s t in
    if same_bytes (take (length t) (drop i s)) t then true else later

-- func containsIgnoreCase(s, substr string) bool
unfoldable contains_ignore_case : Bytes → Bytes → Bool
unfolding to_lower search_from
contains_ignore_case s t =
    let low = to_lower s in
    let sub = to_lower t in
    if ltb (length low) (length sub)
    then false
    else search_from (length low - length sub + 1) 0 low sub

-- func Truncate(s string, maxLen int) string, for a length that is not negative
unfoldable truncate : Bytes → ℕ → Bytes
unfolding take
truncate s max_len =
    if leb (length s) max_len then s else take max_len s ++ (b'.' ∷ b'.' ∷ b'.' ∷ [])

-- func StringSliceContains(slice []string, s string) bool
unfoldable string_slice_contains : List Bytes → Bytes → Bool
unfolding same_bytes
string_slice_contains slice s = any (λ v. same_bytes v s) slice

record Seen : Type 0 where
  at_count : ℕ
  dot_after_at : Bool
  at_index : Option ℕ

abbrev is_after : ℕ → Option ℕ → Bool
is_after i none = false
is_after i (some at) = ltb at i

-- The loop of ValidateEmail, from the place `i`.
look : ℕ → Bytes → Seen → Seen
look i [] s = s
look i (c ∷ rest) s =
    let at =
      (if eqb c at_sign then record s { at_count = s.at_count + 1; at_index = some i } else s) in
    look (i + 1) rest
      (if eqb c b'.' && is_after i at.at_index then record at { dot_after_at = true } else at)

abbrev is_inside : ℕ → Option ℕ → Bool
is_inside len none = false
is_inside len (some at) = ltb 0 at && ltb at (len - 2)

-- func ValidateEmail(email string) bool
unfoldable validate_email_text : Bytes → Bool
unfolding look
validate_email_text email =
    let s = look 0 email (record { at_count = 0; dot_after_at = false; at_index = none }) in
    not (ltb (length email) 3)
    && eqb s.at_count 1
    && s.dot_after_at
    && is_inside (length email) s.at_index

is_phone_char : ℕ → Bool
is_phone_char c =
    (leb b'0' c && leb c b'9') || eqb c b'+' || eqb c b'-' || eqb c b'(' || eqb c b')' || eqb c b' '

-- func ValidatePhoneNumber(phone string) bool
unfoldable validate_phone_number : Bytes → Bool
unfolding is_phone_char
validate_phone_number phone =
    not (ltb (length phone) 10 || ltb 15 (length phone)) && all is_phone_char phone

module _ {W : Type 0} (read : ℕ → Exec W Bytes) where
  -- func GenerateRandomOTP(length int) (string, error)
  unfoldable generate_random_otp : ℕ → Exec W Bytes
  generate_random_otp n =
      if ltb n 4 || ltb 12 n
      then fail (new "OTP length must be between 4-12")
      else (do b ← read n; pure (map (λ c. b'0' + c % 10) b))

  -- func RandomToken(byteLen int) (string, error), with the encoding for URLs that is not padded
  unfoldable random_token : (encode : Bytes → Bytes) → ℕ → Exec W Bytes
  random_token encode byte_len = do b ← read byte_len; pure (encode b)

  -- func GenerateResetToken(length int) (string, error), with the padded encoding
  unfoldable generate_reset_token : (encode : Bytes → Bytes) → ℕ → Exec W Bytes
  generate_reset_token encode n = do b ← read (if ltb n 16 then 32 else n); pure (encode b)
