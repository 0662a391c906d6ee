-- ===== src/Otp/Code.antt =====
-- The codes that GenerateOTP makes.
use edu_learn_notification_s.Prelude.{
  ℕ, zero, suc, ◌+◌, ◌%◌, ◌≤◌, ◌<◌, Char, code, List, [], ◌∷◌, ◌≡◌, refl, All, length, arith,
  get_or,
}
use edu_learn_notification_s.Errors.{Result, ok, err, Err}
use edu_learn_notification_s.Otp.{digits, digit_at, generate_from, generate_otp, otp_length}

abbrev pub IsDigit : Char → Type 0
IsDigit c = (b'0' ≤ code c) × (code c ≤ b'9')

digits-code : (n : ℕ) → n < 10 → code (get_or digits n "0") ≡ 48 + n
digits-code zero h = refl
digits-code (suc zero) h = refl
digits-code (suc (suc zero)) h = refl
digits-code (suc (suc (suc zero))) h = refl
digits-code (suc (suc (suc (suc zero)))) h = refl
digits-code (suc (suc (suc (suc (suc zero))))) h = refl
digits-code (suc (suc (suc (suc (suc (suc zero)))))) h = refl
digits-code (suc (suc (suc (suc (suc (suc (suc zero))))))) h = refl
digits-code (suc (suc (suc (suc (suc (suc (suc (suc zero)))))))) h = refl
digits-code (suc (suc (suc (suc (suc (suc (suc (suc (suc zero))))))))) h = refl
digits-code (suc (suc (suc (suc (suc (suc (suc (suc (suc (suc n)))))))))) h = absurd (omega arith)

digit_at-IsDigit : (i num : ℕ) → num < 10 → IsDigit (digit_at i num)
unfolding digit_at
digit_at-IsDigit i num h = ground (arith, digits-code num, digits-code (num + 5))

digit_at-first : (num : ℕ) → num < 10 → b'5' ≤ code (digit_at 0 num)
unfolding digit_at
digit_at-first num h = ground (arith, digits-code num, digits-code (num + 5))

-- With every draw of the loop answered, the loop stores `n` digits.
generate_from-IsDigit :
    (draw : ℕ → Result ℕ) (d : ℕ → ℕ) (n i : ℕ)
    → ((k : ℕ) → k < i + n → draw k ≡ ok (d k))
    → (cs : List Char) × (generate_from draw n i ≡ ok cs) × (length cs ≡ n) × All IsDigit cs
unfolding generate_from
generate_from-IsDigit draw d zero i h = ([], refl, refl, tt)
generate_from-IsDigit draw d (suc n) i h =
    let (cs, e, l, a) = generate_from-IsDigit draw d n (i + 1) (λ k p. h k (omega arith)) in
    (
      digit_at i (d i % 10) ∷ cs,
      rw (h i (omega arith), e),
      ground arith,
      (digit_at-IsDigit i (d i % 10) (omega arith), a),
    )

-- The code's head, for a code that is not empty.
abbrev pub FirstFrom : ℕ → List Char → Type 0
FirstFrom n [] = ⊥
FirstFrom n (c ∷ cs) = n ≤ code c

-- Where each of the six draws is answered, GenerateOTP returns a code of six decimal digits, and the
-- first of them is not less than 5.
pub generate_otp-IsDigit :
    (draw : ℕ → Result ℕ) (d : ℕ → ℕ)
    → ((k : ℕ) → k < otp_length → draw k ≡ ok (d k))
    → (cs : List Char) × (generate_otp draw ≡ ok cs)
      × (length cs ≡ otp_length)
      × All IsDigit cs
      × FirstFrom b'5' cs
unfolding generate_otp
generate_otp-IsDigit draw d h =
    let (cs, e, l, a) = generate_from-IsDigit draw d 5 1 (λ k p. h k (omega arith)) in
    (
      digit_at 0 (d 0 % 10) ∷ cs,
      rw (h 0 (omega arith), e),
      ground arith,
      (digit_at-IsDigit 0 (d 0 % 10) (omega arith), a),
      digit_at-first (d 0 % 10) (omega arith),
    )

-- The loop stops at the first draw that fails, with that draw's error.
generate_from-first_error :
    (draw : ℕ → Result ℕ) (d : ℕ → ℕ) (e : Err) (m n i : ℕ)
    → m < n
    → ((k : ℕ) → k < i + m → draw k ≡ ok (d k))
    → draw (i + m) ≡ err e
    → generate_from draw n i ≡ err e
unfolding generate_from
generate_from-first_error draw d e m zero i p h f = absurd (omega arith)
generate_from-first_error draw d e zero (suc n) i p h f =
    let at_i : i + 0 ≡ i = omega arith in rw (rw at_i at f)
generate_from-first_error draw d e (suc m) (suc n) i p h f =
    let shift : i + suc m ≡ i + 1 + m = omega arith in
    rw (
      h i (omega arith),
      generate_from-first_error draw d e m n (i + 1) (omega arith) (λ k q. h k (omega arith))
          (rw shift at f),
    )

-- If the draw `m` of the six is the first that fails, GenerateOTP returns that draw's error.
pub generate_otp-first_error :
    (draw : ℕ → Result ℕ) (d : ℕ → ℕ) (e : Err) (m : ℕ)
    → m < otp_length
    → ((k : ℕ) → k < m → draw k ≡ ok (d k))
    → draw m ≡ err e
    → generate_otp draw ≡ err e
unfolding generate_otp
generate_otp-first_error draw d e m p h f =
    let zero_add : 0 + m ≡ m = omega arith in
    generate_from-first_error draw d e m otp_length 0 p (λ k q. h k (omega arith)) (rw zero_add f)
