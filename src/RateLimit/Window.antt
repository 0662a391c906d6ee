-- ===== src/RateLimit/Window.antt =====
-- How many requests of one window are let through.
use Prim.Native.String.{◌++◌}
use native.Mathlib.Nat.{le-div_iff_mul-le, div-lt_iff_lt-mul, suc-mul}
use edu_learn_notification_s.Prelude.{
  ℕ, ◌+◌, ◌-◌, ◌/◌, ◌≤◌, ◌<◌, min, false, suc, eqb, ◌||◌, Bool-cases, inl, inr, ◌⊎◌, refl, ap,
  String, ◌≡◌, ◌≢◌, List, [], ◌∷◌, All, length, arith, eq_iff, append-injective, decimal,
  decimal-DigitFirst, DigitFirst,
}
use edu_learn_notification_s.Errors.{Result, ok, err, Result-cases}
use edu_learn_notification_s.Otp.{second}
use edu_learn_notification_s.Ports.{Counters}
use edu_learn_notification_s.RateLimit.{
  RateLimiter, window_number, window_key, counter_prefix, allow, admit, start_window, reset,
  unix_epoch,
}
use edu_learn_notification_s.RateLimit.Laws.{CountersLaws, Counter, lapsed, expiring}

abbrev passed : Result (Unit {0}) → ℕ
passed (ok a) = 1
passed (err e) = 0

module _ {W : Type 0} (cache : Counters W) (count : String → W → Counter)
    (laws : CountersLaws cache count) (l : RateLimiter) where
  -- The number of the requests, made at the given times, that `Allow` lets through.
  pub admitted : String → List ℕ → W → ℕ
  admitted key [] w = 0
  admitted key (t ∷ ts) w = let (r, w') = allow cache l t key w in passed r + admitted key ts w'

  -- The counter of the window number `n` of a key.
  abbrev pub counter : String → ℕ → String
  counter key n = counter_prefix l key ++ decimal n

  key-counter :
      (key : String) (n t : ℕ) → window_number l t ≡ n → window_key l t key ≡ counter key n
  unfolding window_key
  key-counter key n t e = rw e

  -- Redis answers every INCR.
  abbrev pub Answers : Type 0
  Answers = (now : ℕ) (k : String) (w : W) → (n : ℕ) × ((cache.incr now k w).0 ≡ ok n)

  -- The times of the window number `n`, from the Unix epoch on.
  abbrev pub IsIn : ℕ → ℕ → Type 0
  IsIn n t = (unix_epoch ≤ t / second) × (window_number l t ≡ n)

  -- A counter that does not lapse in the window, as one without a deadline.
  abbrev pub Lasts : ℕ → Counter → Type 0
  Lasts n c = (t : ℕ) → IsIn n t → lapsed t c ≡ false

  -- Two moments of one window are less than its length apart.
  window-lt : (n t u : ℕ) → 0 < l.window / second → IsIn n t → IsIn n u → u < t + l.window
  unfolding window_number
  window-lt n t u long (after, i) (later, j) =
      let size = l.window / second in
      let start =
        (le-div_iff_mul-le {k = size} {x = n} {y = t / second - unix_epoch} long).0
          (omega (arith, i)) in
      let over =
        (div-lt_iff_lt-mul {k = size} {x = u / second - unix_epoch} {y = suc n} long).0
          (omega (arith, j)) in
      let split = suc-mul n size in omega (arith, start, over, split)

  expired-Lasts :
      (n t : ℕ) (c : Counter)
      → 0 < l.window / second
      → IsIn n t
      → Lasts n c
      → ((expiring t (l.window + second) c).value ≡ c.value)
        × Lasts n (expiring t (l.window + second) c)
  expired-Lasts n t c long i lasts = elim (Bool-cases (lapsed t c || eqb c.value 0)) [
    | inl none ↦ rw none (refl, lasts)
    | inr alive ↦
        rw alive (
          refl,
          λ u j. let near = window-lt n t u long i j in unfold lapsed in ground (arith, near),
        )
  ]

  -- After the expiry was set, or was not, or failed.
  start_window-count :
      (now : ℕ) (k : String) (n : ℕ) (w : W)
      → ((start_window cache l now k n w).0 ≡ ok tt)
        × ((count k (start_window cache l now k n w).1 ≡ count k w)
            ⊎ (count k (start_window cache l now k n w).1
                ≡ expiring now (l.window + second) (count k w)))
  unfolding start_window
  start_window-count now k n w = elim (Bool-cases (eqb n 1)) [
    | inr other ↦ rw other (refl, inl refl)
    | inl first ↦
        let ttl = l.window + second in
        rw first (
          refl,
          elim (Result-cases (cache.expire now k ttl w).0) [
            | inl (tt, e) ↦ inr (laws.expire_ok now k ttl w e)
            | inr (x, e) ↦ laws.expire_fails now k ttl w x e
          ],
        )
  ]

  start_window-Lasts :
      (now : ℕ) (k : String) (n count_now : ℕ) (w : W)
      → 0 < l.window / second
      → IsIn n now
      → Lasts n (count k w)
      → ((count k (start_window cache l now k count_now w).1).value ≡ (count k w).value)
        × Lasts n (count k (start_window cache l now k count_now w).1)
  start_window-Lasts now k n count_now w long here lasts =
      elim (start_window-count now k count_now w).1 [
        | inl same ↦ rw same (refl, lasts)
        | inr set ↦ rw set (expired-Lasts n now (count k w) long here lasts)
      ]

  abbrev after_request : ℕ → String → W → W
  after_request now key w = (allow cache l now key w).1

  allow-exact :
      (answers : Answers) (now : ℕ) (key : String) (n : ℕ) (w : W)
      → 0 < l.window / second
      → IsIn n now
      → Lasts n (count (counter key n) w)
      → (passed (allow cache l now key w).0 ≡ min 1 (l.rate - (count (counter key n) w).value))
        × ((count (counter key n) (after_request now key w)).value
            ≡ (count (counter key n) w).value + 1)
        × Lasts n (count (counter key n) (after_request now key w))
  unfolding allow admit
  allow-exact answers now key n w long here lasts =
      let k = counter key n in
      let same = key-counter key n now here.1 in
      let (m, e) = answers now k w in
      let w' = (cache.incr now k w).1 in
      let counts = laws.incr_counts now k w m e in
      let alive = lasts now here in
      let more : count k w' ≡ record (count k w) { value = (count k w).value + 1 } =
        rw alive at counts.1 in
      let number : m ≡ (count k w).value + 1 = rw alive at counts.0 in
      let (started, rest) = start_window-count now k m w' in
      let (value, kept) =
        start_window-Lasts now k n m w' long here (rw more (unfold lapsed in lasts)) in
      let counted = ap (λ (c : Counter). c.value) more in
      rw (same, e, started)
        (ground (arith, number), ground (arith, value, counted), ground (arith, kept))

  -- While Redis answers every INCR, exactly as many requests of one window of a second at least pass as
  -- the rate leaves over what the window's counter holds, if this counter does not lapse in the window,
  -- as a new one. An EXPIRE may fail.
  pub admitted-eq-min :
      (answers : Answers) (key : String) (n : ℕ) (ts : List ℕ) (w : W)
      → 0 < l.window / second
      → All (IsIn n) ts
      → Lasts n (count (counter key n) w)
      → admitted key ts w ≡ min (length ts) (l.rate - (count (counter key n) w).value)
  unfolding admitted
  admitted-eq-min answers key n [] w long here lasts = omega arith
  admitted-eq-min answers key n (t ∷ ts) w long here lasts =
      let (now, more, kept) = allow-exact answers t key n w long here.0 lasts in
      omega (
        arith,
        now,
        more,
        admitted-eq-min answers key n ts (after_request t key w) long here.1 kept,
      )

  star-counter : (key : String) (n : ℕ) → (counter_prefix l key ++ "*") ≢ counter key n
  star-counter key n e =
      let same : "*" ≡ decimal n = append-injective (counter_prefix l key) "*" (decimal n) e in
      let first : DigitFirst "*" = rw (← same) at (decimal-DigitFirst n) in omega arith

  -- `Reset` changes the counter of no window of the key: the pattern that it deletes is taken as a
  -- name, and no counter has that name.
  pub reset-count :
      (key : String) (n : ℕ) (w : W)
      → count (counter key n) (reset cache l key w).1 ≡ count (counter key n) w
  unfolding reset
  reset-count key n w = ground (
    arith,
    laws.del_others ((counter_prefix l key ++ "*") ∷ []) w (counter key n),
    eq_iff (counter_prefix l key ++ "*") (counter key n),
    star-counter key n,
  )
