-- ===== src/Smtp/Sender/Retry.antt =====
-- The attempts of Send: how many there are, and what the metrics count.
use edu_learn_notification_s.Prelude.{
  ℕ, zero, suc, ◌+◌, ◌<◌, ◌≡◌, refl, sym, ap, ◌∙◌, Option, some, ◌⊎◌, inl, inr, arith, subst,
}
use edu_learn_notification_s.Errors.{Err, Result, ok, err}
use edu_learn_notification_s.Smtp.{Run, returns, panics}
use edu_learn_notification_s.Smtp.Pool.Opened.{Ends}
use edu_learn_notification_s.Smtp.Sender.{EmailMetrics, failed_after, retry}

module _ {S : Type 0} (once : S → Run (Result (Unit {0}) × S)) where
  -- So many attempts in a row fail and lead from one state to the other.
  abbrev pub Fails : ℕ → S → S → Type 0
  Fails zero s t = s ≡ t
  Fails (suc k) s t = (e : Err) × (i : S) × (once s ≡ returns (err e, i)) × Fails k i t

  -- Of at most `n` attempts the first that succeeds ends the loop; the metrics count one mail sent, and
  -- a retry for each attempt that has failed.
  abbrev pub Delivers : ℕ → EmailMetrics → S → Run (Result (Unit {0}) × EmailMetrics × S) → Type 0
  Delivers n m s r =
      (k : ℕ) × (t : S) × (u : S) × (k < n)
      × Fails k s t
      × (once t ≡ returns (ok tt, u))
      × (r
          ≡ returns (
            ok tt,
            record m {
              email_sent_total = m.email_sent_total + 1;
              email_retries = m.email_retries + k;
            },
            u,
          ))

  -- All `n` attempts fail; the metrics count one error, and a retry for each attempt.
  abbrev pub GivesUp : ℕ → EmailMetrics → S → Run (Result (Unit {0}) × EmailMetrics × S) → Type 0
  GivesUp n m s r =
      (e : Err) × (t : S) × Fails n s t
      × (r
          ≡ returns (
            err e,
            record m {
              email_send_errors = m.email_send_errors + 1;
              email_retries = m.email_retries + n;
            },
            t,
          ))

  later :
      (n : ℕ) (last : Option Err) (m : EmailMetrics) (s i : S) (e : Err)
      → once s ≡ returns (err e, i)
      → retry once (suc n) last m s
        ≡ retry once n (some e) (record m { email_retries = m.email_retries + 1 }) i
  unfolding retry
  later n last m s i e h = rw (h, retry)

  now_sent :
      (n : ℕ) (last : Option Err) (m : EmailMetrics) (s u : S)
      → once s ≡ returns (ok tt, u)
      → retry once (suc n) last m s
        ≡ returns (ok tt, record m { email_sent_total = m.email_sent_total + 1 }, u)
  unfolding retry
  now_sent n last m s u h = rw (h, retry)

  module _ (I : S → Type 0) (keeps : (s : S) → I s → Ends (λ r. I r.1) (once s)) where
    once-cases :
        (r : Run (Result (Unit {0}) × S))
        → Ends (λ x. I x.1) r
        → ((i : S) × (r ≡ returns (ok tt, i)) × I i)
          ⊎ ((e : Err) × (i : S) × (r ≡ returns (err e, i)) × I i)
    once-cases (returns (ok u, i)) v = inl (i, refl, v)
    once-cases (returns (err e, i)) v = inr (e, i, refl, v)
    once-cases panics v = elim v [ ]

    -- Where an attempt never panics, the loop delivers or gives up.
    pub retry-Delivers :
        (n : ℕ) (last : Option Err) (m : EmailMetrics) (s : S)
        → I s
        → Delivers n m s (retry once n last m s) ⊎ GivesUp n m s (retry once n last m s)
    unfolding retry
    retry-Delivers zero last m s i = inr (
      failed_after last,
      s,
      refl,
      ap
          (λ (k : ℕ). returns (
            err (failed_after last),
            record m { email_send_errors = m.email_send_errors + 1; email_retries = k },
            s,
          ))
          (omega arith),
    )
    retry-Delivers (suc n) last m s i = elim (once-cases (once s) (keeps s i)) [
      | inl (u, h, v) ↦ inl (
        0,
        s,
        u,
        omega arith,
        refl,
        h,
        now_sent n last m s u h
            ∙ ap
                (λ (k : ℕ). returns (
                  ok tt,
                  record m { email_sent_total = m.email_sent_total + 1; email_retries = k },
                  u,
                ))
                (omega arith),
      )
      | inr (e, j, h, v) ↦
          elim (retry-Delivers n (some e) (record m { email_retries = m.email_retries + 1 }) j v) [
            | inl (k, t, u, lt, f, o, r) ↦ inl (
              suc k,
              t,
              u,
              omega arith,
              (e, j, h, f),
              o,
              later n last m s j e h
                  ∙ r
                  ∙ ap
                      (λ (k : ℕ). returns (
                        ok tt,
                        record m { email_sent_total = m.email_sent_total + 1; email_retries = k },
                        u,
                      ))
                      (omega arith),
            )
            | inr (e', t, f, r) ↦ inr (
              e',
              t,
              (e, j, h, f),
              later n last m s j e h
                  ∙ r
                  ∙ ap
                      (λ (k : ℕ). returns (
                        err e',
                        record m { email_send_errors = m.email_send_errors + 1; email_retries = k },
                        t,
                      ))
                      (omega arith),
            )
          ]
    ]

    pub retry-Ends :
        (n : ℕ) (last : Option Err) (m : EmailMetrics) (s : S)
        → I s
        → Ends (λ r. I r.2) (retry once n last m s)
    unfolding retry
    retry-Ends zero last m s i = i
    retry-Ends (suc n) last m s i = elim (once-cases (once s) (keeps s i)) [
      | inl (u, h, v) ↦ subst (Ends (λ r. I r.2)) (sym (now_sent n last m s u h)) v
      | inr (e, j, h, v) ↦
          subst (Ends (λ r. I r.2)) (sym (later n last m s j e h))
            (retry-Ends n (some e) (record m { email_retries = m.email_retries + 1 }) j v)
    ]
