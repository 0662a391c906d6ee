-- ===== src/Utils/Masks.antt =====
-- What is left of an address that is masked.
use edu_learn_notification_s.Prelude.{
  ℕ, false, suc, ◌+◌, ◌≤◌, [], ◌∷◌, ◌++◌, ◌≡◌, ◌≢◌, refl, ap, none, some, All, length,
  length-append, ltb, arith, inl, inr, Bool-cases, if◌then◌else◌,
}
use edu_learn_notification_s.Utils.Search.{drop-append}
use edu_learn_notification_s.Utils.{Bytes, take, index, at_sign, stars, masked, mask_email}

index-missing : (b : ℕ) (s : Bytes) → All (λ c. c ≢ b) s → index b s ≡ none
unfolding index
index-missing b [] h = refl
index-missing b (c ∷ s) h = ground (arith, index-missing b s h.1, h.0)

index-append : (b : ℕ) (s t : Bytes) → All (λ c. c ≢ b) s → index b (s ++ b ∷ t) ≡ some (length s)
unfolding index
index-append b [] t h = ground arith
index-append b (c ∷ s) t h = ground (arith, index-append b s t h.1, h.0)

-- MaskEmail keeps of an address with an at sign the domain and the first two bytes, or only the first
-- where fewer than three stand before the sign. A text of five bytes or more with no at sign makes it
-- panic.
mask_email_lem :
    (local domain : Bytes)
    → All (λ c. c ≢ at_sign) local
    → (5 ≤ length local + suc (length domain)
        → mask_email (local ++ at_sign ∷ domain)
          ≡ some (
              take (if ltb (length local) 3 then 1 else 2) (local ++ at_sign ∷ domain)
              ++ (stars ++ (at_sign ∷ domain))))
      × (5 ≤ length local → mask_email local ≡ none)
unfolding mask_email masked
mask_email_lem local domain h = (
  λ long.
      let email = local ++ at_sign ∷ domain in
      let size : ltb (length email) 5 ≡ false =
        ground (arith, length-append local (at_sign ∷ domain)) in
      rw (size, index-append at_sign local domain h)
        (elim (Bool-cases (ltb (length local) 3)) [
          | inl e ↦
              rw e (
                ap (λ d. some (take 1 email ++ (stars ++ d)))
                  (drop-append local (at_sign ∷ domain)))
          | inr e ↦
              rw e (
                ap (λ d. some (take 2 email ++ (stars ++ d)))
                  (drop-append local (at_sign ∷ domain)))
        ]),
  λ long. rw (index-missing at_sign local h) (ground arith),
)
