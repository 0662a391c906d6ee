-- ===== src/Utils/Search.antt =====
-- The search for a text in another.
use edu_learn_notification_s.Prelude.{
  ℕ, zero, suc, ◌+◌, ◌-◌, ◌<◌, true, false, [], ◌∷◌, ◌++◌, ◌≡◌, ◌↔◌, refl, sym, ap, ◌∙◌, inl, inr,
  length, length-append, ltb, arith, Bool-cases,
}
use edu_learn_notification_s.Utils.{
  Bytes, take, drop, same_bytes, search_from, to_lower, contains_ignore_case,
}

same_bytes_iff : (s t : Bytes) → (same_bytes s t ≡ true) ↔ (s ≡ t)
unfolding same_bytes
same_bytes_iff [] [] = (λ h. refl, λ h. refl)
same_bytes_iff [] (d ∷ t) = (λ h. ground arith, λ h. ground arith)
same_bytes_iff (c ∷ s) [] = (λ h. ground arith, λ h. ground arith)
same_bytes_iff (c ∷ s) (d ∷ t) = ground (arith, same_bytes_iff s t)

abbrev slice : ℕ → Bytes → Bytes → Bytes
slice i s t = take (length t) (drop i s)

search_from-slice :
    (n i : ℕ) (s t : Bytes) → search_from n i s t ≡ true → (j : ℕ) × (slice j s t ≡ t)
unfolding search_from
search_from-slice zero i s t h = ground arith
search_from-slice (suc n) i s t h = elim (Bool-cases (same_bytes (slice i s t) t)) [
  | inl e ↦ (i, (same_bytes_iff (slice i s t) t).0 e)
  | inr e ↦ search_from-slice n (i + 1) s t (ground (arith, h, e))
]

search_from_complete :
    (n i j : ℕ) (s t : Bytes) → j < n → slice (i + j) s t ≡ t → search_from n i s t ≡ true
unfolding search_from
search_from_complete zero i j s t p h = absurd (omega arith)
search_from_complete (suc n) i zero s t p h =
    let here : i + 0 ≡ i = omega arith in
    let same = (same_bytes_iff (slice i s t) t).1 (rw here at h) in rw same refl
search_from_complete (suc n) i (suc j) s t p h =
    let shift : i + suc j ≡ i + 1 + j = omega arith in
    let later = search_from_complete n (i + 1) j s t (omega arith) (rw shift at h) in
    elim (Bool-cases (same_bytes (slice i s t) t)) [ inl e ↦ rw e refl | inr e ↦ rw e later ]

take-drop : (n : ℕ) (s : Bytes) → take n s ++ drop n s ≡ s
unfolding take drop
take-drop zero s = refl
take-drop (suc n) [] = refl
take-drop (suc n) (c ∷ s) = ap (λ r. c ∷ r) (take-drop n s)

take-append : (s t : Bytes) → take (length s) (s ++ t) ≡ s
unfolding take
take-append [] t = refl
take-append (c ∷ s) t = ap (λ r. c ∷ r) (take-append s t)

pub drop-append : (s t : Bytes) → drop (length s) (s ++ t) ≡ t
unfolding drop
drop-append [] t = refl
drop-append (c ∷ s) t = drop-append s t

-- A text is found in another exactly when the other, both in lower case, has it with something before and
-- something after.
contains_ignore_case_iff :
    (s t : Bytes)
    → (contains_ignore_case s t ≡ true)
      ↔ ((a : Bytes) × (b : Bytes) × (to_lower s ≡ a ++ (to_lower t ++ b)))
unfolding contains_ignore_case
contains_ignore_case_iff s t =
    let low = to_lower s in
    let sub = to_lower t in
    (
      λ h. elim (Bool-cases (ltb (length low) (length sub))) [
        | inl e ↦ ground (arith, h, e)
        | inr e ↦
            let (j, found) =
              search_from-slice (length low - length sub + 1) 0 low sub (ground (arith, h, e)) in
            (
              take j low,
              drop (length sub) (drop j low),
              sym (take-drop j low)
                  ∙ ap (λ r. take j low ++ r)
                      (sym (take-drop (length sub) (drop j low))
                        ∙ ap (λ x. x ++ drop (length sub) (drop j low)) found),
            )
      ],
      λ (a, b, e).
          let size : length low ≡ length a + (length sub + length b) =
            ap (length {A = ℕ}) e
            ∙ length-append a (sub ++ b)
            ∙ ap (λ n. length a + n) (length-append sub b) in
          let fits : ltb (length low) (length sub) ≡ false = ground (arith, size) in
          let start : 0 + length a ≡ length a = omega arith in
          let there : slice (length a) low sub ≡ sub =
            ap (λ x. take (length sub) (drop (length a) x)) e
            ∙ ap (take (length sub)) (drop-append a (sub ++ b))
            ∙ take-append sub b in
          rw fits (
            search_from_complete (length low - length sub + 1) 0 (length a) low sub
              (omega (arith, size)) (rw start there)),
    )
