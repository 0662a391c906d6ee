-- ===== src/Prelude/Text.antt =====
-- Texts with a common beginning: keys are built by a prefix and the rest.
use Prim.Native.Nat.{ℕ, zero, suc, ◌%◌, ◌/◌, ◌≤◌}
use Prim.Native.Char.{Char, code}
use Prim.Native.String.{String, ◌++◌}
use Prim.Native.String.append
use mathlib.Core.Path.{◌≡◌, refl, sym, ap, ◌∙◌}
use mathlib.Core.Bool.{Bool, true, false}
use native.Mathlib.Omega.{arith}
use text.Mathlib.Text.{◌==◌}
use text.Mathlib.TextEquality.{eq_iff}
use edu_learn_notification_s.Prelude.Tests.{ltb, if◌then◌else◌}

rest : String → String
rest String.[] = String.[]
rest (String.◌∷◌ c s) = s

pub append-injective : (p a b : String) → p ++ a ≡ p ++ b → a ≡ b
append-injective String.[] a b h = sym (append.nil a) ∙ h ∙ append.nil b
append-injective (String.◌∷◌ c p) a b h =
    append-injective p a b
      (unfold rest in ap rest (sym (append.cons c p a) ∙ h ∙ append.cons c p b))

-- Two texts behind one prefix are compared by what follows it.
pub ==-append : (p a b : String) → ((p ++ a) == (p ++ b)) ≡ (a == b)
==-append p a b = ground (
  arith,
  eq_iff a b,
  eq_iff (p ++ a) (p ++ b),
  append-injective p a b,
  λ (e : a ≡ b). ap (λ (t : String). p ++ t) e,
)

digit_char : ℕ → Char
digit_char zero = "0"
digit_char (suc zero) = "1"
digit_char (suc (suc zero)) = "2"
digit_char (suc (suc (suc zero))) = "3"
digit_char (suc (suc (suc (suc zero)))) = "4"
digit_char (suc (suc (suc (suc (suc zero))))) = "5"
digit_char (suc (suc (suc (suc (suc (suc zero)))))) = "6"
digit_char (suc (suc (suc (suc (suc (suc (suc zero))))))) = "7"
digit_char (suc (suc (suc (suc (suc (suc (suc (suc zero)))))))) = "8"
digit_char (suc (suc (suc (suc (suc (suc (suc (suc (suc n))))))))) = "9"

decimal_onto : ℕ → ℕ → String → String
unfolding digit_char
decimal_onto zero n acc = acc
decimal_onto (suc fuel) n acc =
    let acc' = String.◌∷◌ (digit_char (n % 10)) acc in
    let rest = decimal_onto fuel (n / 10) acc' in if ltb n 10 then acc' else rest

-- The verb `%d` of fmt: a number in decimal. A number has no more digits than its successor counts.
pub decimal : ℕ → String
unfolding decimal_onto
decimal n = decimal_onto (suc n) n String.[]

decimal_runs : (decimal 0 ≡ "0") × (decimal 907 ≡ "907")
unfolding decimal
decimal_runs = (refl, refl)

-- What stands first is a digit.
abbrev pub DigitFirst : String → Type 0
DigitFirst String.[] = ⊥
DigitFirst (String.◌∷◌ c s) = 48 ≤ code c

digit_char-le : (n : ℕ) → 48 ≤ code (digit_char n)
unfolding digit_char
digit_char-le zero = omega arith
digit_char-le (suc zero) = omega arith
digit_char-le (suc (suc zero)) = omega arith
digit_char-le (suc (suc (suc zero))) = omega arith
digit_char-le (suc (suc (suc (suc zero)))) = omega arith
digit_char-le (suc (suc (suc (suc (suc zero))))) = omega arith
digit_char-le (suc (suc (suc (suc (suc (suc zero)))))) = omega arith
digit_char-le (suc (suc (suc (suc (suc (suc (suc zero))))))) = omega arith
digit_char-le (suc (suc (suc (suc (suc (suc (suc (suc zero)))))))) = omega arith
digit_char-le (suc (suc (suc (suc (suc (suc (suc (suc (suc n))))))))) = omega arith

if-DigitFirst :
    (b : Bool) (s t : String) → DigitFirst s → DigitFirst t → DigitFirst (if b then s else t)
if-DigitFirst true s t hs ht = hs
if-DigitFirst false s t hs ht = ht

decimal_onto-DigitFirst :
    (fuel n : ℕ) (acc : String) → DigitFirst acc → DigitFirst (decimal_onto fuel n acc)
unfolding decimal_onto
decimal_onto-DigitFirst zero n acc h = h
decimal_onto-DigitFirst (suc fuel) n acc h =
    let first = digit_char-le (n % 10) in
    let rest = decimal_onto-DigitFirst fuel (n / 10) (String.◌∷◌ (digit_char (n % 10)) acc) first in
    if-DigitFirst (ltb n 10) _ _ first rest

pub decimal-DigitFirst : (n : ℕ) → DigitFirst (decimal n)
unfolding decimal
decimal-DigitFirst n =
    let first = digit_char-le (n % 10) in
    let rest =
      decimal_onto-DigitFirst n (n / 10) (String.◌∷◌ (digit_char (n % 10)) String.[]) first in
    if-DigitFirst (ltb n 10) _ _ first rest
