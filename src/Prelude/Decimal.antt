-- ===== src/Prelude/Decimal.antt =====
-- strconv.Itoa of a number that is not negative, and its inverse.
use Prim.Native.Nat.{ℕ, zero, suc, ◌+◌, ◌-◌, ◌*◌, ◌/◌, ◌%◌, ◌<◌}
use Prim.Native.Char.{Char, code}
use Prim.Native.String
use Prim.Native.String.append
use Prim.Native.String.{String}
use mathlib.Core.Path.{◌≡◌, refl, sym, ap, ◌∙◌}
use mathlib.Core.Logic.{inl, inr}
use mathlib.Core.Bool.{Bool, true, false, ◌&&◌, ◌||◌}
use native.Mathlib.Decide.{ℕ_discrete}
use native.Mathlib.Omega.{arith}
use completer.Prelude.Tests.{ltb, ◌==◌, if◌then◌else◌, Bool-cases}

==→eq : (a b : ℕ) → (a == b) ≡ true → a ≡ b
==→eq a b h = ground arith

ltb→lt : (a b : ℕ) → ltb a b ≡ true → a < b
ltb→lt a b h = ground arith

digit : ℕ → Char
digit d =
    if d == 0
    then "0"
    else if d == 1
    then "1"
    else if d == 2
    then "2"
    else if d == 3
    then "3"
    else if d == 4
    then "4"
    else if d == 5
    then "5"
    else if d == 6
    then "6"
    else if d == 7
    then "7"
    else if d == 8
    then "8"
    else "9"

-- Every digit below a bound has the code that is expected.
digits_below : ℕ → Bool
digits_below zero = true
digits_below (suc n) = (code (digit n) == (n + 48)) && digits_below n

digits_below-code : (n d : ℕ) → digits_below n ≡ true → d < n → code (digit d) ≡ d + 48
unfolding digits_below
digits_below-code zero d h l = absurd (omega arith)
digits_below-code (suc n) d h l = elim (ℕ_discrete d n) [
  | yes e ↦ rw e (==→eq (code (digit n)) (n + 48) (ground (arith, h)))
  | no e ↦ digits_below-code n d (ground (arith, h)) (omega (arith, e))
]

code-digit : (d : ℕ) → d < 10 → code (digit d) ≡ d + 48
unfolding digits_below digit
code-digit d h = digits_below-code 10 d refl h

-- The digits of a number before a text; its quotient falls, so that the number itself is fuel
-- enough.
itoa_before : ℕ → ℕ → String → String
itoa_before zero n s = s
itoa_before (suc fuel) n s =
    let t = String.◌∷◌ (digit (n % 10)) s in
    let rest = itoa_before fuel (n / 10) t in if ltb n 10 then t else rest

unfoldable pub itoa : ℕ → String
unfolding itoa_before digit
itoa n = itoa_before (suc n) n String.[]

atoi_from : ℕ → String → ℕ
atoi_from acc String.[] = acc
atoi_from acc (String.◌∷◌ c s) = atoi_from (acc * 10 + (code c - 48)) s

atoi_from-itoa_before :
    (fuel n : ℕ) (s : String) → n < fuel → atoi_from 0 (itoa_before fuel n s) ≡ atoi_from n s
unfolding itoa_before atoi_from
atoi_from-itoa_before zero n s h = absurd (omega arith)
atoi_from-itoa_before (suc fuel) n s h = elim (Bool-cases (ltb n 10)) [
  | inl q ↦ rw q (ap (λ k. atoi_from k s) omega (arith, code-digit (n % 10), ltb→lt n 10 q))
  | inr q ↦ rw q (
      atoi_from-itoa_before fuel (n / 10) _ ground (arith, q)
      ∙ ap (λ k. atoi_from k s) omega (arith, code-digit (n % 10)))
]

pub itoa-injective : (m n : ℕ) → itoa m ≡ itoa n → m ≡ n
unfolding itoa atoi_from
itoa-injective m n e =
    sym (atoi_from-itoa_before (suc m) m String.[] (omega arith))
    ∙ ap (atoi_from 0) e
    ∙ atoi_from-itoa_before (suc n) n String.[] (omega arith)

-- strings.Contains for a text of one character, given by its code.
unfoldable pub contains : ℕ → String → Bool
contains k String.[] = false
contains k (String.◌∷◌ c s) = code c == k || contains k s

contains-itoa_before :
    (k fuel n : ℕ) (s : String) → k < 48 → contains k (itoa_before fuel n s) ≡ contains k s
unfolding itoa_before contains
contains-itoa_before k zero n s h = refl
contains-itoa_before k (suc fuel) n s h = ground (
  arith,
  code-digit (n % 10),
  contains-itoa_before k fuel (n / 10) (String.◌∷◌ (digit (n % 10)) s) h,
)

pub contains-itoa : (k n : ℕ) → k < 48 → contains k (itoa n) ≡ false
unfolding itoa contains
contains-itoa k n h = contains-itoa_before k (suc n) n String.[] h

pub contains-append :
    (k : ℕ) (s t : String) → contains k (String.◌++◌ s t) ≡ (contains k s || contains k t)
unfolding contains
contains-append k String.[] t = rw (append.nil t) refl
contains-append k (String.◌∷◌ c s) t = rw (append.cons c s t) ground (arith, contains-append k s t)
