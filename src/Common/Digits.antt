-- ===== src/Common/Digits.antt =====
-- Decimal and hexadecimal digits as bytes, and tables over small ranges.
use lite_nvr.Common.{◌∙◌, inr, inl, Bool-cases}
use lite_nvr.Common.Tests.{ltb, leb, nat_eq, if◌then◌else◌}
use Prim.Native.Nat.{ℕ, zero, suc, ◌+◌, ◌-◌, ◌*◌, ◌/◌, ◌%◌, ◌<◌}
use mathlib.Core.Path.{◌≡◌, refl, ap}
use mathlib.Core.Bool.{Bool, true, ◌&&◌}
use mathlib.Core.Option.{Option, none, some}
use mathlib.Core.List.{List, [], ◌∷◌}
use native.Mathlib.Omega.{arith}

-- Whether a test passes at every number below `n`.
unfoldable pub passes_below : ℕ → (ℕ → Bool) → Bool
passes_below zero test = true
passes_below (suc n) test = test n && passes_below n test

pub passes_below_at :
    (n : ℕ) (test : ℕ → Bool) (x : ℕ) → passes_below n test ≡ true → x < n → test x ≡ true
unfolding passes_below
passes_below_at zero test x h lt = absurd (omega arith)
passes_below_at (suc n) test x h lt = ground (arith, passes_below_at n test x)

unfoldable pub is_digit : ℕ → Bool
is_digit b = leb b'0' b && leb b b'9'

unfoldable pub all_digits : List ℕ → Bool
unfolding is_digit
all_digits [] = true
all_digits (b ∷ bs) = is_digit b && all_digits bs

-- `{:02X}` of a byte: two digits.
unfoldable pub hex_digit : ℕ → ℕ
hex_digit n = if ltb n 10 then b'0' + n else b'A' + (n - 10)

unfoldable pub hex_value : ℕ → Option ℕ
hex_value c =
    if leb b'0' c && leb c b'9'
    then some (c - b'0')
    else if leb b'A' c && leb c b'F'
    then some (c - b'A' + 10)
    else none

pub hex_value-hex_digit : (n : ℕ) → n < 16 → hex_value (hex_digit n) ≡ some n
unfolding hex_value hex_digit
hex_value-hex_digit n h = ground arith

-- `str::parse` into u32: decimal digits, at least one, and no overflow.
unfoldable pub decimal : ℕ → List ℕ → ℕ
decimal acc [] = acc
decimal acc (b ∷ bs) = decimal (acc * 10 + (b - b'0')) bs

unfoldable pub parse_u32 : List ℕ → Option ℕ
unfolding all_digits decimal
parse_u32 [] = none
parse_u32 (b ∷ bs) =
    if all_digits (b ∷ bs) && ltb (decimal 0 (b ∷ bs)) 0x1_0000_0000
    then some (decimal 0 (b ∷ bs))
    else none

-- `{:04}` of a number below 10000.
unfoldable pub four_digits : ℕ → List ℕ
four_digits n =
    (b'0' + n / 1000 % 10) ∷ (b'0' + n / 100 % 10) ∷ (b'0' + n / 10 % 10) ∷ (b'0' + n % 10) ∷ []

-- `{}` of a number, before some text. Each turn gives the last digit; there are fewer turns than the number.
unfoldable pub show_from : ℕ → ℕ → List ℕ → List ℕ
show_from zero n rest = rest
show_from (suc fuel) n rest =
    let more = show_from fuel (n / 10) ((b'0' + n % 10) ∷ rest) in
    if ltb n 10 then (b'0' + n) ∷ rest else more

unfoldable pub show : ℕ → List ℕ
unfolding show_from
show n = show_from (suc n) n []

decimal-show_from :
    (fuel n : ℕ) (rest : List ℕ) → n < fuel → decimal 0 (show_from fuel n rest) ≡ decimal n rest
unfolding decimal show_from
decimal-show_from zero n rest h = absurd (omega (arith, h))
decimal-show_from (suc fuel) n rest h = elim (Bool-cases (ltb n 10)) [
  | inl e ↦
      let one : 0 * 10 + (b'0' + n - b'0') ≡ n = omega arith in
      rw e (ap (λ (m : ℕ). decimal m rest) one)
  | inr e ↦
      let all : n / 10 * 10 + (b'0' + n % 10 - b'0') ≡ n = omega arith in
      let fewer : n / 10 < fuel = ground (arith, e, h) in
      rw e (
        decimal-show_from fuel (n / 10) ((b'0' + n % 10) ∷ rest) fewer
        ∙ ap (λ (m : ℕ). decimal m rest) all)
]

pub decimal-show : (n : ℕ) → decimal 0 (show n) ≡ n
unfolding show decimal
decimal-show n = decimal-show_from (suc n) n [] (omega arith)

digits-show_from :
    (fuel n : ℕ) (rest : List ℕ)
    → all_digits rest ≡ true
    → all_digits (show_from fuel n rest) ≡ true
unfolding all_digits show_from is_digit
digits-show_from zero n rest h = h
digits-show_from (suc fuel) n rest h = elim (Bool-cases (ltb n 10)) [
  | inl e ↦ rw e (ground (arith, e, h))
  | inr e ↦ rw e (digits-show_from fuel (n / 10) ((b'0' + n % 10) ∷ rest) (ground (arith, h)))
]

pub digits-show : (n : ℕ) → all_digits (show n) ≡ true
unfolding show all_digits
digits-show n = digits-show_from (suc n) n [] refl

unempty : (fuel n b : ℕ) (rest : List ℕ) → show_from fuel n (b ∷ rest) ≡ [] → ⊥
unfolding show_from
unempty zero n b rest h = cc
unempty (suc fuel) n b rest h = elim (Bool-cases (ltb n 10)) [
  | inl e ↦ absurd (no (rw e at h))
  | inr e ↦ unempty fuel (n / 10) (b'0' + n % 10) (b ∷ rest) (rw e at h)
]
  where
    no : ((b'0' + n) ∷ b ∷ rest) ≡ [] → ⊥
    no h = cc

pub show_not_empty : (n : ℕ) → show n ≡ [] → ⊥
unfolding show show_from
show_not_empty n h = elim (Bool-cases (ltb n 10)) [
  | inl e ↦ absurd (no (rw e at h))
  | inr e ↦ unempty n (n / 10) (b'0' + n % 10) [] (rw e at h)
]
  where
    no : ((b'0' + n) ∷ []) ≡ [] → ⊥
    no h = cc
