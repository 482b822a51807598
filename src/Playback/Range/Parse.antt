-- ===== src/Playback/Range/Parse.antt =====
-- playback.rs: what a well-formed Range header means.
use lite_nvr.Common.{
  ℕ, Bool, true, false, Option, none, some, List, [], ◌∷◌, ◌++◌, ◌≡◌, ◌-◌, ◌<◌, ◌^◌, ◌&&◌, ◌||◌,
  min, reverse, refl, ap, ◌∙◌, ltb, leb, if◌then◌else◌, ◌==◌, nat_eq, arith,
}
use mathlib.Core.List.{reverse-cons, reverse-reverse}
use lite_nvr.Common.Digits.{is_digit, all_digits, decimal}
use lite_nvr.Common.Text.{codes}
use lite_nvr.Playback.Range.{
  parse_range_header, after_prefix, split_range, range_of, suffix_range, open_range, closed_range,
  strip_prefix, split_dash, trim, trim_start, is_space, parse_usize, digits_usize, before_dash,
}

-- The digits of a number of at least one digit that fits usize.
pub record IsNumber (s : List ℕ) : Type 0 where
  pub digits : all_digits s ≡ true
  pub not_empty : s ≡ [] → ⊥
  pub fits : decimal 0 s < 2 ^ 64

all_digits-append :
    (s t : List ℕ) → all_digits s ≡ true → all_digits t ≡ true → all_digits (s ++ t) ≡ true
unfolding all_digits
all_digits-append [] t h k = k
all_digits-append (b ∷ s) t h k = ground (arith, all_digits-append s t)

all_digits-reverse : (s : List ℕ) → all_digits s ≡ true → all_digits (reverse s) ≡ true
unfolding all_digits
all_digits-reverse [] h = refl
all_digits-reverse (b ∷ s) h =
    rw (reverse-cons b s)
      (all_digits-append (reverse s) (b ∷ []) (all_digits-reverse s (tail _ _ h)) (head _ _ h))
  where
    head : (p q : Bool) → (p && q) ≡ true → (p && true) ≡ true
    head true q h = refl
    head false q h = h

    tail : (p q : Bool) → (p && q) ≡ true → q ≡ true
    tail true q h = h
    tail false q h = cc

trim_start-digits : (s : List ℕ) → all_digits s ≡ true → trim_start s ≡ s
unfolding trim_start all_digits is_space is_digit
trim_start-digits [] h = refl
trim_start-digits (b ∷ s) h = ground arith

split_dash-digits :
    (s e : List ℕ) → all_digits s ≡ true → split_dash (s ++ (b'-' ∷ e)) ≡ some (s, e)
unfolding split_dash all_digits is_digit before_dash
split_dash-digits [] e h = refl
split_dash-digits (b ∷ s) e h = ground (arith, split_dash-digits s e)

digits-number : (s : List ℕ) → IsNumber s → parse_usize s ≡ some (decimal 0 s)
unfolding parse_usize all_digits is_digit digits_usize
digits-number [] h = absurd (h.not_empty refl)
digits-number (b ∷ s) h = ground (arith, h.digits, h.fits)

empty : all_digits [] ≡ true
unfolding all_digits
empty = refl

trim-digits : (s : List ℕ) → all_digits s ≡ true → trim s ≡ s
unfolding trim
trim-digits s h =
    ap (λ (l : List ℕ). reverse (trim_start (reverse l))) (trim_start-digits s h)
    ∙ ap (λ (l : List ℕ). reverse l) (trim_start-digits (reverse s) (all_digits-reverse s h))
    ∙ reverse-reverse s

-- The header with this after its `=`.
abbrev pub bytes_of : List ℕ → List ℕ
bytes_of r = codes "bytes=" ++ r

parsed :
    (s e : List ℕ) (n : ℕ)
    → all_digits s ≡ true
    → all_digits e ≡ true
    → parse_range_header (bytes_of (s ++ (b'-' ∷ e))) n ≡ (if n == 0 then none else range_of n s e)
unfolding parse_range_header
parsed s e n hs he = ap (λ (r : Option (ℕ × ℕ)). if n == 0 then none else r) inner
  where
    inner :
        after_prefix n (strip_prefix (codes "bytes=") (bytes_of (s ++ (b'-' ∷ e)))) ≡ range_of n s e
    inner =
        ap (split_range n) (split_dash-digits s e hs)
        ∙ (λ i. range_of n (trim-digits s hs i) (trim-digits e he i))

of_numbers :
    (s e : List ℕ) (n : ℕ)
    → IsNumber s
    → IsNumber e
    → range_of n s e ≡ closed_range n (some (decimal 0 s)) (some (decimal 0 e))
unfolding range_of
of_numbers [] e n hs he = absurd (hs.not_empty refl)
of_numbers (b ∷ s) [] n hs he = absurd (he.not_empty refl)
of_numbers (b ∷ s) (c ∷ e) n hs he =
    λ i. closed_range n (digits-number (b ∷ s) hs i) (digits-number (c ∷ e) he i)

from_number :
    (s : List ℕ) (n : ℕ) → IsNumber s → range_of n s [] ≡ open_range n (some (decimal 0 s))
unfolding range_of
from_number [] n h = absurd (h.not_empty refl)
from_number (b ∷ s) n h = ap (open_range n) (digits-number (b ∷ s) h)

last_number :
    (e : List ℕ) (n : ℕ) → IsNumber e → range_of n [] e ≡ suffix_range n (some (decimal 0 e))
unfolding range_of
last_number [] n h = absurd (h.not_empty refl)
last_number (b ∷ e) n h = ap (suffix_range n) (digits-number (b ∷ e) h)

-- From two numbers a and b of digits, both below 2^64: `bytes=a-b` is the range from a to b, or to the last byte if b lies past
-- it; it cannot be had if b is before a, or if a is no byte of the file. `bytes=a-` is the range from
-- a to the last byte, and cannot be had if a is no byte of the file. `bytes=-b` is the last b bytes, or
-- all if there are no more, and cannot be had if b is 0 or the file is empty.
pub parse_range_header_lem :
    (s e : List ℕ) (n : ℕ)
    → IsNumber s
    → IsNumber e
    → (parse_range_header (bytes_of (s ++ (b'-' ∷ e))) n ≡ (
        if ltb (decimal 0 e) (decimal 0 s) || leb n (decimal 0 s)
        then none
        else some (decimal 0 s, min (decimal 0 e) (n - 1))))
      × (parse_range_header (bytes_of (s ++ (b'-' ∷ []))) n
          ≡ (if leb n (decimal 0 s) then none else some (decimal 0 s, n - 1)))
      × (parse_range_header (bytes_of (b'-' ∷ e)) n
          ≡ (if decimal 0 e == 0 || n == 0 then none else some (n - decimal 0 e, n - 1)))
unfolding closed_range open_range suffix_range
parse_range_header_lem s e n hs he = (
  parsed s e n hs.digits he.digits
      ∙ ap (λ (r : Option (ℕ × ℕ)). if n == 0 then none else r) (of_numbers s e n hs he)
      ∙ ground arith,
  parsed s [] n hs.digits empty
      ∙ ap (λ (r : Option (ℕ × ℕ)). if n == 0 then none else r) (from_number s n hs)
      ∙ ground arith,
  parsed [] e n empty he.digits
      ∙ ap (λ (r : Option (ℕ × ℕ)). if n == 0 then none else r) (last_number e n he)
      ∙ ground arith,
)
