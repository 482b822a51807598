-- ===== src/Gb/Sdp/Lines.antt =====
-- sdp.rs: lines, words and numbers come back as they were written.
use mathlib.Core.List.{reverse-cons, reverse-append, reverse-reverse}
use lite_nvr.Common.{
  ℕ, suc, Bool, true, false, some, List, [], ◌∷◌, ◌++◌, map, ◌≡◌, ◌≤◌, ◌<◌, ◌^◌, ◌-◌, ◌&&◌, reverse,
  All, All-append, refl, sym, ap, ◌∙◌, subst, ◌==◌, nat_eq, arith,
}
use lite_nvr.Common.Int.{ℤ, pos, negsuc, pos_part}
use lite_nvr.Common.Digits.{
  is_digit, all_digits, decimal, show, decimal-show, digits-show, show_not_empty,
}
use lite_nvr.Gb.Sdp.{pushed, show_ℤ}
use lite_nvr.Gb.Sdp.Reader.{
  lines, on_line, trim, trim_start, is_white, starts_white, words, word_on, parse_up_to,
  digits_up_to, or_zero,
}

abbrev pub IsDark : ℕ → Type 0
IsDark b = is_white b ≡ false

-- At least one byte, and no white space.
pub record IsWord (w : List ℕ) : Type 0 where
  pub dark : All IsDark w
  pub not_empty : starts_white w ≡ false

-- It neither starts nor ends with white space, and is one line.
pub record IsTrim (l : List ℕ) : Type 0 where
  pub front : starts_white l ≡ false
  pub back : starts_white (reverse l) ≡ false
  pub unbroken : All (λ b. (b == 10) ≡ false) l

abbrev pub with_cr : List ℕ → List ℕ
with_cr l = l ++ (13 ∷ [])

line_end :
    (l rest : List ℕ)
    → All (λ b. (b == 10) ≡ false) l
    → lines (l ++ (13 ∷ 10 ∷ rest)) ≡ with_cr l ∷ lines rest
unfolding lines on_line
line_end [] rest h = refl
line_end (b ∷ l) rest h = rw h.0 (ap (on_line b) (line_end l rest h.1))

pub lines-pushed : (ls : List (List ℕ)) → All IsTrim ls → lines (pushed ls) ≡ map with_cr ls
unfolding pushed lines
lines-pushed [] h = refl
lines-pushed (l ∷ ls) h =
    line_end l (pushed ls) h.0.unbroken ∙ ap (λ r. with_cr l ∷ r) (lines-pushed ls h.1)

trim_start-dark : (l : List ℕ) → starts_white l ≡ false → trim_start l ≡ l
unfolding trim_start starts_white
trim_start-dark [] h = cc
trim_start-dark (b ∷ l) h = rw h refl

pub front-append : (l r : List ℕ) → starts_white l ≡ false → starts_white (l ++ r) ≡ false
unfolding starts_white
front-append [] r h = cc
front-append (b ∷ l) r h = h

pub trim-with_cr : (l : List ℕ) → IsTrim l → trim (with_cr l) ≡ l
unfolding trim
trim-with_cr l h =
    ap (λ (x : List ℕ). reverse (trim_start (reverse x)))
      (trim_start-dark (with_cr l) (front-append l (13 ∷ []) h.front))
    ∙ ap (λ (x : List ℕ). reverse (trim_start x)) (reverse-append l (13 ∷ []))
    ∙ ap (λ (x : List ℕ). reverse x) (cr_off (reverse l) (trim_start-dark (reverse l) h.back))
    ∙ reverse-reverse l
  where
    cr_off : (x : List ℕ) → trim_start x ≡ x → trim_start (13 ∷ x) ≡ x
    cr_off x h = h

trim-dark : (l : List ℕ) → starts_white l ≡ false → starts_white (reverse l) ≡ false → trim l ≡ l
unfolding trim
trim-dark l h k =
    ap (λ (x : List ℕ). reverse (trim_start (reverse x))) (trim_start-dark l h)
    ∙ ap (λ (x : List ℕ). reverse x) (trim_start-dark (reverse l) k)
    ∙ reverse-reverse l

All-reverse : (P : ℕ → Type 0) (l : List ℕ) → All P l → All P (reverse l)
All-reverse P [] h = tt
All-reverse P (b ∷ l) h =
    subst (All P) (sym (reverse-cons b l))
      (All-append P (reverse l) (b ∷ []) (All-reverse P l h.1) (h.0, tt))

-- Text that ends with a word does not end with white space.
pub word_last : (l w : List ℕ) → IsWord w → starts_white (reverse (l ++ w)) ≡ false
unfolding starts_white
word_last l [] h = cc (h.not_empty)
word_last l (b ∷ w) h =
    ap starts_white (reverse-append l (b ∷ w))
    ∙ front-append (reverse (b ∷ w)) (reverse l)
        (ap starts_white (reverse-cons b w) ∙ at (reverse w) (All-reverse IsDark w h.dark.1))
  where
    at : (r : List ℕ) → All IsDark r → starts_white (r ++ (b ∷ [])) ≡ false
    at [] k = h.dark.0
    at (c ∷ r) k = k.0

pub trim-word : (w : List ℕ) → IsWord w → trim w ≡ w
trim-word w h = trim-dark w h.not_empty (word_last [] w h)

IsDark-unbroken : (b : ℕ) → IsDark b → (b == 10) ≡ false
unfolding is_white
IsDark-unbroken b h = ground arith

pub word_unbroken : (w : List ℕ) → All IsDark w → All (λ b. (b == 10) ≡ false) w
word_unbroken [] h = tt
word_unbroken (b ∷ w) h = (IsDark-unbroken b h.0, word_unbroken w h.1)

words-dark : (b : ℕ) (l : List ℕ) → IsDark b → words (b ∷ l) ≡ word_on b (starts_white l) (words l)
unfolding words
words-dark b l h = rw h refl

pub words-append : (w r : List ℕ) → IsWord w → words (w ++ (b' ' ∷ r)) ≡ w ∷ words r
unfolding words word_on starts_white
words-append [] r h = cc (h.not_empty)
words-append (b ∷ []) r h = rw (h.dark.0) refl
words-append (b ∷ c ∷ w) r h = words-dark b (c ∷ (w ++ (b' ' ∷ r))) h.dark.0 ∙ (λ i.
    word_on b (h.dark.1.0 i)
      (words-append (c ∷ w) r (record { dark = h.dark.1; not_empty = h.dark.1.0 }) i))

pub words-word : (w : List ℕ) → IsWord w → words w ≡ w ∷ []
unfolding words word_on starts_white
words-word [] h = cc (h.not_empty)
words-word (b ∷ []) h = rw (h.dark.0) refl
words-word (b ∷ c ∷ w) h = words-dark b (c ∷ w) h.dark.0 ∙ (λ i.
    word_on b (h.dark.1.0 i)
      (words-word (c ∷ w) (record { dark = h.dark.1; not_empty = h.dark.1.0 }) i))

digit-IsDark : (b : ℕ) → is_digit b ≡ true → IsDark b
unfolding is_digit is_white
digit-IsDark b h = ground arith

digits-IsDark : (w : List ℕ) → all_digits w ≡ true → All IsDark w
unfolding all_digits
digits-IsDark [] h = tt
digits-IsDark (b ∷ w) h =
    let (first, rest) = both (is_digit b) (all_digits w) h in
    (digit-IsDark b first, digits-IsDark w rest)
  where
    both : (x y : Bool) → (x && y) ≡ true → (x ≡ true) × (y ≡ true)
    both true y h = (refl, h)
    both false y h = cc

pub show-IsWord : (n : ℕ) → IsWord (show n)
unfolding starts_white
show-IsWord n =
    let dark = digits-IsDark (show n) (digits-show n) in
    record { dark = dark; not_empty = at (show n) dark (show_not_empty n) }
  where
    at : (w : List ℕ) → All IsDark w → (w ≡ [] → ⊥) → starts_white w ≡ false
    at [] h k = absurd (k refl)
    at (b ∷ w) h k = h.0

parse_digits :
    (most : ℕ) (w : List ℕ)
    → all_digits w ≡ true
    → (w ≡ [] → ⊥)
    → decimal 0 w ≤ most
    → parse_up_to most w ≡ some (decimal 0 w)
unfolding parse_up_to digits_up_to all_digits is_digit
parse_digits most [] h k l = absurd (k refl)
parse_digits most (b ∷ w) h k l = ground (arith, h, l)

pub parse-show : (most n : ℕ) → n ≤ most → parse_up_to most (show n) ≡ some n
parse-show most n h =
    parse_digits most (show n) (digits-show n) (show_not_empty n) (omega (arith, decimal-show n, h))
    ∙ ap some (decimal-show n)

pub show_ℤ-IsWord : (z : ℤ) → IsWord (show_ℤ z)
unfolding show_ℤ is_white starts_white
show_ℤ-IsWord (pos n) = show-IsWord n
show_ℤ-IsWord (negsuc n) = record { dark = (refl, (show-IsWord (suc n)).dark); not_empty = refl }

-- A time that is negative is read as 0.
pub parse-show_ℤ :
    (z : ℤ) → pos_part z < 2 ^ 64 → or_zero (parse_up_to (2 ^ 64 - 1) (show_ℤ z)) ≡ pos_part z
unfolding show_ℤ or_zero parse_up_to digits_up_to all_digits is_digit
parse-show_ℤ (pos n) h = ap or_zero (parse-show (2 ^ 64 - 1) n (omega (arith, h)))
parse-show_ℤ (negsuc n) h = refl
