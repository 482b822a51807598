-- ===== src/Gb/Ssrc/Unique.antt =====
use lite_nvr.Common.{
  subst, sym, suc, nat_eq, inl, inr, ◌≢◌, Bool-cases, ap, ◌&&◌, All, refl, ◌==◌, ◌∙◌, none, ◌≤◌,
  if◌then◌else◌, length-append, [], ◌++◌, ◌*◌, ◌∷◌, ◌<◌, true, drop, take, some, nat_beq_iff, ◌≡◌,
  ◌-◌, arith,
}
use lite_nvr.Common.Digits.{is_digit, decimal, all_digits, four_digits, parse_u32}
use lite_nvr.Gb.Ssrc.{
  live, playback, head_digit, ℕ, ◌%◌, List, length, ◌+◌, next, SsrcGenerator, new, SsrcKind,
}

-- The values of the generator: no panic, ten digits, and no value twice in a window of calls.

-- What `new` gives and `next` keeps.
pub record IsGenerator (g : SsrcGenerator) : Type 0 where
  pub middle : length g.domain5 ≡ 5
  pub digits : all_digits g.domain5 ≡ true
  pub fits : g.seq < 0x1_0000

abbrev zeros : List ℕ
zeros = b'0' ∷ b'0' ∷ b'0' ∷ b'0' ∷ b'0' ∷ []

middle_or_zeros :
    (part : List ℕ)
    → let m = if length part == 5 && all_digits part then part else zeros in
      (length m ≡ 5) × (all_digits m ≡ true)
unfolding all_digits
middle_or_zeros part = elim (Bool-cases (length part == 5)) [
  | inr e ↦ rw e (refl, refl)
  | inl e ↦ elim (Bool-cases (all_digits part)) [
    | inr k ↦ rw (e, k) (refl, refl)
    | inl k ↦ rw (e, k) ((nat_beq_iff (length part) 5).0 e, k)
  ]
]

pub new-IsGenerator : (platform_id : List ℕ) → IsGenerator (new platform_id)
unfolding new
new-IsGenerator p =
    let back = middle_or_zeros (take 5 (drop 3 p)) in
    record { middle = back.0; digits = back.1; fits = omega arith }

-- The number of a kind, a middle and a counter.
abbrev pub ssrc_value : SsrcKind → List ℕ → ℕ → ℕ
ssrc_value kind domain5 seq =
    (head_digit kind - b'0') * 1_000_000_000 + decimal 0 domain5 * 10_000 + seq % 10000

all_digits-append :
    (xs ys : List ℕ) → all_digits xs ≡ true → all_digits ys ≡ true → all_digits (xs ++ ys) ≡ true
unfolding all_digits
all_digits-append [] ys h k = k
all_digits-append (x ∷ xs) ys h k = ground (arith, all_digits-append xs ys)

decimal-append : (acc : ℕ) (xs ys : List ℕ) → decimal acc (xs ++ ys) ≡ decimal (decimal acc xs) ys
unfolding decimal
decimal-append acc [] ys = refl
decimal-append acc (x ∷ xs) ys = decimal-append (acc * 10 + (x - b'0')) xs ys

four_digits_all : (q : ℕ) → all_digits (four_digits q) ≡ true
unfolding four_digits all_digits is_digit
four_digits_all q = ground arith

decimal-four_digits : (acc q : ℕ) → q < 10000 → decimal acc (four_digits q) ≡ acc * 10000 + q
unfolding four_digits decimal
decimal-four_digits acc q h = omega arith

digit_le : (a : ℕ) → is_digit a ≡ true → a - b'0' ≤ 9
unfolding is_digit
digit_le a h = ground arith

decimal_five :
    (acc : ℕ) (ds : List ℕ)
    → length ds ≡ 5
    → all_digits ds ≡ true
    → (decimal acc ds ≡ acc * 100_000 + decimal 0 ds) × (decimal 0 ds < 100_000)
unfolding decimal all_digits
decimal_five acc (a ∷ b ∷ c ∷ d ∷ e ∷ []) l g =
    let (ga, gb, gc, gd, ge) = five_digits a b c d e g in
    (
      omega arith,
      omega (arith, digit_le a ga, digit_le b gb, digit_le c gc, digit_le d gd, digit_le e ge),
    )
  where
    five_digits :
        (a b c d e : ℕ)
        → all_digits (a ∷ b ∷ c ∷ d ∷ e ∷ []) ≡ true
        → (is_digit a ≡ true)
          × (is_digit b ≡ true)
          × (is_digit c ≡ true)
          × (is_digit d ≡ true)
          × (is_digit e ≡ true)
    five_digits a b c d e g = ground arith
decimal_five acc [] l g = absurd (omega arith)
decimal_five acc (a ∷ []) l g = absurd (omega arith)
decimal_five acc (a ∷ b ∷ []) l g = absurd (omega arith)
decimal_five acc (a ∷ b ∷ c ∷ []) l g = absurd (omega arith)
decimal_five acc (a ∷ b ∷ c ∷ d ∷ []) l g = absurd (omega arith)
decimal_five acc (a ∷ b ∷ c ∷ d ∷ e ∷ f ∷ r) l g = absurd (omega arith)

module _ (ds : List ℕ) (q : ℕ) (l : length ds ≡ 5) (g : all_digits ds ≡ true) where
  abbrev digits_of : SsrcKind → List ℕ
  digits_of kind = head_digit kind ∷ (ds ++ four_digits (q % 10000))

  ssrc_digits : (kind : SsrcKind) → all_digits (digits_of kind) ≡ true
  unfolding all_digits is_digit
  ssrc_digits live = all_digits-append ds (four_digits (q % 10000)) g (four_digits_all (q % 10000))
  ssrc_digits playback =
      all_digits-append ds (four_digits (q % 10000)) g (four_digits_all (q % 10000))

  ssrc_tail :
      (h : ℕ)
      → decimal h (ds ++ four_digits (q % 10000))
        ≡ h * 1_000_000_000 + decimal 0 ds * 10_000 + q % 10000
  ssrc_tail h = omega (
    arith,
    decimal-append h ds (four_digits (q % 10000)),
    decimal-four_digits (decimal h ds) (q % 10000) (omega arith),
    (decimal_five h ds l g).0,
  )

  ssrc_decimal : (kind : SsrcKind) → decimal 0 (digits_of kind) ≡ ssrc_value kind ds q
  unfolding decimal
  ssrc_decimal live = ssrc_tail 0
  ssrc_decimal playback = ssrc_tail 1

  ssrc_fits : (kind : SsrcKind) → ssrc_value kind ds q < 0x1_0000_0000
  ssrc_fits live = omega (arith, (decimal_five 0 ds l g).1)
  ssrc_fits playback = omega (arith, (decimal_five 0 ds l g).1)

  ssrc_length : (kind : SsrcKind) → length (digits_of kind) ≡ 10
  unfolding four_digits
  ssrc_length kind = omega (arith, length-append ds (four_digits (q % 10000)))

  ssrc_parsed : (kind : SsrcKind) → parse_u32 (digits_of kind) ≡ some (ssrc_value kind ds q)
  unfolding parse_u32
  ssrc_parsed kind = ground (arith, ssrc_digits kind, ssrc_decimal kind, ssrc_fits kind)

-- `next` does not panic on such a generator. It gives a string of ten digits, whose first tells the
-- kind, and the number that the string denotes, below 2^32; the counter goes up by one and wraps.
pub next_lem :
    (g : SsrcGenerator) (kind : SsrcKind)
    → IsGenerator g
    → let n = ssrc_value kind g.domain5 g.seq in
      let g' = record g { seq = (g.seq + 1) % 0x1_0000 } in
      (s : List ℕ) × (next g kind ≡ some ((n, s), g'))
      × (length s ≡ 10)
      × (all_digits s ≡ true)
      × (parse_u32 s ≡ some n)
      × (n < 0x1_0000_0000)
      × IsGenerator g'
unfolding next
next_lem g kind h =
    let d = g.domain5 in
    let q = g.seq in
    let parsed = ssrc_parsed d q h.middle h.digits kind in
    (
      head_digit kind ∷ (d ++ four_digits (q % 10000)),
      ap
          (λ o. elim o [
            | none ↦ none
            | some n ↦ some (
              (n, head_digit kind ∷ (d ++ four_digits (q % 10000))),
              record g { seq = (q + 1) % 0x1_0000 },
            )
          ])
          parsed,
      ssrc_length d q h.middle h.digits kind,
      ssrc_digits d q h.middle h.digits kind,
      parsed,
      ssrc_fits d q h.middle h.digits kind,
      record { middle = h.middle; digits = h.digits; fits = omega arith },
    )

-- The numbers of the calls of `next` for these kinds, one after the other; it ends at a panic.
pub issue : SsrcGenerator → List SsrcKind → List ℕ
issue g [] = []
issue g (k ∷ ks) = elim (next g k) [ none ↦ [] | some r ↦ r.0.0 ∷ issue r.1 ks ]

-- No member twice.
abbrev pub Distinct : List ℕ → Type 0
Distinct [] = Unit
Distinct (x ∷ xs) = All (λ y. x ≢ y) xs × Distinct xs

issue_step :
    (g : SsrcGenerator) (k : SsrcKind) (ks : List SsrcKind)
    → IsGenerator g
    → let g' = record g { seq = (g.seq + 1) % 0x1_0000 } in
      (issue g (k ∷ ks) ≡ ssrc_value k g.domain5 g.seq ∷ issue g' ks) × IsGenerator g'
unfolding issue
issue_step g k ks h =
    let n = next_lem g k h in
    (ap (λ o. elim o [ none ↦ [] | some r ↦ r.0.0 ∷ issue r.1 ks ]) n.1, n.6)

apart :
    (k j : SsrcKind) (ds : List ℕ) (q i : ℕ)
    → q < 0x1_0000
    → i < 5535
    → ssrc_value k ds q ≢ ssrc_value j ds ((q + 1 + i) % 0x1_0000)
apart live live ds q i h l e = omega arith
apart live playback ds q i h l e = omega arith
apart playback live ds q i h l e = omega arith
apart playback playback ds q i h l e = omega arith

issue_apart :
    (g : SsrcGenerator) (k : SsrcKind) (ks : List SsrcKind) (q i : ℕ)
    → IsGenerator g
    → g.seq ≡ (q + 1 + i) % 0x1_0000
    → q < 0x1_0000
    → i + length ks ≤ 5535
    → All (λ y. ssrc_value k g.domain5 q ≢ y) (issue g ks)
unfolding issue
issue_apart g k [] q i h e l b = tt
issue_apart g k (j ∷ ks) q i h e l b =
    let s = issue_step g j ks h in
    let g' = record g { seq = (g.seq + 1) % 0x1_0000 } in
    let here : ssrc_value k g.domain5 q ≢ ssrc_value j g.domain5 g.seq =
      λ w. apart k j g.domain5 q i l (omega (arith, b)) (w ∙ ap (ssrc_value j g.domain5) e) in
    let rest = issue_apart g' k ks q (i + 1) s.1 (omega (arith, e)) l (omega (arith, b)) in
    subst (All (λ y. ssrc_value k g.domain5 q ≢ y)) (sym s.0) (here, rest)

-- In any 5536 calls in a row, of either kind, a generator gives no number twice.
pub issue-Distinct :
    (g : SsrcGenerator) (ks : List SsrcKind)
    → IsGenerator g
    → length ks ≤ 5536
    → Distinct (issue g ks) × (length (issue g ks) ≡ length ks)
unfolding issue
issue-Distinct g [] h b = (tt, refl)
issue-Distinct g (k ∷ ks) h b =
    let s = issue_step g k ks h in
    let g' = record g { seq = (g.seq + 1) % 0x1_0000 } in
    let rest = issue-Distinct g' ks s.1 (omega (arith, b)) in
    let far = issue_apart g' k ks g.seq 0 s.1 (omega arith) h.fits (omega (arith, b)) in
    (subst Distinct (sym s.0) (far, rest.0), ap length s.0 ∙ ap suc rest.1)
