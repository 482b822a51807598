-- ===== src/Cs2/Channel/Decode.antt =====
-- The records of a byte stream are determined by its bytes.
use lite_nvr.Common.{
  ℕ, suc, ◌+◌, ◌^◌, ◌≤◌, ◌<◌, ◌≡◌, ◌≢◌, refl, sym, ap, ◌∙◌, inl, inr, List, [], ◌∷◌, ◌++◌,
  append_assoc, arith, ◌==◌, nat_eq, length, All, length-append, Bool-cases,
}
use lite_nvr.Common.Bytes.{be32, from_be32, from_be32-be32}
use lite_nvr.Cs2.Channel.{DataChannel}
use lite_nvr.Cs2.Channel.Stream.{stream, pending, IsSane, IsResting}

pub append_split :
    (xs us ys vs : List ℕ) → length xs ≡ length us → xs ++ ys ≡ us ++ vs → (xs ≡ us) × (ys ≡ vs)
append_split [] [] ys vs h e = (refl, e)
append_split [] (u ∷ us) ys vs h e = absurd (omega arith)
append_split (x ∷ xs) [] ys vs h e = absurd (omega arith)
append_split (x ∷ xs) (u ∷ us) ys vs h e =
    let rest = append_split xs us ys vs (omega arith) (cc) in (cc rest.0, rest.1)

pub be32_split :
    (m n : ℕ) (ys vs : List ℕ)
    → m < 2 ^ 32
    → n < 2 ^ 32
    → be32 m ++ ys ≡ be32 n ++ vs
    → (m ≡ n) × (ys ≡ vs)
be32_split m n ys vs p q e =
    let parts = append_split (be32 m) (be32 n) ys vs refl e in
    (sym (from_be32-be32 m p) ∙ ap value parts.0 ∙ from_be32-be32 n q, parts.1)
  where
    value : List ℕ → ℕ
    value (a ∷ b ∷ c ∷ d ∷ r) = from_be32 a b c d
    value _ = 0

-- Records that no chunk boundary can hold back.
abbrev pub IsLong : List ℕ → Type 0
IsLong r = (4 < length r) × (length r < 2 ^ 32)

length-stream : (r : List ℕ) (rs : List (List ℕ)) → length r + 4 ≤ length (stream (r ∷ rs))
unfolding stream
length-stream r rs = omega (arith, length-append r (stream rs))

-- A resting channel holds no whole record, so what is pending is not the start of a whole one.
pub resting_incomplete :
    (c : DataChannel) (r rest : List ℕ)
    → IsSane c
    → IsResting c
    → IsLong r
    → pending c ≢ be32 (length r) ++ (r ++ rest)
resting_incomplete c r rest v i k e = elim (Bool-cases (c.wait_size == 0)) [
  | inl z ↦ empty_size (rw z at e) (ground arith)
  | inr nz ↦
      some_size (be32_split c.wait_size (length r) c.wait_data (r ++ rest) v.size k.1 (rw nz at e))
]
  where
    empty_size : c.wait_data ≡ be32 (length r) ++ (r ++ rest) → c.wait_size ≡ 0 → ⊥
    empty_size h z = omega (arith, ap length h, length-append r rest)

    some_size : (c.wait_size ≡ length r) × (c.wait_data ≡ r ++ rest) → ⊥
    some_size (s, h) = omega (arith, ap length h, length-append r rest)

pub stream_unique :
    (ds rs : List (List ℕ)) (c : DataChannel)
    → All (λ d. length d < 2 ^ 32) ds
    → All IsLong rs
    → IsSane c
    → IsResting c
    → stream ds ++ pending c ≡ stream rs
    → (ds ≡ rs) × (pending c ≡ [])
unfolding stream
stream_unique [] [] c s k v i e = (refl, e)
stream_unique (d ∷ ds) [] c s k v i e = absurd (omega (arith, ap length e))
stream_unique [] (r ∷ rs) c s k v i e = absurd (resting_incomplete c r (stream rs) v i k.0 e)
stream_unique (d ∷ ds) (r ∷ rs) c s k v i e =
    both (λ g. stream_unique ds rs c s.1 k.1 v i g)
      (be32_split (length d) (length r) (d ++ (stream ds ++ pending c)) (r ++ stream rs) s.0 k.0.1 (
        ap (λ (x : List ℕ). be32 (length d) ++ x) (sym (append_assoc d (stream ds) (pending c)))
        ∙ e))
  where
    both :
        (stream ds ++ pending c ≡ stream rs → (ds ≡ rs) × (pending c ≡ []))
        → (length d ≡ length r) × (d ++ (stream ds ++ pending c) ≡ r ++ stream rs)
        → (d ∷ ds ≡ r ∷ rs) × (pending c ≡ [])
    both ih (h, g) =
        let split = append_split d r (stream ds ++ pending c) (stream rs) h g in
        let rest = ih split.1 in (cc (split.0, rest.0), rest.1)

-- A failing record stands among those of the stream.
pub stream_longer :
    (ds rs : List (List ℕ)) (x t : List ℕ)
    → All (λ d. length d < 2 ^ 32) ds
    → All IsLong rs
    → stream ds ++ (be32 (length x) ++ (x ++ t)) ≡ stream rs
    → length ds < length rs
unfolding stream
stream_longer [] [] x t s k e = absurd (omega (arith, ap length e))
stream_longer [] (r ∷ rs) x t s k e = omega arith
stream_longer (d ∷ ds) [] x t s k e = absurd (omega (arith, ap length e))
stream_longer (d ∷ ds) (r ∷ rs) x t s k e =
    both (λ g. stream_longer ds rs x t s.1 k.1 g)
      (be32_split (length d) (length r) (d ++ (stream ds ++ _)) (r ++ stream rs) s.0 k.0.1
        (ap (λ (y : List ℕ). be32 (length d) ++ y) (sym (append_assoc d (stream ds) _)) ∙ e))
  where
    both :
        (stream ds ++ (be32 (length x) ++ (x ++ t)) ≡ stream rs → length ds < length rs)
        → (length d ≡ length r)
          × (d ++ (stream ds ++ (be32 (length x) ++ (x ++ t))) ≡ r ++ stream rs)
        → suc (length ds) < suc (length rs)
    both ih (h, g) = omega (arith, ih (append_split d r _ (stream rs) h g).1)
