-- ===== src/Common/Dict.antt =====
-- A hash map as an association list. The list's order stands for the map's unspecified order.
use lite_nvr.Common.{inr, ◌∙◌, sym, ap, inl, Bool-cases, ◌+◌, ℕ}
use lite_nvr.Common.Tests.{MapKey, ◌==◌, if◌then◌else◌}
use lite_nvr.Common.Lists.{length}
use Prim.Native.Nat.{◌≤◌, ◌<◌}
use mathlib.Core.Path.{◌≡◌, refl}
use mathlib.Core.Bool.{Bool, true, false}
use mathlib.Core.Option.{Option, none, some}
use mathlib.Core.List.{List, [], ◌∷◌}
use native.Mathlib.Omega.{arith}

abbrev pub Dict {ℓ κ} : Type ℓ → Type κ → Type (ℓ ⊔ κ)
Dict K V = List (K × V)

abbrev pub is_some {κ} : {V : Type κ} → Option V → Bool
is_some none = false
is_some (some v) = true

abbrev pub weight_at {κ} : {V : Type κ} → (V → ℕ) → Option V → ℕ
weight_at f none = 0
weight_at f (some v) = f v

module _ {ℓ κ} {K : Type ℓ} {V : Type κ} ⦃key : MapKey K⦄ where
  unfoldable pub lookup : K → Dict K V → Option V
  lookup k [] = none
  lookup k ((found, v) ∷ rest) = if found == k then some v else lookup k rest

  unfoldable pub remove : K → Dict K V → Dict K V
  remove k [] = []
  remove k ((j, v) ∷ m) = if j == k then remove k m else (j, v) ∷ remove k m

  unfoldable pub insert : K → V → Dict K V → Dict K V
  insert k v m = (k, v) ∷ remove k m

  unfoldable pub contains_key : K → Dict K V → Bool
  contains_key k m = elim (lookup k m) [ none ↦ false | some v ↦ true ]

  pub lookup-remove :
      (j k : K) (m : Dict K V) → lookup j (remove k m) ≡ (if k == j then none else lookup j m)
  unfolding lookup remove
  lookup-remove j k [] = ground arith
  lookup-remove j k ((i, v) ∷ m) = ground (
    arith,
    lookup-remove j k m,
    key.hits_iff k j,
    key.hits_iff i k,
    key.hits_iff i j,
    key.hits_iff j k,
  )

  pub lookup-insert :
      (j k : K) (v : V) (m : Dict K V)
      → lookup j (insert k v m) ≡ (if k == j then some v else lookup j m)
  unfolding lookup insert
  lookup-insert j k v m = ground (arith, lookup-remove j k m)

  pub contains-lookup : (j : K) (m : Dict K V) → contains_key j m ≡ is_some (lookup j m)
  unfolding contains_key
  contains-lookup j m = at (lookup j m)
    where
      at : (o : Option V) → elim o as (λ _. Bool) [ none ↦ false | some x ↦ true ] ≡ is_some o
      at none = refl
      at (some x) = refl

  pub contains-insert :
      (j k : K) (v : V) (m : Dict K V)
      → contains_key j (insert k v m) ≡ (if k == j then true else contains_key j m)
  contains-insert j k v m =
      contains-lookup j (insert k v m) ∙ (ap is_some (lookup-insert j k v m) ∙ at (k == j))
    where
      at :
          (b : Bool)
          → is_some (if b then some v else lookup j m) ≡ (if b then true else contains_key j m)
      at true = refl
      at false = sym (contains-lookup j m)

  pub length-remove-le : (k : K) (m : Dict K V) → length (remove k m) ≤ length m
  unfolding remove
  length-remove-le k [] = omega arith
  length-remove-le k ((j, v) ∷ m) = ground (arith, length-remove-le k m)

  pub length-remove-lt :
      (k : K) (v : V) (m : Dict K V) → lookup k m ≡ some v → length (remove k m) < length m
  unfolding lookup remove
  length-remove-lt k v [] h = cc
  length-remove-lt k v ((j, w) ∷ m) h = ground (arith, length-remove-le k m, length-remove-lt k v m)

  pub remove_absent : (k : K) (m : Dict K V) → lookup k m ≡ none → remove k m ≡ m
  unfolding lookup remove
  remove_absent k [] h = refl
  remove_absent k ((j, v) ∷ m) h = ground (arith, remove_absent k m)

  -- An entry put in front if there is one.
  unfoldable pub put_front : K → Option V → Dict K V → Dict K V
  put_front k none m = m
  put_front k (some v) m = (k, v) ∷ m

  pub lookup-put_front :
      (j k : K) (o : Option V) (m : Dict K V)
      → lookup k m ≡ none
      → lookup j (put_front k o m) ≡ (if k == j then o else lookup j m)
  unfolding put_front lookup
  lookup-put_front j k none m h = ground (arith, key.hits_iff k j)
  lookup-put_front j k (some v) m h = refl

  -- No key twice.
  abbrev pub UniqueKeys : Dict K V → Type κ
  UniqueKeys [] = Unit {κ}
  UniqueKeys ((k, v) ∷ m) = (lookup k m ≡ none) × UniqueKeys m

  pub remove-UniqueKeys : (k : K) (m : Dict K V) → UniqueKeys m → UniqueKeys (remove k m)
  unfolding remove
  remove-UniqueKeys k [] u = u
  remove-UniqueKeys k ((j, v) ∷ m) u =
      elim (j == k) as (λ b. UniqueKeys (if b then remove k m else (j, v) ∷ remove k m)) [
        | true ↦ remove-UniqueKeys k m u.1
        | false ↦ (ground (arith, lookup-remove j k m, u.0), remove-UniqueKeys k m u.1)
      ]

  pub insert-UniqueKeys : (k : K) (v : V) (m : Dict K V) → UniqueKeys m → UniqueKeys (insert k v m)
  unfolding insert
  insert-UniqueKeys k v m u =
      (ground (arith, lookup-remove k k m, key.hits_iff k k), remove-UniqueKeys k m u)

  pub put_front-UniqueKeys :
      (k : K) (o : Option V) (m : Dict K V)
      → lookup k m ≡ none
      → UniqueKeys m
      → UniqueKeys (put_front k o m)
  unfolding put_front
  put_front-UniqueKeys k none m h u = u
  put_front-UniqueKeys k (some v) m h u = (h, u)

  -- The sum of `f` over the values.
  abbrev pub weight : (V → ℕ) → Dict K V → ℕ
  weight f [] = 0
  weight f ((k, v) ∷ m) = f v + weight f m

  pub weight-remove :
      (f : V → ℕ) (k : K) (m : Dict K V)
      → UniqueKeys m
      → weight f (remove k m) + weight_at f (lookup k m) ≡ weight f m
  unfolding remove lookup
  weight-remove f k [] u = omega arith
  weight-remove f k ((j, v) ∷ m) u = elim (Bool-cases (j == k)) [
    | inl e ↦
        let here : lookup k m ≡ none = ap (λ i. lookup i m) (sym ((key.hits_iff j k).0 e)) ∙ u.0 in
        rw e (ground (arith, weight-remove f k m u.1, here))
    | inr e ↦ rw e (omega (arith, weight-remove f k m u.1))
  ]

  pub weight-insert :
      (f : V → ℕ) (k : K) (v : V) (m : Dict K V)
      → UniqueKeys m
      → weight f (insert k v m) + weight_at f (lookup k m) ≡ f v + weight f m
  unfolding insert
  weight-insert f k v m u = omega (arith, weight-remove f k m u)

  -- `retain`.
  unfoldable pub keep_where : (K → V → Bool) → Dict K V → Dict K V
  keep_where p [] = []
  keep_where p ((k, v) ∷ m) = let rest = keep_where p m in if p k v then (k, v) ∷ rest else rest

  unfoldable pub kept_if : (K → V → Bool) → K → Option V → Option V
  kept_if p k none = none
  kept_if p k (some v) = if p k v then some v else none

  pub lookup-keep_where :
      (p : K → V → Bool) (k : K) (m : Dict K V)
      → UniqueKeys m
      → lookup k (keep_where p m) ≡ kept_if p k (lookup k m)
  unfolding lookup keep_where kept_if
  lookup-keep_where p k [] u = refl
  lookup-keep_where p k ((j, v) ∷ m) u =
      let rest = lookup-keep_where p k m u.1 in
      elim (Bool-cases (j == k)) [
        | inr e ↦ elim (Bool-cases (p j v)) [ inl q ↦ rw (q, e) rest | inr q ↦ rw (q, e) rest ]
        | inl e ↦
            let same = (key.hits_iff j k).0 e in
            let absent : lookup k m ≡ none = ap (λ i. lookup i m) (sym same) ∙ u.0 in
            elim (Bool-cases (p j v)) [
              | inl q ↦
                  rw (q, e) (sym (ap (λ i. if p i v then some v else none) (sym same) ∙ rw q refl))
              | inr q ↦
                  rw (q, e)
                    (rest
                      ∙ ap (kept_if p k) absent
                      ∙ sym (ap (λ i. if p i v then some v else none) (sym same) ∙ rw q refl))
            ]
      ]

  pub keep_where-UniqueKeys :
      (p : K → V → Bool) (m : Dict K V) → UniqueKeys m → UniqueKeys (keep_where p m)
  unfolding keep_where kept_if
  keep_where-UniqueKeys p [] u = u
  keep_where-UniqueKeys p ((k, v) ∷ m) u =
      let rest = keep_where-UniqueKeys p m u.1 in
      elim (Bool-cases (p k v)) [
        | inl q ↦ rw q ((lookup-keep_where p k m u.1 ∙ ap (kept_if p k) u.0), rest)
        | inr q ↦ rw q rest
      ]
