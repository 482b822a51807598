-- ===== src/Common/Action.antt =====
-- A fallible method of an object: the state comes back after an error too, with what was written.
use lite_nvr.Common.{Result, ok, err, Option, none, some}

abbrev pub Action {ℓ κ μ} : Type ℓ → Type κ → Type μ → Type (ℓ ⊔ κ ⊔ μ)
Action S E A = S → Result E A × S

module _ {ℓ κ μ} {S : Type ℓ} {E : Type κ} {A : Type μ} where
  abbrev pub give : A → Action S E A
  give a s = (ok a, s)

  abbrev pub fail : E → Action S E A
  fail e s = (err e, s)

  abbrev pub ask : (S → A) → Action S E A
  ask f s = (ok (f s), s)

  -- `ok_or` and `?`.
  abbrev pub some_or : Option A → E → Action S E A
  some_or none e = fail e
  some_or (some a) e = give a

  abbrev pub lift : Result E A → Action S E A
  lift r s = (r, s)

abbrev pub and_then {ℓ κ μ ν} :
    {S : Type ℓ} {E : Type κ} {A : Type μ} {B : Type ν}
    → Result E A × S
    → (A → Action S E B)
    → Result E B × S
and_then (ok a, s) f = f a s
and_then (err e, s) f = (err e, s)

infixl 5 ◌>>=◌ ◌>>◌
abbrev pub ◌>>=◌ {ℓ κ μ ν} :
    {S : Type ℓ} {E : Type κ} {A : Type μ} {B : Type ν}
    → Action S E A
    → (A → Action S E B)
    → Action S E B
◌>>=◌ m f s = and_then (m s) f

abbrev pub ◌>>◌ {ℓ κ ν} :
    {S : Type ℓ} {E : Type κ} {B : Type ν} → Action S E (Unit {0}) → Action S E B → Action S E B
m >> k = m >>= λ _. k

module _ {ℓ κ} {S : Type ℓ} {E : Type κ} where
  abbrev pub write : (S → S) → Action S E (Unit {0})
  write f s = (ok tt, f s)

  abbrev pub done : Action S E (Unit {0})
  done s = (ok tt, s)
