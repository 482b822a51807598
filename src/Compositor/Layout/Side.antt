-- ===== src/Compositor/Layout/Side.antt =====
-- layout.rs: the number of columns is the square root, rounded up, and the search for it has fuel enough.
use lite_nvr.Common.{
  nat_eq, ◌==◌, ℕ, zero, suc, ◌+◌, ◌*◌, ◌≤◌, ◌<◌, ◌≡◌, Bool-cases, inl, inr, leb, false, arith,
}
use lite_nvr.Compositor.Layout.{side_from, ceil_sqrt}

-- The first number whose square is at least n.
pub record IsRoot (n c : ℕ) : Type 0 where
  pub enough : n ≤ c * c
  pub least : (k : ℕ) → k < c → k * k < n

step : (c n : ℕ) → leb n (c * c) ≡ false → c * c < n
step c n h = ground arith

below_suc : (c n : ℕ) → ((k : ℕ) → k < c → k * k < n) → c * c < n → (k : ℕ) → k < c + 1 → k * k < n
below_suc c n least l k h = elim (Bool-cases (k == c)) [
  | inl e ↦ let same : k ≡ c = ground (arith, e) in rw same l
  | inr e ↦ least k (ground (arith, e, h))
]

side_from-IsRoot :
    (fuel c n : ℕ)
    → n ≤ (c + fuel) * (c + fuel)
    → ((k : ℕ) → k < c → k * k < n)
    → IsRoot n (side_from fuel c n)
unfolding side_from
side_from-IsRoot zero c n h least =
    let e : c + 0 ≡ c = omega arith in record { enough = rw e at h; least = least }
side_from-IsRoot (suc fuel) c n h least = elim (Bool-cases (leb n (c * c))) [
  | inl e ↦ rw e (record { enough = ground (arith, e); least = least })
  | inr e ↦
      let f : c + suc fuel ≡ c + 1 + fuel = omega arith in
      rw e (side_from-IsRoot fuel (c + 1) n (rw f at h) (below_suc c n least (step c n e)))
]

pub ceil_sqrt-IsRoot : (n : ℕ) → 1 ≤ n → IsRoot n (ceil_sqrt n)
unfolding ceil_sqrt
ceil_sqrt-IsRoot n h = side_from-IsRoot n 1 n (grind (arith, h)) (λ (k : ℕ) (l : k < 1). small k l)
  where
    small : (k : ℕ) → k < 1 → k * k < n
    small zero l = omega (arith, h)
    small (suc k) l = absurd (omega (arith, l))
