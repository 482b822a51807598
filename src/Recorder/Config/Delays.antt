-- ===== src/Recorder/Config/Delays.antt =====
-- The delay before the next connection doubles up to its limit, however often it was tried.
use lite_nvr.Common.{
  ℕ, zero, suc, ◌+◌, ◌*◌, ◌^◌, ◌%◌, ◌≤◌, ◌<◌, ◌≡◌, min, ltb, Bool-cases, inl, inr, arith, false,
}
use lite_nvr.Recorder.Config.{backoff_delay, u128_max}
use native.Mathlib.Nat.{pow-le-pow_right}

-- A factor that is cut off at the largest u128 gives the limit, as the true one does.
cut_off :
    (base p most : ℕ)
    → most < 2 ^ 64
    → 2 ^ 128 ≤ p
    → min (min (base * u128_max) u128_max) most % 2 ^ 64 ≡ min (base * p) most
cut_off zero p most h l = omega arith
cut_off (suc b) p most h l = let e : suc b * p ≡ b * p + p = grind arith in omega (arith, e, h, l)

pub backoff_delay_lem :
    (attempt base most : ℕ)
    → most < 2 ^ 64
    → backoff_delay attempt base most ≡ min (base * 2 ^ attempt) most
unfolding backoff_delay
backoff_delay_lem attempt base most h = elim (Bool-cases (ltb attempt 128)) [
  | inl e ↦ rw e (omega arith)
  | inr e ↦
      rw e
        (cut_off base (2 ^ attempt) most h (pow-le-pow_right (omega arith) (not_below attempt e)))
]
  where
    not_below : (n : ℕ) → ltb n 128 ≡ false → 128 ≤ n
    not_below n e = ground arith
