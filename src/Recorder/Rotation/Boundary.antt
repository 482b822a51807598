-- ===== src/Recorder/Rotation/Boundary.antt =====
-- The boundary is the next multiple of the period.
use lite_nvr.Common.{ℕ, ◌+◌, ◌*◌, ◌/◌, ◌%◌, ◌<◌, ◌≤◌, ◌≡◌, max, refl, arith}
use lite_nvr.Recorder.Rotation.{next_boundary}
use native.Mathlib.Nat.{div-add-mod', mod-lt}

multiple_after :
    (start p q r : ℕ)
    → q * p + r ≡ start
    → r < p
    → (start < (q + 1) * p) × ((q + 1) * p ≤ start + p)
multiple_after start p q r e l =
    let next : (q + 1) * p ≡ q * p + p = grind arith in
    (omega (arith, next, e, l), omega (arith, next, e))

-- The boundary after `start` is a multiple of the period, later than `start`, and by no more than the
-- period; a period of zero counts as one millisecond.
pub next_boundary_lem :
    (start period : ℕ)
    → let p = max period 1 in
      let b = next_boundary start period in ((k : ℕ) × (b ≡ k * p)) × (start < b) × (b ≤ start + p)
unfolding next_boundary
next_boundary_lem start period =
    let p = max period 1 in
    let after =
      multiple_after start p (start / p) (start % p) (div-add-mod' start p)
        (mod-lt start (omega arith)) in
    ((start / p + 1, refl), after.0, after.1)
