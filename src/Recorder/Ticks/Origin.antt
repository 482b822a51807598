-- ===== src/Recorder/Ticks/Origin.antt =====
-- A segment starts at its origin: what rounding leaves of its first timestamp.
use native.Mathlib.Nat.{
  div-mul-le_self, lt-div-mul-add, le_of_mul-le-mul_right, lt_of_mul-lt-mul_right,
}
use lite_nvr.Common.{
  ℕ, zero, suc, ◌+◌, ◌-◌, ◌*◌, ◌/◌, ◌^◌, ◌≤◌, ◌<◌, ◌≡◌, ◌⊎◌, inl, inr, Option, some, ap, arith, ◌∙◌,
  refl, false,
}
use lite_nvr.Common.Int.{ℤ, pos, sub_i64, as_i64, quot, ◌*ℤ◌, ◌==ℤ◌}
use lite_nvr.Bus.Muxer.{RawPacket}
use lite_nvr.Recorder.Ticks.{tb_to_us, us_to_tb, reset, pkt_origin_us, timestamp, moved_back}

-- Down to microseconds and back to ticks loses at most one tick.
there_and_back :
    (t m d u v : ℕ) → 0 < d → d ≤ m → u ≡ t * m / d → v ≡ u * d / m → (v ≤ t) × (t ≤ v + 1)
there_and_back t m d u v d_pos fine eu ev =
    let m_pos : 0 < m = omega arith in
    let below : u * d ≤ t * m = rw eu (div-mul-le_self (t * m) d) in
    let above : t * m < u * d + d = rw eu (lt-div-mul-add d_pos) in
    let back_below : v * m ≤ u * d = rw ev (div-mul-le_self (u * d) m) in
    let back_above : u * d < v * m + m = rw ev (lt-div-mul-add m_pos) in
    let two : (v + 2) * m ≡ v * m + m + m = grind arith in
    let short : t * m < (v + 2) * m = omega (arith, two, above, back_above, fine) in
    let under : t < v + 2 = lt_of_mul-lt-mul_right m short in
    (le_of_mul-le-mul_right (omega (arith, below, back_below)) m_pos, omega (arith, under))

times_pos : (a b : ℕ) → pos a *ℤ pos b ≡ pos (a * b)
unfolding ◌*ℤ◌
times_pos a b = ground arith

small_i64 : (n : ℕ) → n < 2 ^ 63 → as_i64 (pos n) ≡ pos n
unfolding as_i64
small_i64 n h = ground arith

not_zero : (n : ℕ) → (pos (suc n) ==ℤ pos 0) ≡ false
not_zero n = ground arith

tb_to_us_pos :
    (t n d : ℕ)
    → 0 < d
    → t * (n * 1_000_000) / d < 2 ^ 63
    → tb_to_us (pos t) (pos n) (pos d) ≡ pos (t * (n * 1_000_000) / d)
unfolding tb_to_us quot
tb_to_us_pos t n (suc d) h small =
    let e : t * n * 1_000_000 ≡ t * (n * 1_000_000) = omega arith in
    rw (not_zero d, times_pos t n, times_pos (t * n) 1_000_000, e) (small_i64 _ small)
tb_to_us_pos t n zero h small = absurd (omega (arith, h))

us_to_tb_pos :
    (u n d : ℕ)
    → 0 < n
    → u * d / (n * 1_000_000) < 2 ^ 63
    → us_to_tb (pos u) (pos n) (pos d) ≡ pos (u * d / (n * 1_000_000))
unfolding us_to_tb quot
us_to_tb_pos u (suc n) d h small =
    rw (not_zero n, times_pos u d, times_pos (suc n) 1_000_000) (small_i64 _ small)
us_to_tb_pos u zero d h small = absurd (omega (arith, h))

rest_of : (t v : ℕ) → t < 2 ^ 63 → v ≤ t → moved_back (pos v) (some (pos t)) ≡ some (pos (t - v))
unfolding moved_back sub_i64
rest_of t v h l = ground arith

-- The first packet of a segment, which gives the segment its origin, is written with the decoding time
-- 0 or 1, if its time base is positive and not finer than a microsecond, and if its timestamp is not
-- negative and is an i64 in ticks and in microseconds.
pub reset-pkt_origin_us :
    (p : RawPacket) (t n d : ℕ)
    → p.dts ≡ some (pos t)
    → p.numerator ≡ pos n
    → p.denominator ≡ pos d
    → 0 < n
    → 0 < d
    → d ≤ n * 1_000_000
    → t < 2 ^ 63
    → t * (n * 1_000_000) / d < 2 ^ 63
    → ((reset (pkt_origin_us p) p).dts ≡ some (pos 0))
      ⊎ ((reset (pkt_origin_us p) p).dts ≡ some (pos 1))
unfolding reset pkt_origin_us timestamp
reset-pkt_origin_us p t n d et en ed n_pos d_pos fine small small_us =
    let u : ℕ = t * (n * 1_000_000) / d in
    let v : ℕ = u * d / (n * 1_000_000) in
    let near = there_and_back t (n * 1_000_000) d u v d_pos fine refl refl in
    let e =
      ap (λ (base : ℤ). moved_back (us_to_tb base (pos n) (pos d)) (some (pos t)))
        (tb_to_us_pos t n d d_pos small_us)
      ∙ ap (λ off. moved_back off (some (pos t))) (us_to_tb_pos u n d n_pos (omega (arith, near)))
      ∙ rest_of t v small near.0 in
    rw (et, en, ed, timestamp) (at (t - v) e (omega (arith, near)))
  where
    at : {o : Option ℤ} (k : ℕ) → o ≡ some (pos k) → k ≤ 1 → (o ≡ some (pos 0)) ⊎ (o ≡ some (pos 1))
    at zero e l = inl e
    at (suc zero) e l = inr e
    at (suc (suc k)) e l = absurd (omega (arith, l))
