-- ===== src/Bus/Muxer/Rising.antt =====
-- output.rs: the decoding times of what the muxer is handed rise, stream by stream.
use lite_nvr.Common.{
  ℕ, Bool, true, false, Option, none, some, List, [], ◌∷◌, ◌≡◌, ◌+◌, ◌-◌, ◌^◌, ◌<◌, if◌then◌else◌,
  All, refl, sym, ap, subst, Bool-cases, inl, inr, arith, nat_eq, ◌==◌, length, suc, nat_beq_iff,
}
use lite_nvr.Common.Int.{ℤ, pos, negsuc, pos_part, neg_part, ◌≤ℤ◌, ◌<ℤ◌, leb_ℤ, add_i64, ◌==ℤ◌}
use lite_nvr.Common.Dict.{Dict, lookup, lookup-insert}
use lite_nvr.Bus.Muxer.{
  RawPacket, AvOutput, or_zero, raise, set_raised, prepared, put_packet, to_stream, write_packet,
}

-- The decoding times that a stream of the output was handed, the latest first.
unfoldable pub dts_of : ℕ → List (ℕ × RawPacket) → List ℤ
dts_of i [] = []
dts_of i ((j, p) ∷ w) = let rest = dts_of i w in if j == i then or_zero p.dts ∷ rest else rest

-- Each is less than the one after it in time.
unfoldable pub RisesTo : ℤ → List ℤ → Type 0
RisesTo t [] = Unit {0}
RisesTo t (s ∷ r) = (s <ℤ t) × RisesTo s r

unfoldable pub Rises : List ℤ → Type 0
Rises [] = Unit {0}
Rises (t ∷ r) = RisesTo t r

-- The last time that was given out is at least the first of these.
Capped : ℕ → Option ℤ → List ℤ → Type 0
Capped k none l = l ≡ []
Capped k (some last) [] = last ≤ℤ pos (2 ^ 62 + k)
Capped k (some last) (t ∷ r) = (last ≤ℤ pos (2 ^ 62 + k)) × (t ≤ℤ last) × RisesTo t r

-- An i64 that leaves room for the steps to come.
abbrev pub Fits : ℤ → Type 0
Fits t = (negsuc (2 ^ 63 - 1) ≤ℤ t) × (t ≤ℤ pos (2 ^ 62))

next_i64 :
    (t : ℤ)
    → negsuc (2 ^ 63 - 1) ≤ℤ t
    → t ≤ℤ pos (2 ^ 63 - 2)
    → pos_part (add_i64 t (pos 1)) + neg_part t ≡ pos_part t + neg_part (add_i64 t (pos 1)) + 1
unfolding add_i64
next_i64 (pos a) l h = ground arith
next_i64 (negsuc a) l h = ground arith

raised_bounds :
    (last dts : ℤ) (k : ℕ)
    → last ≤ℤ pos (2 ^ 62 + k)
    → k < 2 ^ 62 - 2
    → Fits dts
    → (last <ℤ raise (some last) dts)
      × (dts ≤ℤ raise (some last) dts)
      × (raise (some last) dts ≤ℤ pos (2 ^ 62 + suc k))
unfolding raise
raised_bounds last dts k h small fits = elim (Bool-cases (leb_ℤ dts last)) [
  | inl e ↦
      let below : dts ≤ℤ last = ground (arith, e) in
      let one = next_i64 last (omega (arith, below, fits)) (omega (arith, h, small)) in
      rw e (omega (arith, one, below, h), omega (arith, one, below), omega (arith, one, h))
  | inr e ↦ rw e (ground (arith, e), omega arith, omega (arith, fits))
]

set_raised-dts : (d : ℤ) (p : RawPacket) → or_zero (set_raised d p).dts ≡ d
unfolding set_raised or_zero
set_raised-dts d p = elim (Bool-cases (d ==ℤ or_zero p.dts)) [
  | inl e ↦ rw e (sym (same d (or_zero p.dts) e))
  | inr e ↦ rw e refl
]
  where
    same : (a b : ℤ) → (a ==ℤ b) ≡ true → a ≡ b
    same (pos a) (pos b) h = ground arith
    same (pos a) (negsuc b) h = ground arith
    same (negsuc a) (pos b) h = ground arith
    same (negsuc a) (negsuc b) h = ground arith

-- What holds of an output after at most k packets.
Sound : ℕ → AvOutput → Type 0
Sound k o = (i : ℕ) → Capped k (lookup i o.last_dts) (dts_of i o.written)

Capped-suc : (k : ℕ) (o : Option ℤ) (l : List ℤ) → Capped k o l → Capped (suc k) o l
unfolding Capped
Capped-suc k none l h = h
Capped-suc k (some last) [] h = omega (arith, h)
Capped-suc k (some last) (t ∷ r) h = (omega (arith, h.0), h.1, h.2)

-- The time that is given out next caps what was there, and may be put on it.
Capped-raise :
    (k : ℕ) (o : Option ℤ) (l : List ℤ) (dts : ℤ)
    → k < 2 ^ 62 - 2
    → Fits dts
    → Capped k o l
    → Capped (suc k) (some (raise o dts)) l × Capped (suc k) (some (raise o dts)) (raise o dts ∷ l)
unfolding Capped raise RisesTo
Capped-raise k none [] dts small fits h =
    let top : dts ≤ℤ pos (2 ^ 62 + suc k) = omega (arith, fits) in (top, (top, omega arith, tt))
Capped-raise k none (t ∷ r) dts small fits h = absurd (no h)
  where
    no : (t ∷ r) ≡ [] → ⊥
    no h = cc
Capped-raise k (some last) [] dts small fits h =
    let (later, at_least, top) = raised_bounds last dts k h small fits in
    (top, (top, omega arith, tt))
Capped-raise k (some last) (t ∷ r) dts small fits h =
    let (later, at_least, top) = raised_bounds last dts k h.0 small fits in
    let past : t <ℤ raise (some last) dts = omega (arith, later, h) in
    ((top, omega (arith, past), h.2), (top, omega arith, (past, h.2)))

put_packet-Sound :
    (k out : ℕ) (q : RawPacket) (write_ok : Bool) (o : AvOutput)
    → k < 2 ^ 62 - 2
    → Fits (or_zero q.dts)
    → Sound k o
    → Sound (suc k) (put_packet out q write_ok o).0
unfolding put_packet Sound dts_of
put_packet-Sound k out q write_ok o small fits h i =
    by write_ok (out == i) refl
      (Capped-raise k (lookup i o.last_dts) (dts_of i o.written) (or_zero q.dts) small fits (h i))
  where
    d : ℤ
    d = raise (lookup out o.last_dts) (or_zero q.dts)

    by :
        (wrote hit : Bool)
        → (out == i) ≡ hit
        → Capped (suc k) (some (raise (lookup i o.last_dts) (or_zero q.dts))) (dts_of i o.written)
          × Capped
              (suc k)
              (some (raise (lookup i o.last_dts) (or_zero q.dts)))
              (raise (lookup i o.last_dts) (or_zero q.dts) ∷ dts_of i o.written)
        → Capped
            (suc k)
            (lookup i (put_packet out q wrote o).0.last_dts)
            (dts_of i (put_packet out q wrote o).0.written)
    by true true e c =
        rw (lookup-insert i out d o.last_dts, e, set_raised-dts d q, (nat_beq_iff out i).0 e) c.1
    by true false e c = rw (lookup-insert i out d o.last_dts, e) (Capped-suc k _ _ (h i))
    by false true e c = rw (lookup-insert i out d o.last_dts, e, (nat_beq_iff out i).0 e) c.0
    by false false e c = rw (lookup-insert i out d o.last_dts, e) (Capped-suc k _ _ (h i))

-- A packet that comes, and whether the header and it can be written.
pub record Call : Type 0 where
  pub packet : RawPacket
  pub header_ok : Bool
  pub write_ok : Bool

module _ (rescale : ℤ → ℤ × ℤ → ℤ × ℤ → ℤ) (out_base : ℕ → ℤ × ℤ) where
  unfoldable pub write_all : List Call → AvOutput → AvOutput
  write_all [] o = o
  write_all (c ∷ cs) o =
      write_all cs (write_packet rescale out_base c.packet c.header_ok c.write_ok o).0

  -- Its decoding time in any stream of the output leaves room.
  abbrev pub PacketFits : Call → Type 0
  PacketFits c = (out : ℕ) → Fits (or_zero (prepared rescale out_base out c.packet).dts)

  write-Sound :
      (k : ℕ) (c : Call) (o : AvOutput)
      → k < 2 ^ 62 - 2
      → PacketFits c
      → Sound k o
      → Sound (suc k) (write_packet rescale out_base c.packet c.header_ok c.write_ok o).0
  unfolding write_packet to_stream Sound
  write-Sound k c o small fits h = by (lookup c.packet.index o.output_stream_index)
    where
      unmoved : Sound (suc k) o
      unmoved i = Capped-suc k _ _ (h i)

      begun :
          (out : ℕ) (ok : Bool)
          → Sound
              (suc k)
              (if ok
                then put_packet out
                    (prepared rescale out_base out c.packet)
                    c.write_ok
                    (record o { have_written_header = true })
                else (o, false)).0
      begun out true =
          put_packet-Sound k out (prepared rescale out_base out c.packet) c.write_ok
            (record o { have_written_header = true }) small (fits out) h
      begun out false = unmoved

      going :
          (out : ℕ) (has_header : Bool)
          → Sound
              (suc k)
              (if has_header
                then put_packet out (prepared rescale out_base out c.packet) c.write_ok o
                else if c.header_ok
                then put_packet out
                    (prepared rescale out_base out c.packet)
                    c.write_ok
                    (record o { have_written_header = true })
                else (o, false)).0
      going out true =
          put_packet-Sound k out (prepared rescale out_base out c.packet) c.write_ok o small
            (fits out) h
      going out false = begun out c.header_ok

      by :
          (found : Option ℕ)
          → Sound (suc k) (to_stream rescale out_base found c.packet c.header_ok c.write_ok o).0
      by none = unmoved
      by (some out) = going out o.have_written_header

  write_all-Sound :
      (cs : List Call) (k : ℕ) (o : AvOutput)
      → k + length cs < 2 ^ 62 - 2
      → All PacketFits cs
      → Sound k o
      → Sound (k + length cs) (write_all cs o)
  unfolding write_all
  write_all-Sound [] k o small fits h = let e : k + 0 ≡ k = omega arith in rw e h
  write_all-Sound (c ∷ cs) k o small fits h =
      let e : k + suc (length cs) ≡ suc k + length cs = omega arith in
      rw e (
        write_all-Sound cs (suc k) _ (omega (arith, small)) fits.1
          (write-Sound k c o (omega (arith, small)) fits.0 h))

  Capped-Rises : (k : ℕ) (o : Option ℤ) (l : List ℤ) → Capped k o l → Rises l
  unfolding Capped Rises
  Capped-Rises k none [] h = tt
  Capped-Rises k (some last) [] h = tt
  Capped-Rises k (some last) (t ∷ r) h = h.2
  Capped-Rises k none (t ∷ r) h = absurd (no h)
    where
      no : (t ∷ r) ≡ [] → ⊥
      no h = cc

  fresh-Sound : (o : AvOutput) → o.last_dts ≡ [] → o.written ≡ [] → Sound 0 o
  unfolding Sound lookup dts_of Capped
  fresh-Sound o fresh empty i =
      subst (λ (m : Dict ℕ ℤ). Capped 0 (lookup i m) (dts_of i o.written)) (sym fresh)
        (ap (λ (w : List (ℕ × RawPacket)). dts_of i w) empty)

  -- Whatever packets come, in any order and with any times or none, and whichever of the writes fail: in each
  -- stream of the output, the packets that the muxer is handed have decoding times that rise strictly. The
  -- output has written nothing before, the packets' decoding times in the time base of the output are i64
  -- numbers of at most 2^62, and there are fewer than 2^62 - 2 packets.
  pub write_all-Rises :
      (cs : List Call) (o : AvOutput) (i : ℕ)
      → o.last_dts ≡ []
      → o.written ≡ []
      → length cs < 2 ^ 62 - 2
      → All PacketFits cs
      → Rises (dts_of i (write_all cs o).written)
  unfolding Sound
  write_all-Rises cs o i fresh empty small fits =
      Capped-Rises (0 + length cs) (lookup i (write_all cs o).last_dts) _
        (write_all-Sound cs 0 o (omega (arith, small)) fits (fresh-Sound o fresh empty) i)
