-- ===== src/Recorder/Ticks.antt =====
-- crates/nvr-recorder/src/segment.rs: the timestamps of a packet, in ticks of its time base and in
-- microseconds. The products are below 2^127, where an i128 does not wrap.
pub mod Origin
use lite_nvr.Common.{ℕ, Option, none, some, Bool, true, false, if◌then◌else◌}
use lite_nvr.Bus.Muxer.{RawPacket}
use lite_nvr.Common.Int.{ℤ, pos, negsuc, ◌*ℤ◌, quot, as_i64, sub_i64, ◌==ℤ◌, pos_part}

unfoldable pub tb_to_us : ℤ → ℤ → ℤ → ℤ
unfolding ◌*ℤ◌ quot as_i64
tb_to_us t tb_num tb_den =
    if tb_den ==ℤ pos 0 then pos 0 else as_i64 (quot (t *ℤ tb_num *ℤ pos 1_000_000) tb_den)

unfoldable pub us_to_tb : ℤ → ℤ → ℤ → ℤ
unfolding ◌*ℤ◌ quot as_i64
us_to_tb us tb_num tb_den =
    if tb_num ==ℤ pos 0 then pos 0 else as_i64 (quot (us *ℤ tb_den) (tb_num *ℤ pos 1_000_000))

-- The decoding time, or else the presentation time, or else 0.
unfoldable pub timestamp : Option ℤ → Option ℤ → ℤ
timestamp (some dts) pts = dts
timestamp none (some pts) = pts
timestamp none none = pos 0

unfoldable pub pkt_origin_us : RawPacket → ℤ
unfolding timestamp
pkt_origin_us p = tb_to_us (timestamp p.dts p.pts) p.numerator p.denominator

-- `(ts - off).max(0)`.
unfoldable pub moved_back : ℤ → Option ℤ → Option ℤ
unfolding sub_i64
moved_back off none = none
moved_back off (some t) = some (pos (pos_part (sub_i64 t off)))

-- The packet as it goes to the output of a segment with that origin.
unfoldable pub reset : ℤ → RawPacket → RawPacket
unfolding us_to_tb moved_back
reset base_us p =
    let off = us_to_tb base_us p.numerator p.denominator in
    record p { pts = moved_back off p.pts; dts = moved_back off p.dts }

-- In microseconds; the source divides by 1,000,000 as a floating point number.
unfoldable pub duration_us : ℤ → ℤ → ℕ
duration_us first_us last_us = pos_part (sub_i64 last_us first_us)
