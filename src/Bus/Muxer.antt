-- ===== src/Bus/Muxer.antt =====
-- crates/ffmpeg-bus/src/output.rs: how packets go to FFmpeg's muxer. What FFmpeg gives is a parameter:
-- `rescale` from one time base to another, the time base that a stream has in the output, and whether
-- the header, a packet or the trailer can be written.
pub mod Rising
mod Runs
use lite_nvr.Common.{
  ℕ, Bool, true, false, Option, none, some, List, [], ◌∷◌, ◌&&◌, not, if◌then◌else◌, nat_eq, ◌==◌,
}
use lite_nvr.Common.Int.{ℤ, pos, leb_ℤ, ltb_ℤ, add_i64, ◌==ℤ◌}
use lite_nvr.Common.Dict.{Dict, lookup, insert}

-- What is read of a packet. `content` stands for its bytes.
pub record RawPacket : Type 0 where
  pub index : ℕ
  pub is_key : Bool
  pub pts : Option ℤ
  pub dts : Option ℤ
  pub numerator : ℤ
  pub denominator : ℤ
  pub size : ℕ
  pub content : ℕ

-- `written` is what the muxer was handed, with the stream of the output, the latest first.
pub record AvOutput : Type 0 where
  pub output_stream_index : Dict ℕ ℕ
  pub have_written_header : Bool
  pub have_written_trailer : Bool
  pub last_dts : Dict ℕ ℤ
  pub written : List (ℕ × RawPacket)

unfoldable pub new : AvOutput
new = record {
  output_stream_index = [];
  have_written_header = false;
  have_written_trailer = false;
  last_dts = [];
  written = [];
}

-- `out` is the index that FFmpeg gives to the new stream; `found` says that it has an encoder.
unfoldable pub add_stream : ℕ → ℕ → Bool → AvOutput → AvOutput × Bool
add_stream index out found o =
    if found
    then (record o { output_stream_index = insert index out o.output_stream_index }, true)
    else (o, false)

unfoldable pub or_zero : Option ℤ → ℤ
or_zero none = pos 0
or_zero (some t) = t

-- A decoding time that is not later than the last one becomes the last one and one.
unfoldable pub raise : Option ℤ → ℤ → ℤ
unfolding add_i64
raise none dts = dts
raise (some last) dts = if leb_ℤ dts last then add_i64 last (pos 1) else dts

unfoldable pub not_before : ℤ → Option ℤ → ℤ
not_before dts none = dts
not_before dts (some pts) = if ltb_ℤ pts dts then dts else pts

-- The packet with its new decoding time.
unfoldable pub set_raised : ℤ → RawPacket → RawPacket
unfolding or_zero not_before
set_raised d p =
    if d ==ℤ or_zero p.dts then p else record p { dts = some d; pts = some (not_before d p.pts) }

unfoldable pub fill : Option ℤ → Option ℤ → RawPacket → RawPacket
fill none none p = record p { pts = some (pos 0); dts = some (pos 0) }
fill none (some d) p = record p { pts = some d }
fill (some t) none p = record p { dts = some t }
fill (some t) (some d) p = p

unfoldable pub put_packet : ℕ → RawPacket → Bool → AvOutput → AvOutput × Bool
unfolding raise set_raised or_zero
put_packet out q write_ok o =
    let d = raise (lookup out o.last_dts) (or_zero q.dts) in
    let o' = record o { last_dts = insert out d o.last_dts } in
    if write_ok
    then (record o' { written = (out, set_raised d q) ∷ o'.written }, true)
    else (o', false)

module _ (rescale : ℤ → ℤ × ℤ → ℤ × ℤ → ℤ) (out_base : ℕ → ℤ × ℤ) where
  unfoldable pub rescale_time : Option ℤ → ℤ × ℤ → ℤ × ℤ → Option ℤ
  rescale_time none from to = none
  rescale_time (some t) from to = some (rescale t from to)

  unfoldable pub rescale_ts : ℕ → RawPacket → RawPacket
  unfolding rescale_time
  rescale_ts out p =
      let from : ℤ × ℤ = (p.numerator, p.denominator) in
      record p {
        pts = rescale_time p.pts from (out_base out);
        dts = rescale_time p.dts from (out_base out);
      }

  -- The packet as it is before its decoding time is compared with the last one.
  unfoldable pub prepared : ℕ → RawPacket → RawPacket
  unfolding rescale_ts fill
  prepared out p = rescale_ts out (fill p.pts p.dts p)

  unfoldable pub to_stream : Option ℕ → RawPacket → Bool → Bool → AvOutput → AvOutput × Bool
  unfolding prepared put_packet
  to_stream none p header_ok write_ok o = (o, false)
  to_stream (some out) p header_ok write_ok o =
      if o.have_written_header
      then put_packet out (prepared out p) write_ok o
      else if header_ok
      then put_packet out (prepared out p) write_ok (record o { have_written_header = true })
      else (o, false)

  unfoldable pub write_packet : RawPacket → Bool → Bool → AvOutput → AvOutput × Bool
  unfolding to_stream
  write_packet p header_ok write_ok o =
      to_stream (lookup p.index o.output_stream_index) p header_ok write_ok o

-- The flag is set before the trailer is tried, so that it is not tried again.
unfoldable pub finish : Bool → AvOutput → AvOutput × Bool
finish trailer_ok o =
    if o.have_written_header && not o.have_written_trailer
    then (record o { have_written_trailer = true }, trailer_ok)
    else (o, true)

-- The writer of an output that is read as a stream: packets of one stream, whose missing times stay
-- missing.
pub record AvOutputStreamWriter : Type 0 where
  pub input_stream_index : Option ℕ
  pub have_written_header : Bool
  pub last_dts : Option ℤ
  pub written : List RawPacket

unfoldable pub put_streamed : RawPacket → Bool → AvOutputStreamWriter → AvOutputStreamWriter × Bool
unfolding raise set_raised or_zero
put_streamed q write_ok o =
    let d = raise o.last_dts (or_zero q.dts) in
    let o' = record o { last_dts = some d } in
    if write_ok then (record o' { written = set_raised d q ∷ o'.written }, true) else (o', false)

module _ (rescale : ℤ → ℤ × ℤ → ℤ × ℤ → ℤ) (out_base : ℕ → ℤ × ℤ) where
  unfoldable pub write_streamed :
      RawPacket → Bool → Bool → AvOutputStreamWriter → AvOutputStreamWriter × Bool
  unfolding put_streamed rescale_ts
  write_streamed p header_ok write_ok o = by o.input_stream_index
    where
      by : Option ℕ → AvOutputStreamWriter × Bool
      by none = (o, false)
      by (some i) =
          if not (p.index == i)
          then (o, true)
          else if o.have_written_header
          then put_streamed (rescale_ts rescale out_base 0 p) write_ok o
          else if header_ok
          then put_streamed (rescale_ts rescale out_base 0 p) write_ok
              (record o { have_written_header = true })
          else (o, false)
