-- ===== src/Bus/Muxer/Runs.antt =====
-- A stream that stammers: two packets of the same time, and one without times.
use lite_nvr.Common.{ℕ, true, false, Option, none, some, List, [], ◌∷◌, ◌≡◌, refl, All, arith}
use lite_nvr.Common.Dict.{insert, remove, lookup}
use lite_nvr.Common.Int.{ℤ, pos}
use lite_nvr.Bus.Muxer.{RawPacket, AvOutput, new, add_stream, write_packet, or_zero, prepared}
use lite_nvr.Bus.Muxer.Rising.{Call, write_all, dts_of, Rises, write_all-Rises, PacketFits}

abbrev milliseconds : ℕ → ℤ × ℤ
milliseconds out = (pos 1, pos 1_000)

abbrev same_base : ℤ → ℤ × ℤ → ℤ × ℤ → ℤ
same_base t from to = t

abbrev piece : Option ℤ → RawPacket
piece dts = record {
  index = 3;
  is_key = false;
  pts = dts;
  dts = dts;
  numerator = pos 1;
  denominator = pos 1_000;
  size = 10;
  content = 1;
}

abbrev sent : Option ℤ → Call
sent dts = record { packet = piece dts; header_ok = true; write_ok = true }

abbrev stammer : List Call
stammer = sent (some (pos 40)) ∷ sent (some (pos 40)) ∷ sent none ∷ sent (some (pos 90)) ∷ []

abbrev one_stream : AvOutput
one_stream = record {
  output_stream_index = (3, 0) ∷ [];
  have_written_header = false;
  have_written_trailer = false;
  last_dts = [];
  written = [];
}

adds_stream : (add_stream 3 0 true new).0 ≡ one_stream
unfolding add_stream new insert remove
adds_stream = refl

stammer-fits : All (PacketFits same_base milliseconds) stammer
unfolding prepared or_zero
stammer-fits = (
  (λ out. omega arith),
  ((λ out. omega arith), ((λ out. omega arith), ((λ out. omega arith), tt))),
)

rising_times :
    dts_of 0 (write_all same_base milliseconds stammer one_stream).written
    ≡ (pos 90 ∷ pos 42 ∷ pos 41 ∷ pos 40 ∷ [])
unfolding dts_of write_all write_packet lookup insert
rising_times = refl

write_all-Rises_example :
    Rises (dts_of 0 (write_all same_base milliseconds stammer one_stream).written)
write_all-Rises_example =
    write_all-Rises same_base milliseconds stammer one_stream 0 refl refl (omega arith) stammer-fits
