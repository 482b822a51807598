-- ===== src/Recorder/Segment.antt =====
-- crates/nvr-recorder/src/segment.rs: one file of a recording. The output below a writer, which is
-- FFmpeg's muxer and the file system, is a parameter that says what succeeds; `file` is what was handed
-- to it. The descriptions of the codecs are left out.
use lite_nvr.Common.{
  ℕ, Bool, Option, none, some, List, [], ◌∷◌, ◌++◌, String, ◌+◌, ◌%◌, ◌^◌, if◌then◌else◌, ◌==◌,
  Result, ok, err, nat_eq,
}
use lite_nvr.Common.Int.{ℤ, pos}
use lite_nvr.Recorder.Config.{
  Container, Selected, RecordError, open_failed, write_failed, finish_failed,
}
use lite_nvr.Bus.Muxer.{RawPacket}
use lite_nvr.Recorder.Ticks.{tb_to_us, reset, duration_us}

pub record Output : Type 0 where
  pub makes_dir : String → Bool
  pub creates : String → String → Container → Bool
  pub writes : List RawPacket → RawPacket → Bool
  pub finishes : List RawPacket → Bool

pub record SegmentWriter : Type 0 where
  pub file_name : String
  pub start_wall : ℕ
  pub base_us : ℤ
  pub primary_index : ℕ
  pub first_primary_us : Option ℤ
  pub last_primary_us : ℤ
  pub size_bytes : ℕ
  pub file : List RawPacket

pub record SegmentInfo : Type 0 where
  pub file_name : String
  pub start_wall : ℕ
  pub duration_us : ℕ
  pub size_bytes : ℕ
  pub file : List RawPacket

-- The video stream, or else the first of the streams.
unfoldable pub primary_of : Selected → ℕ
primary_of s = by s.video s.audio
  where
    by : Option ℕ → Option ℕ → ℕ
    by (some v) a = v
    by none (some a) = a
    by none none = 0

unfoldable pub first_or : Option ℤ → ℤ → ℤ
first_or none d = d
first_or (some us) d = us

-- The times of a packet of the primary stream, as they are after the reset.
unfoldable pub measured : Option ℤ → RawPacket → SegmentWriter → SegmentWriter
unfolding tb_to_us first_or
measured none p w = w
measured (some pts) p w =
    if p.index == w.primary_index
    then record w {
      first_primary_us =
          some (first_or w.first_primary_us (tb_to_us pts p.numerator p.denominator));
      last_primary_us = tb_to_us pts p.numerator p.denominator;
    }
    else w

unfoldable pub counted : RawPacket → SegmentWriter → SegmentWriter
unfolding measured
counted p w = measured p.pts p (record w { size_bytes = (w.size_bytes + p.size) % 2 ^ 64 })

module _ (output : Output) where
  unfoldable pub open_writer :
      String → String → Container → Selected → ℤ → ℕ → Result RecordError SegmentWriter
  unfolding primary_of
  open_writer dir name container streams base now =
      if output.creates dir name container
      then ok (record {
        file_name = name;
        start_wall = now;
        base_us = base;
        primary_index = primary_of streams;
        first_primary_us = none;
        last_primary_us = pos 0;
        size_bytes = 0;
        file = [];
      })
      else err open_failed

  unfoldable pub write : SegmentWriter → RawPacket → Result RecordError SegmentWriter
  unfolding reset counted
  write w p =
      let q = reset w.base_us p in
      if output.writes w.file q
      then ok (record (counted q w) { file = w.file ++ (q ∷ []) })
      else err write_failed

  unfoldable pub finish : SegmentWriter → Result RecordError SegmentInfo
  unfolding duration_us first_or
  finish w =
      if output.finishes w.file
      then ok (record {
        file_name = w.file_name;
        start_wall = w.start_wall;
        duration_us = duration_us (first_or w.first_primary_us (pos 0)) w.last_primary_us;
        size_bytes = w.size_bytes;
        file = w.file;
      })
      else err finish_failed
