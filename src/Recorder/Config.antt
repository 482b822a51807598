-- ===== src/Recorder/Config.antt =====
-- crates/nvr-recorder/src/config.rs, and what recorder.rs decides by the configuration: which streams
-- it records, and how long it waits before it connects again. Delays are milliseconds, the length of
-- a segment is in microseconds; the address and the options of the input are not used here.
pub mod Delays
use lite_nvr.Common.{
  ℕ, Bool, true, false, Option, none, some, List, [], ◌∷◌, String, ◌+◌, ◌*◌, ◌^◌, ◌%◌, ◌-◌, min,
  ltb, leb, if◌then◌else◌, Result, ok, err,
}
use lite_nvr.Common.Dict.{is_some}

pub data TrackSelect : Type 0 where
  only_video only_audio both : TrackSelect

pub data Container : Type 0 where
  ts mp4 mkv : Container

unfoldable pub extension : Container → String
extension ts = "ts"
extension mp4 = "mp4"
extension mkv = "mkv"

unfoldable pub muxer_name : Container → String
muxer_name ts = "mpegts"
muxer_name mp4 = "mp4"
muxer_name mkv = "matroska"

pub record ReconnectPolicy : Type 0 where
  pub max_retries : Option ℕ
  pub base_delay : ℕ
  pub max_delay : ℕ

pub record RecorderConfig : Type 0 where
  pub tracks : TrackSelect
  pub segment_time : ℕ
  pub align_to_wall_clock : Bool
  pub container : Container
  pub output_dir : String
  pub filename_pattern : String
  pub reconnect : ReconnectPolicy

-- What `RecorderConfig::new` fills in.
unfoldable pub new : String → RecorderConfig
new dir = record {
  tracks = both;
  segment_time = 60_000_000;
  align_to_wall_clock = false;
  container = ts;
  output_dir = dir;
  filename_pattern = "rec_%Y%m%d_%H%M%S";
  reconnect = record { max_retries = none; base_delay = 1_000; max_delay = 16_000 };
}

pub data MediaKind : Type 0 where
  video_kind audio_kind other_kind : MediaKind

pub record Selected : Type 0 where
  pub video : Option ℕ
  pub audio : Option ℕ

pub data RecordError : Type 0 where
  no_connection no_video no_audio no_media : RecordError
  channel_closed end_of_stream : RecordError
  open_failed write_failed finish_failed : RecordError

unfoldable pub or_first : Option ℕ → ℕ → Option ℕ
or_first none i = some i
or_first (some j) i = some j

-- The first video and the first audio stream.
unfoldable pub first_streams : List (ℕ × MediaKind) → Selected → Selected
unfolding or_first
first_streams [] s = s
first_streams ((i, video_kind) ∷ r) s = first_streams r (record s { video = or_first s.video i })
first_streams ((i, audio_kind) ∷ r) s = first_streams r (record s { audio = or_first s.audio i })
first_streams ((i, other_kind) ∷ r) s = first_streams r s

unfoldable pub wanted : TrackSelect → Selected → Result RecordError Selected
wanted only_video s =
    if is_some s.video then ok (record { video = s.video; audio = none }) else err no_video
wanted only_audio s =
    if is_some s.audio then ok (record { video = none; audio = s.audio }) else err no_audio
wanted both s = if is_some s.video then ok s else if is_some s.audio then ok s else err no_media

unfoldable pub select_streams : List (ℕ × MediaKind) → TrackSelect → Result RecordError Selected
unfolding first_streams wanted
select_streams streams tracks =
    wanted tracks (first_streams streams (record { video = none; audio = none }))

-- `u128::MAX`.
abbrev pub u128_max : ℕ
u128_max = 2 ^ 128 - 1

unfoldable pub backoff_delay : ℕ → ℕ → ℕ → ℕ
backoff_delay attempt base most =
    min (min (base * (if ltb attempt 128 then 2 ^ attempt else u128_max)) u128_max) most % 2 ^ 64
