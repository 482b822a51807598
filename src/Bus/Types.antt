-- ===== src/Bus/Types.antt =====
-- The configurations of bus.rs, and what it reads of a stream's parameters (stream.rs).
use lite_nvr.Common.{◌+◌, ℕ, String, Bool, true, false, Option, none, some, ◌==◌, nat_eq, string_eq}

-- The identifiers that bus.rs names; the others of FFmpeg by a number.
pub data CodecId : Type 0 where
  h264 hevc aac opus mjpeg vp8 vp9 av1 mp3 rawvideo wrapped_avframe : CodecId
  other_codec : ℕ → CodecId

abbrev pub codec_tag : CodecId → ℕ
codec_tag h264 = 0
codec_tag hevc = 1
codec_tag aac = 2
codec_tag opus = 3
codec_tag mjpeg = 4
codec_tag vp8 = 5
codec_tag vp9 = 6
codec_tag av1 = 7
codec_tag mp3 = 8
codec_tag rawvideo = 9
codec_tag wrapped_avframe = 10
codec_tag (other_codec n) = 11 + n

infix 50 ◌is◌
abbrev pub ◌is◌ : CodecId → CodecId → Bool
a is b = codec_tag a == codec_tag b

pub data Medium : Type 0 where
  video audio other_medium : Medium

pub data Pixel : Type 0 where
  yuv420p rgb24 bgr24 : Pixel
  other_pixel : ℕ → Pixel

-- The accessors of an AvStream; the C fields' negative values are 0 already.
pub record AvStream : Type 0 where
  pub index : ℕ
  pub codec : CodecId
  pub medium : Medium
  pub width : ℕ
  pub height : ℕ
  pub pixel_format : Pixel
  pub sample_rate : ℕ
  pub channels : ℕ

abbrev pub is_video : AvStream → Bool
is_video s = elim s.medium [ video ↦ true | _ ↦ false ]

abbrev pub is_audio : AvStream → Bool
is_audio s = elim s.medium [ audio ↦ true | _ ↦ false ]

pub data InputConfig : Type 0 where
  net_input : String → InputConfig
  file_input : String → InputConfig
  device_input : String → String → InputConfig

pub data OutputAvType : Type 0 where
  video_type audio_type : OutputAvType

pub data OutputDest : Type 0 where
  net : String → Option String → OutputDest
  file : String → OutputDest
  raw : OutputDest
  mux : String → OutputDest
  encoded : OutputDest
  demuxed : OutputDest

pub record EncodeConfig : Type 0 where
  pub codec : String
  pub width : Option ℕ
  pub height : Option ℕ
  pub bitrate : Option ℕ
  pub preset : Option String
  pub pixel_format : Option String
  pub sample_rate : Option ℕ
  pub channels : Option ℕ
  pub audio_bitrate : Option ℕ

abbrev pub default_encode : EncodeConfig
default_encode = record {
  codec = "h264";
  width = none;
  height = none;
  bitrate = none;
  preset = none;
  pixel_format = none;
  sample_rate = none;
  channels = none;
  audio_bitrate = none;
}

pub record OutputConfig : Type 0 where
  pub id : String
  pub dest : OutputDest
  pub av_type : OutputAvType
  pub encode : Option EncodeConfig
  pub audio_encode : Option EncodeConfig
  pub include_audio : Bool

abbrev pub new_output : String → OutputAvType → OutputDest → OutputConfig
new_output id av_type dest = record {
  id = id;
  dest = dest;
  av_type = av_type;
  encode = none;
  audio_encode = none;
  include_audio = false;
}

abbrev pub with_encode : OutputConfig → EncodeConfig → OutputConfig
with_encode o e = record o { encode = some e }

abbrev pub with_audio_encode : OutputConfig → EncodeConfig → OutputConfig
with_audio_encode o e = record o { audio_encode = some e }

abbrev pub with_audio : OutputConfig → OutputConfig
with_audio o = record o { include_audio = true }
