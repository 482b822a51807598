-- ===== src/Bus/State.antt =====
-- bus.rs: the state of the bus's loop, and the tasks that it starts. An input task goes by the number
-- that it was created under. What FFmpeg answers is a record of functions, a new one for each command.
pub mod Tasks
use lite_nvr.Common.{
  string_eq, ℕ, String, Bool, Option, none, some, List, [], Result, if◌then◌else◌, ◌==◌, nat_eq,
}
use lite_nvr.Common.Dict.{Dict}
use lite_nvr.Bus.Types.{
  AvStream, InputConfig, OutputConfig, EncodeConfig, Pixel, yuv420p, rgb24, bgr24,
}

pub data BusError : Type 0 where
  output_exists input_exists stream_not_found no_matching decoder_not_found : BusError
  encoder_not_found input_not_found config_not_set unsupported_format plan_empty : BusError
  no_encoder_output no_audio no_video : BusError
  foreign : String → BusError

pub record Settings : Type 0 where
  pub width : ℕ
  pub height : ℕ
  pub keyframe_interval : ℕ
  pub codec : Option String
  pub pixel_format : Pixel

pub record AudioSettings : Type 0 where
  pub codec : Option String
  pub sample_rate : Option ℕ
  pub channels : Option ℕ
  pub bitrate : Option ℕ
  pub sample_format : Option String

-- The dictionary of the video encoder; `tune` is always "zerolatency".
pub record EncoderOptions : Type 0 where
  pub preset : String
  pub bitrate : Option ℕ

-- `source` is the input task that feeds it.
pub record DecoderTask : Type 0 where
  pub source : ℕ
  pub stream : AvStream
  pub lossless : Bool

pub data EncoderSource : Type 0 where
  packets : ℕ → EncoderSource
  frames : DecoderTask → EncoderSource

pub data EncoderSettings : Type 0 where
  video_settings : Settings → Option EncoderOptions → EncoderSettings
  audio_settings : AudioSettings → EncoderSettings

pub record EncoderTask : Type 0 where
  pub source : EncoderSource
  pub stream : AvStream
  pub settings : EncoderSettings
  pub lossless : Bool

abbrev pub Options : Type 0
Options = List (String × String)

pub record BusState : Type 0 where
  pub input_config : Option InputConfig
  pub input_options : Option Options
  pub output_config : Dict String OutputConfig
  pub input_task : Option ℕ
  pub pending_input : Option (List AvStream)
  pub input_streams : List AvStream
  pub decoder_tasks : Dict ℕ DecoderTask
  pub encoder_tasks : Dict ℕ EncoderTask
  pub encoder_output_streams : Dict ℕ AvStream
  pub next_task : ℕ
  pub started : List ℕ
  pub stopped : List ℕ

abbrev pub new_state : BusState
new_state = record {
  input_config = none;
  input_options = none;
  output_config = [];
  input_task = none;
  pending_input = none;
  input_streams = [];
  decoder_tasks = [];
  encoder_tasks = [];
  encoder_output_streams = [];
  next_task = 0;
  started = [];
  stopped = [];
}

pub data MuxTarget : Type 0 where
  to_file : String → MuxTarget
  to_net : String → Option String → MuxTarget

-- FFmpeg: opening an input, a decoder, an encoder, a muxer. `none` is success where nothing is given.
pub record Media : Type 0 where
  pub open_input : InputConfig → Option Options → Result BusError (List AvStream)
  pub new_decoder : AvStream → Option BusError
  pub new_encoder : AvStream → EncoderSettings → Result BusError AvStream
  pub new_output : MuxTarget → Option BusError
  pub add_stream : MuxTarget → AvStream → Option BusError
  pub new_format : String → Option BusError
  pub add_format_stream : String → AvStream → Option BusError
  pub for_encoder_output : AvStream → String → AvStream

-- A width or height that the parameters do not tell.
unfoldable pub ensure_video_dimensions : ℕ → ℕ → ℕ × ℕ
ensure_video_dimensions width height =
    (if width == 0 then 320 else width, if height == 0 then 240 else height)

unfoldable pub pixel_format_for_libx264 : Pixel → Pixel
pixel_format_for_libx264 rgb24 = yuv420p
pixel_format_for_libx264 bgr24 = yuv420p
pixel_format_for_libx264 p = p

abbrev pub or_default {ℓ} : {A : Type ℓ} → Option A → A → A
or_default none a = a
or_default (some b) a = b

unfoldable pub encoder_options_from_config : Option EncodeConfig → Option EncoderOptions
encoder_options_from_config none = none
encoder_options_from_config (some e) =
    some (record { preset = or_default e.preset "ultrafast"; bitrate = e.bitrate })

unfoldable pub encoder_codec_from_config : Option EncodeConfig → String
encoder_codec_from_config none = "h264"
encoder_codec_from_config (some e) = if e.codec == "" then "h264" else e.codec

unfoldable pub audio_settings_from_config : Option EncodeConfig → AudioSettings
audio_settings_from_config none = record {
  codec = some "aac";
  sample_rate = none;
  channels = none;
  bitrate = none;
  sample_format = none;
}
audio_settings_from_config (some e) = record {
  codec = some e.codec;
  sample_rate = e.sample_rate;
  channels = e.channels;
  bitrate = e.audio_bitrate;
  sample_format = none;
}
