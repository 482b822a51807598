-- ===== src/Bus/Choice.antt =====
-- bus.rs: which streams an output decodes, encodes or copies.
pub mod Found
pub mod Plans
mod Runs
use lite_nvr.Common.{
  ℕ, String, string_eq, nat_eq, Bool, true, false, not, ◌||◌, ◌&&◌, Option, none, some, List, [],
  ◌∷◌, ◌==◌, if◌then◌else◌, Result, ok, err, ◌++◌,
}
use lite_nvr.Common.Text.{folds_to}
use lite_nvr.Bus.Types.{
  CodecId, h264, hevc, aac, opus, mjpeg, vp8, vp9, av1, mp3, rawvideo, wrapped_avframe, other_codec,
  ◌is◌, AvStream, is_video, is_audio, OutputDest, net, file, raw, mux, encoded, demuxed,
  EncodeConfig, OutputConfig,
}

-- The names, in the source's order.
unfoldable pub codec_id_from_name : String → Option CodecId
codec_id_from_name name =
    let named = folds_to name in
    if named "h264" || (named "avc" || named "libx264")
    then some h264
    else if named "hevc" || (named "h265" || named "libx265")
    then some hevc
    else if named "aac"
    then some aac
    else if named "opus" || named "libopus"
    then some opus
    else if named "mjpeg"
    then some mjpeg
    else if named "vp8" || named "libvpx"
    then some vp8
    else if named "vp9" || named "libvpx-vp9"
    then some vp9
    else if named "av1"
    then some av1
    else if named "mp3" || named "libmp3lame"
    then some mp3
    else if named "rawvideo"
    then some rawvideo
    else none

abbrev pub differs : Option ℕ → ℕ → Bool
differs none n = false
differs (some m) n = not (m == n)

abbrev pub is_target : Option CodecId → CodecId → Bool
is_target none c = false
is_target (some target) c = target is c

unfoldable pub encode_needed_params : CodecId → Bool → ℕ → ℕ → ℕ → ℕ → EncodeConfig → Bool
unfolding codec_id_from_name
encode_needed_params input_codec video width height sample_rate channels encode =
    if is_target (codec_id_from_name encode.codec) input_codec
    then if video
      then differs encode.width width || differs encode.height height
      else differs encode.sample_rate sample_rate || differs encode.channels channels
    else true

unfoldable pub encode_needed : AvStream → EncodeConfig → Bool
unfolding encode_needed_params
encode_needed s encode =
    encode_needed_params s.codec (is_video s) s.width s.height s.sample_rate s.channels encode

-- The test that a muxer's format makes of the input's codec.
unfoldable pub mux_encodes : String → CodecId → Bool
mux_encodes format c =
    if format == "h264"
    then not (c is h264)
    else if format == "hevc" || format == "h265"
    then not (c is hevc)
    else if format == "aac" || format == "adts"
    then not (c is aac)
    else if format == "opus"
    then not (c is opus)
    else false

abbrev pub asks_encode : AvStream → Option EncodeConfig → Bool
asks_encode s none = false
asks_encode s (some e) = encode_needed s e

abbrev pub is_raw_codec : CodecId → Bool
is_raw_codec c = c is rawvideo || c is wrapped_avframe

-- The function never fails: its result is always `Ok`.
unfoldable pub try_encoder : AvStream → OutputDest → Option EncodeConfig → Bool
unfolding mux_encodes encode_needed
try_encoder s raw encode = false
try_encoder s demuxed encode = false
try_encoder s encoded encode = true
try_encoder s (mux format) encode =
    if is_video s && is_raw_codec s.codec
    then true
    else if mux_encodes format s.codec
    then true
    else asks_encode s encode
try_encoder s _ encode = if is_video s && is_raw_codec s.codec then true else asks_encode s encode

abbrev pub dest_decodes : AvStream → OutputDest → Option EncodeConfig → Bool
dest_decodes s raw encode = true
dest_decodes s (file path) encode = false
dest_decodes s (mux format) encode =
    if is_video s
    then s.codec is wrapped_avframe || try_encoder s (mux format) encode
    else try_encoder s (mux format) encode
dest_decodes s (net url format) encode =
    if is_audio s then try_encoder s (net url format) encode else true
dest_decodes s encoded encode = true
dest_decodes s demuxed encode = false

unfoldable pub try_decoder : AvStream → OutputDest → Option EncodeConfig → Bool
unfolding try_encoder
try_decoder s dest encode = if s.codec is rawvideo then false else dest_decodes s dest encode

pub record MuxPlanEntry : Type 0 where
  pub input_index : ℕ
  pub transcode : Bool
  pub encode : Option EncodeConfig
  pub codec_id : CodecId

abbrev pub target_codec : Option EncodeConfig → CodecId → CodecId
target_codec none c = c
target_codec (some e) c = elim (codec_id_from_name e.codec) [ none ↦ c | some target ↦ target ]

unfoldable pub plan_entry : AvStream → Option EncodeConfig → MuxPlanEntry
unfolding encode_needed codec_id_from_name
plan_entry s encode =
    let transcode = asks_encode s encode in
    record {
      input_index = s.index;
      transcode = transcode;
      encode = if transcode then encode else none;
      codec_id = if transcode then target_codec encode s.codec else s.codec;
    }

-- `find`: the first stream that passes.
unfoldable pub find_stream : (AvStream → Bool) → List AvStream → Option AvStream
find_stream p [] = none
find_stream p (s ∷ ss) = let rest = find_stream p ss in if p s then some s else rest

abbrev pub at_index : ℕ → AvStream → Bool
at_index i s = s.index == i

pub data PlanError : Type 0 where
  no_matching_stream : PlanError

abbrev pub audio_entries : Bool → Option AvStream → Option EncodeConfig → List MuxPlanEntry
audio_entries true (some s) encode = plan_entry s encode ∷ []
audio_entries _ _ encode = []

unfoldable pub build_mux_plan :
    List AvStream → ℕ → OutputConfig → Result PlanError (List MuxPlanEntry)
unfolding plan_entry find_stream
build_mux_plan streams primary_index output = elim (find_stream (at_index primary_index) streams) [
  | none ↦ err no_matching_stream
  | some primary ↦ ok (
      plan_entry primary output.encode
      ∷ audio_entries (output.include_audio && is_video primary) (find_stream is_audio streams)
          output.audio_encode)
]
