-- ===== src/Bus/State/Tasks.antt =====
-- bus.rs: how the input, decoder and encoder tasks are started.
use lite_nvr.Bus.State.{
  video_settings, audio_settings, audio_settings_from_config, encoder_codec_from_config, frames,
  EncoderSettings, config_not_set, decoder_not_found, encoder_options_from_config, packets,
  input_not_found, EncoderTask, pixel_format_for_libx264, stream_not_found, EncoderSource, Media,
  DecoderTask, BusState, or_default, ensure_video_dimensions, BusError,
}
use lite_nvr.Common.{
  ◌||◌, ℕ, ◌+◌, nat_eq, Bool, Option, none, some, List, ◌∷◌, ◌++◌, Result, ok, err, if◌then◌else◌,
}
use lite_nvr.Common.Action.{Action}
use lite_nvr.Common.Dict.{insert, lookup, contains_key}
use lite_nvr.Bus.Types.{
  InputConfig, AvStream, is_audio, ◌is◌, rawvideo, wrapped_avframe, yuv420p, EncodeConfig,
}
use lite_nvr.Bus.Choice.{find_stream, at_index}

abbrev pub Run : Type 0 → Type 0
Run A = Action BusState BusError A

abbrev pub Done : Type 0
Done = Result BusError (Unit {0}) × BusState

-- What FFmpeg answered to the opening.
unfoldable pub opened : Result BusError (List AvStream) → Run (Unit {0})
opened (err e) st = (err e, st)
opened (ok streams) st = (
  ok tt,
  record st {
    input_streams = st.input_streams ++ streams;
    input_task = some st.next_task;
    pending_input = some streams;
    next_task = st.next_task + 1;
  },
)

-- The first argument is the input task, the second the configuration.
unfoldable pub prepare_at : Media → Option ℕ → Option InputConfig → Run (Unit {0})
unfolding opened
prepare_at m (some t) config st = (ok tt, st)
prepare_at m none none st = (err config_not_set, st)
prepare_at m none (some config) st = opened (m.open_input config st.input_options) st

unfoldable pub prepare_input_task : Media → Run (Unit {0})
unfolding prepare_at
prepare_input_task m st = prepare_at m st.input_task st.input_config st

abbrev pub note_started : Option ℕ → List ℕ → List ℕ
note_started none l = l
note_started (some t) l = t ∷ l

unfoldable pub start_pending : Option (List AvStream) → Run (Unit {0})
start_pending none st = (ok tt, st)
start_pending (some input) st =
    (ok tt, record st { pending_input = none; started = note_started st.input_task st.started })

unfoldable pub start_input_task : Run (Unit {0})
unfolding start_pending
start_input_task st = start_pending st.pending_input st

unfoldable pub decoder_made : Option BusError → ℕ → DecoderTask → Run (Unit {0})
decoder_made (some e) i d st = (err e, st)
decoder_made none i d st = (ok tt, record st { decoder_tasks = insert i d st.decoder_tasks })

unfoldable pub decoder_from : Media → Option ℕ → ℕ → AvStream → Bool → Run (Unit {0})
unfolding decoder_made
decoder_from m none i s lossless st = (err input_not_found, st)
decoder_from m (some t) i s lossless st =
    decoder_made (m.new_decoder s) i (record { source = t; stream = s; lossless = lossless }) st

unfoldable pub decoder_for : Media → Option AvStream → ℕ → Bool → Run (Unit {0})
unfolding decoder_from
decoder_for m none i lossless st = (err stream_not_found, st)
decoder_for m (some s) i lossless st =
    if contains_key i st.decoder_tasks
    then (ok tt, st)
    else if s.codec is rawvideo
    then (ok tt, st)
    else decoder_from m st.input_task i s lossless st

unfoldable pub start_decoder_task : Media → ℕ → Bool → Run (Unit {0})
unfolding decoder_for
start_decoder_task m i lossless st =
    decoder_for m (find_stream (at_index i) st.input_streams) i lossless st

-- What the encoder is given: the source, if there is one, or the error.
abbrev pub frames_or : Option DecoderTask → Result BusError EncoderSource
frames_or none = err decoder_not_found
frames_or (some d) = ok (frames d)

abbrev pub packets_or : Option ℕ → Result BusError EncoderSource
packets_or none = err input_not_found
packets_or (some t) = ok (packets t)

unfoldable pub encoder_source : AvStream → ℕ → BusState → Result BusError EncoderSource
encoder_source s i st =
    if is_audio s
    then frames_or (lookup i st.decoder_tasks)
    else if s.codec is rawvideo
    then packets_or st.input_task
    else frames_or (lookup i st.decoder_tasks)

abbrev pub wish : (EncodeConfig → Option ℕ) → Option EncodeConfig → ℕ → ℕ
wish f none n = n
wish f (some e) n = or_default (f e) n

unfoldable pub encoder_settings : AvStream → Option EncodeConfig → EncoderSettings
unfolding ensure_video_dimensions pixel_format_for_libx264 encoder_options_from_config
    encoder_codec_from_config audio_settings_from_config
encoder_settings s encode =
    let own = ensure_video_dimensions s.width s.height in
    let wished =
      ensure_video_dimensions (wish (λ e. e.width) encode s.width)
        (wish (λ e. e.height) encode s.height) in
    let is_raw = s.codec is rawvideo || s.codec is wrapped_avframe in
    if is_audio s
    then audio_settings (audio_settings_from_config encode)
    else video_settings
        (record {
          width = if is_raw then own.0 else wished.0;
          height = if is_raw then own.1 else wished.1;
          keyframe_interval = 25;
          codec = some (encoder_codec_from_config encode);
          pixel_format = if is_raw then pixel_format_for_libx264 s.pixel_format else yuv420p;
        })
        (encoder_options_from_config encode)

unfoldable pub encoder_made : Result BusError AvStream → ℕ → EncoderTask → Run (Unit {0})
encoder_made (err e) i task st = (err e, st)
encoder_made (ok out) i task st = (
  ok tt,
  record st {
    encoder_tasks = insert i task st.encoder_tasks;
    encoder_output_streams = insert i out st.encoder_output_streams;
  },
)

unfoldable pub encoder_from :
    Media → Result BusError EncoderSource → ℕ → AvStream → EncoderSettings → Bool → Run (Unit {0})
unfolding encoder_made
encoder_from m (err e) i s settings lossless st = (err e, st)
encoder_from m (ok source) i s settings lossless st =
    encoder_made (m.new_encoder s settings) i
      (record { source = source; stream = s; settings = settings; lossless = lossless }) st

unfoldable pub encoder_for :
    Media → Option AvStream → ℕ → Option EncodeConfig → Bool → Run (Unit {0})
unfolding encoder_from encoder_source
encoder_for m none i encode lossless st = (err stream_not_found, st)
encoder_for m (some s) i encode lossless st =
    if contains_key i st.encoder_tasks
    then (ok tt, st)
    else encoder_from m (encoder_source s i st) i s (encoder_settings s encode) lossless st

unfoldable pub start_encoder_task : Media → ℕ → Option EncodeConfig → Bool → Run (Unit {0})
unfolding encoder_for
start_encoder_task m i encode lossless st =
    encoder_for m (find_stream (at_index i) st.input_streams) i encode lossless st
