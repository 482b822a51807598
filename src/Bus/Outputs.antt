-- ===== src/Bus/Outputs.antt =====
-- bus.rs: what a command builds for each destination.
use lite_nvr.Common.{
  ℕ, String, string_eq, nat_eq, Bool, true, false, ◌&&◌, ◌||◌, not, Option, none, some, List, [],
  ◌∷◌, Result, ok, err, if◌then◌else◌, ◌==◌,
}
use lite_nvr.Common.Action.{◌>>=◌, ◌>>◌, give, some_or}
use lite_nvr.Common.Dict.{lookup}
use lite_nvr.Bus.Types.{
  AvStream, is_audio, is_video, raw, file, net, mux, encoded, demuxed, OutputConfig, OutputDest,
  video_type, audio_type, InputConfig,
}
use lite_nvr.Bus.Choice.{
  find_stream, at_index, MuxPlanEntry, build_mux_plan, PlanError, try_decoder, try_encoder,
}
use lite_nvr.Bus.State.{
  unsupported_format, decoder_not_found, no_encoder_output, no_matching, encoder_not_found,
  stream_not_found, plan_empty, input_not_found, Media, EncoderTask, DecoderTask, BusError,
  MuxTarget, to_file, to_net,
}
use lite_nvr.Bus.State.Tasks.{Run, prepare_input_task, start_decoder_task, start_encoder_task}

-- A stream of a muxer: copied from the input, or transcoded.
pub data MuxSource : Type 0 where
  copied : ℕ → MuxSource
  transcoded : ℕ → EncoderTask → MuxSource

-- What an output's frames come from.
pub data OutputStream : Type 0 where
  decoder_frames : DecoderTask → OutputStream
  encoder_packets : EncoderTask → OutputStream
  muxed_encoder : String → EncoderTask → OutputStream
  muxed_input : String → ℕ → ℕ → OutputStream
  demuxed_input : ℕ → ℕ → OutputStream
  multi_mux : MuxTarget → ℕ → List MuxSource → OutputStream

abbrev pub Output : Type 0
Output = AvStream × OutputStream

-- A foreign call that gives nothing but an error.
abbrev pub unless_error : Option BusError → Run (Unit {0})
unless_error none st = (ok tt, st)
unless_error (some e) st = (err e, st)

abbrev pub stream_at : ℕ → BusError → Run AvStream
stream_at i e st = some_or (find_stream (at_index i) st.input_streams) e st

abbrev pub encoder_at : ℕ → Run EncoderTask
encoder_at i st = some_or (lookup i st.encoder_tasks) encoder_not_found st

abbrev pub decoder_at : ℕ → BusError → Run DecoderTask
decoder_at i e st = some_or (lookup i st.decoder_tasks) e st

abbrev pub input_at : Run ℕ
input_at st = some_or st.input_task input_not_found st

abbrev pub first_stream : List (AvStream × MuxSource) → Option AvStream
first_stream [] = none
first_stream (p ∷ ps) = some p.0

abbrev pub sources_of : List (AvStream × MuxSource) → List MuxSource
sources_of [] = []
sources_of (p ∷ ps) = p.1 ∷ sources_of ps

abbrev pub plan_or_none : Result PlanError (List MuxPlanEntry) → Run (List MuxPlanEntry)
plan_or_none (ok plan) st = (ok plan, st)
plan_or_none (err e) st = (err no_matching, st)

abbrev pub plan_for : ℕ → OutputConfig → Run (List MuxPlanEntry)
plan_for i output st = plan_or_none (build_mux_plan st.input_streams i output) st

unfoldable pub create_encoded_output_stream : ℕ → Run Output
create_encoded_output_stream i =
    stream_at i stream_not_found >>= λ s. encoder_at i >>= λ t. give (s, encoder_packets t)

-- The formats that `create_mux_output_stream_from_encoder` knows.
abbrev pub is_encoder_format : String → Bool
is_encoder_format format =
    format == "h264"
    || (format == "hevc"
        || (format == "h265" || (format == "aac" || (format == "adts" || format == "opus"))))

unfoldable pub create_demuxed_output_stream : ℕ → Run Output
create_demuxed_output_stream i =
    input_at >>= λ t. stream_at i no_matching >>= λ s. give (s, demuxed_input t s.index)

unfoldable pub create_decoder_raw_output_stream : ℕ → Run Output
create_decoder_raw_output_stream i = stream_at i stream_not_found >>= λ s.
    decoder_at i decoder_not_found >>= λ d. give (s, decoder_frames d)

abbrev pub is_file_net : OutputDest → Bool
is_file_net (file path) = true
is_file_net (net url format) = true
is_file_net _ = false

abbrev pub when : Bool → Run (Unit {0}) → Run (Unit {0})
when true r = r
when false r = give tt

abbrev pub of_type : OutputConfig → AvStream → Bool
of_type o s = elim o.av_type [ video_type ↦ is_video s | audio_type ↦ is_audio s ]

module _ (m : Media) where
  -- The decoder and the encoder of each transcoded entry.
  unfoldable pub start_mux_transcoders : List MuxPlanEntry → Run (Unit {0})
  unfolding start_decoder_task start_encoder_task
  start_mux_transcoders [] = give tt
  start_mux_transcoders (e ∷ es) =
      let rest = start_mux_transcoders es in
      if e.transcode
      then (start_decoder_task m e.input_index true
          >> (start_encoder_task m e.input_index e.encode true >> rest))
      else rest

  abbrev pub planned_stream : MuxPlanEntry → AvStream → Run AvStream
  planned_stream e s st =
      if e.transcode
      then some_or (lookup e.input_index st.encoder_output_streams) no_encoder_output st
      else (ok s, st)

  abbrev pub planned_source : MuxPlanEntry → Run MuxSource
  planned_source e =
      if e.transcode
      then (encoder_at e.input_index >>= λ t. give (transcoded e.input_index t))
      else give (copied e.input_index)

  -- The loop over the plan.
  unfoldable pub add_planned : MuxTarget → List MuxPlanEntry → Run (List (AvStream × MuxSource))
  add_planned target [] = give []
  add_planned target (e ∷ es) = stream_at e.input_index no_matching >>= λ s.
      planned_stream e s >>= λ out. unless_error (m.add_stream target out) >>= λ _.
      planned_source e >>= λ source. add_planned target es >>= λ rest. give ((out, source) ∷ rest)

  unfoldable pub spawn_multi_stream_mux : MuxTarget → List MuxPlanEntry → Run Output
  unfolding add_planned
  spawn_multi_stream_mux target plan = unless_error (m.new_output target) >>= λ _.
      add_planned target plan >>= λ added. some_or (first_stream added) plan_empty >>= λ primary.
      input_at >>= λ t. give (primary, multi_mux target t (sources_of added))

  unfoldable pub create_mux : MuxTarget → ℕ → OutputConfig → Run Output
  unfolding spawn_multi_stream_mux start_mux_transcoders build_mux_plan
  create_mux target i output = plan_for i output >>= λ plan.
      start_mux_transcoders plan >>= λ _. spawn_multi_stream_mux target plan

  unfoldable pub create_mux_output_stream_from_encoder : String → ℕ → Run Output
  create_mux_output_stream_from_encoder format i = encoder_at i >>= λ t.
      stream_at i no_matching >>= λ s.
      unless_error (if is_encoder_format format then none else some unsupported_format) >>= λ _.
      unless_error (m.new_format format) >>= λ _.
      unless_error (m.add_format_stream format (m.for_encoder_output s format)) >>= λ _.
      give (m.for_encoder_output s format, muxed_encoder format t)

  unfoldable pub create_mux_output_stream : String → ℕ → Run Output
  create_mux_output_stream format i = input_at >>= λ t. stream_at i no_matching >>= λ s.
      unless_error (m.new_format format) >>= λ _.
      unless_error (m.add_format_stream format s) >>= λ _. give (s, muxed_input format t s.index)

  unfoldable pub create_stream : OutputDest → Bool → ℕ → OutputConfig → Run Output
  unfolding create_decoder_raw_output_stream create_mux create_mux_output_stream_from_encoder
      create_mux_output_stream create_encoded_output_stream create_demuxed_output_stream
  create_stream raw need_encoder i output = create_decoder_raw_output_stream i
  create_stream (file path) need_encoder i output = create_mux (to_file path) i output
  create_stream (net url format) need_encoder i output = create_mux (to_net url format) i output
  create_stream (mux format) need_encoder i output =
      if need_encoder
      then create_mux_output_stream_from_encoder format i
      else create_mux_output_stream format i
  create_stream encoded need_encoder i output = create_encoded_output_stream i
  create_stream demuxed need_encoder i output = create_demuxed_output_stream i

  -- The tasks that the handler itself starts.
  unfoldable pub start_primary : AvStream → OutputConfig → Run (Unit {0})
  unfolding start_decoder_task start_encoder_task try_decoder try_encoder
  start_primary s o =
      when (not (is_file_net o.dest) && try_decoder s o.dest o.encode)
        (start_decoder_task m s.index false)
      >> when (not (is_file_net o.dest) && try_encoder s o.dest o.encode)
          (start_encoder_task m s.index o.encode false)

  abbrev pub prepare_for : Option InputConfig → Run (Unit {0})
  prepare_for none st = (ok tt, st)
  prepare_for (some c) st = prepare_input_task m st

  -- `input_config.is_some()`; `prepare_input_task` asks for the task itself.
  unfoldable pub prepare_if_set : Run (Unit {0})
  unfolding prepare_input_task
  prepare_if_set st = prepare_for st.input_config st
