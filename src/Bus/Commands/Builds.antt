-- ===== src/Bus/Commands/Builds.antt =====
-- bus.rs: what the helpers of the commands do to the state.
use lite_nvr.Bus.Commands.Steps.{
  start_input-Builds, encoder_task-Builds, decoder_task-Builds, chain, asking, giving,
  prepare-Builds, Builds, Laws,
}
use lite_nvr.Bus.Types.{
  raw, encoded, demuxed, mux, net, file, OutputDest, InputConfig, OutputConfig, AvStream,
}
use lite_nvr.Common.Dict.{lookup}
use lite_nvr.Bus.Choice.{
  try_encoder, try_decoder, build_mux_plan, PlanError, at_index, find_stream, MuxPlanEntry,
}
use lite_nvr.Bus.State.Tasks.{Run}
use lite_nvr.Common.Action.{some_or}
use lite_nvr.Common.{
  ◌&&◌, not, Result, String, string_eq, nat_eq, List, if◌then◌else◌, Bool, ℕ, Option, none, some,
  true, false, [], ◌∷◌, ok, err,
}
use lite_nvr.Bus.Outputs.{
  is_file_net, plan_or_none, prepare_for, plan_for, create_demuxed_output_stream,
  create_encoded_output_stream, is_encoder_format, create_decoder_raw_output_stream, first_stream,
  start_primary, create_mux_output_stream, prepare_if_set, create_mux_output_stream_from_encoder,
  when, spawn_multi_stream_mux, create_mux, create_stream, planned_stream, unless_error,
  planned_source, stream_at, decoder_at, add_planned, encoder_at, start_mux_transcoders, input_at,
  transcoded, copied,
}
use lite_nvr.Bus.Commands.{subscribe}
use lite_nvr.Bus.State.{
  to_net, to_file, MuxTarget, BusError, BusState, Media, input_not_found, encoder_not_found,
  no_encoder_output, no_matching, unsupported_format, stream_not_found, decoder_not_found,
  plan_empty,
}

module _ {R : BusState → BusState → Type 0} (l : Laws R) where
  unless-Builds : (o : Option BusError) → Builds R (unless_error o)
  unless-Builds none = giving l tt
  unless-Builds (some e) = record { grows = λ st. l.refl_at st }

  either :
      {A : Type 0} (b : Bool) {x y : Run A}
      → Builds R x
      → Builds R y
      → Builds R (if b then x else y)
  either true g h = g
  either false g h = h

  encoder_at-Builds : (i : ℕ) → Builds R (encoder_at i)
  encoder_at-Builds i = asking l (λ st. lookup i st.encoder_tasks) encoder_not_found

  stream_at-Builds : (i : ℕ) (e : BusError) → Builds R (stream_at i e)
  stream_at-Builds i e = asking l (λ st. find_stream (at_index i) st.input_streams) e

  input_at-Builds : Builds R input_at
  input_at-Builds = asking l (λ st. st.input_task) input_not_found

  decoder_at-Builds : (i : ℕ) (e : BusError) → Builds R (decoder_at i e)
  decoder_at-Builds i e = asking l (λ st. lookup i st.decoder_tasks) e

module _ {R : BusState → BusState → Type 0} (l : Laws R) (m : Media) where
  pub prepare_if_set-Builds : Builds R (prepare_if_set m)
  unfolding prepare_if_set
  prepare_if_set-Builds = record { grows = λ st. at st.input_config st }
    where
      at : (c : Option InputConfig) (st : BusState) → R st (prepare_for m c st).1
      at none st = l.refl_at st
      at (some c) st = (prepare-Builds l m).grows st

  start_mux-Builds : (plan : List MuxPlanEntry) → Builds R (start_mux_transcoders m plan)
  unfolding start_mux_transcoders
  start_mux-Builds [] = giving l tt
  start_mux-Builds (e ∷ es) =
      either l (e.transcode)
        (chain l (decoder_task-Builds l m e.input_index true) (λ _.
          chain l (encoder_task-Builds l m e.input_index e.encode true) (λ _. start_mux-Builds es)))
        (start_mux-Builds es)

  planned_stream-Builds : (e : MuxPlanEntry) (s : AvStream) → Builds R (planned_stream m e s)
  planned_stream-Builds e s = record { grows = λ st. at (e.transcode) st }
    where
      at :
          (b : Bool) (st : BusState)
          → R st
              (if b
                then some_or (lookup e.input_index st.encoder_output_streams) no_encoder_output st
                else (ok s, st)).1
      at true st =
          (asking l (λ x. lookup e.input_index x.encoder_output_streams) no_encoder_output).grows st
      at false st = l.refl_at st

  planned_source-Builds : (e : MuxPlanEntry) → Builds R (planned_source m e)
  planned_source-Builds e =
      either l (e.transcode)
        (chain l (encoder_at-Builds l e.input_index) (λ t. giving l (transcoded e.input_index t)))
        (giving l (copied e.input_index))

  add_planned-Builds : (t : MuxTarget) (plan : List MuxPlanEntry) → Builds R (add_planned m t plan)
  unfolding add_planned
  add_planned-Builds t [] = giving l []
  add_planned-Builds t (e ∷ es) = chain l (stream_at-Builds l e.input_index no_matching) (λ s.
      chain l (planned_stream-Builds e s) (λ out.
        chain l (unless-Builds l (m.add_stream t out)) (λ _.
          chain l (planned_source-Builds e) (λ source.
            chain l (add_planned-Builds t es) (λ rest. giving l ((out, source) ∷ rest))))))

  spawn-Builds :
      (t : MuxTarget) (plan : List MuxPlanEntry) → Builds R (spawn_multi_stream_mux m t plan)
  unfolding spawn_multi_stream_mux
  spawn-Builds t plan = chain l (unless-Builds l (m.new_output t)) (λ _.
      chain l (add_planned-Builds t plan) (λ added.
        chain l (asking l (λ st. first_stream added) plan_empty)
          (λ primary. chain l (input_at-Builds l) (λ task. giving l _))))

  create_mux-Builds : (t : MuxTarget) (i : ℕ) (o : OutputConfig) → Builds R (create_mux m t i o)
  unfolding create_mux
  create_mux-Builds t i o =
      chain l planned (λ plan. chain l (start_mux-Builds plan) (λ _. spawn-Builds t plan))
    where
      at : (r : Result PlanError (List MuxPlanEntry)) (st : BusState) → R st (plan_or_none r st).1
      at (ok plan) st = l.refl_at st
      at (err e) st = l.refl_at st

      planned : Builds R (plan_for i o)
      planned = record { grows = λ st. at (build_mux_plan st.input_streams i o) st }

  from_encoder-Builds :
      (format : String) (i : ℕ) → Builds R (create_mux_output_stream_from_encoder m format i)
  unfolding create_mux_output_stream_from_encoder
  from_encoder-Builds format i = chain l (encoder_at-Builds l i) (λ t.
      chain l (stream_at-Builds l i no_matching) (λ s.
        chain l
          (unless-Builds l (if is_encoder_format format then none else some unsupported_format))
          (λ _. chain l (unless-Builds l (m.new_format format)) (λ _.
            chain l (unless-Builds l (m.add_format_stream format (m.for_encoder_output s format)))
              (λ _. giving l _)))))

  mux_output-Builds : (format : String) (i : ℕ) → Builds R (create_mux_output_stream m format i)
  unfolding create_mux_output_stream
  mux_output-Builds format i = chain l (input_at-Builds l) (λ t.
      chain l (stream_at-Builds l i no_matching) (λ s.
        chain l (unless-Builds l (m.new_format format))
          (λ _. chain l (unless-Builds l (m.add_format_stream format s)) (λ _. giving l _))))

  pub create-Builds :
      (d : OutputDest) (need : Bool) (i : ℕ) (o : OutputConfig)
      → Builds R (create_stream m d need i o)
  unfolding create_stream create_decoder_raw_output_stream create_encoded_output_stream
      create_demuxed_output_stream
  create-Builds raw need i o =
      chain l (stream_at-Builds l i stream_not_found)
        (λ s. chain l (decoder_at-Builds l i decoder_not_found) (λ d. giving l _))
  create-Builds (file path) need i o = create_mux-Builds (to_file path) i o
  create-Builds (net url format) need i o = create_mux-Builds (to_net url format) i o
  create-Builds (mux format) true i o = from_encoder-Builds format i
  create-Builds (mux format) false i o = mux_output-Builds format i
  create-Builds encoded need i o =
      chain l (stream_at-Builds l i stream_not_found)
        (λ s. chain l (encoder_at-Builds l i) (λ t. giving l _))
  create-Builds demuxed need i o =
      chain l (input_at-Builds l)
        (λ t. chain l (stream_at-Builds l i no_matching) (λ s. giving l _))

  when-Builds : (b : Bool) (r : Run (Unit {0})) → Builds R r → Builds R (when b r)
  when-Builds true r g = g
  when-Builds false r g = giving l tt

  pub start_primary-Builds : (s : AvStream) (o : OutputConfig) → Builds R (start_primary m s o)
  unfolding start_primary
  start_primary-Builds s o =
      chain l
        (when-Builds (not (is_file_net o.dest) && try_decoder s o.dest o.encode) _
          (decoder_task-Builds l m s.index false))
        (λ _.
          when-Builds (not (is_file_net o.dest) && try_encoder s o.dest o.encode) _
            (encoder_task-Builds l m s.index o.encode false))

  pub subscribe-Builds : (p : AvStream → Bool) (e : BusError) → Builds R (subscribe p e m)
  unfolding subscribe
  subscribe-Builds p e = chain l prepare_if_set-Builds (λ _.
      chain l (asking l (λ st. find_stream p st.input_streams) e) (λ s.
        chain l (decoder_task-Builds l m s.index false) (λ _.
          chain l (decoder_at-Builds l s.index decoder_not_found)
            (λ d. chain l (start_input-Builds l) (λ _. giving l d)))))
