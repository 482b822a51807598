-- ===== src/Bus/Commands.antt =====
-- bus.rs: `inner_command_handler`.
pub mod Builds
pub mod Granted
pub mod Grows
pub mod Loop
pub mod Outputs
pub mod Sound
pub mod Stale
pub mod Steps
mod Runs
use lite_nvr.Common.{
  ℕ, ◌+◌, String, string_eq, nat_eq, Bool, true, false, ◌&&◌, ◌||◌, not, Option, none, some, List,
  [], ◌∷◌, Result, ok, err, if◌then◌else◌, ◌==◌,
}
use lite_nvr.Common.Action.{Action, ◌>>=◌, ◌>>◌, give, fail, some_or, ask, write, lift}
use lite_nvr.Common.Dict.{Dict, insert, lookup, contains_key}
use lite_nvr.Bus.Types.{
  AvStream, is_audio, is_video, raw, file, net, mux, encoded, demuxed, OutputConfig, OutputDest,
  video_type, audio_type, InputConfig,
}
use lite_nvr.Bus.Choice.{
  find_stream, at_index, MuxPlanEntry, build_mux_plan, PlanError, try_decoder, try_encoder,
}
use lite_nvr.Bus.State.{
  input_exists, output_exists, unsupported_format, no_video, decoder_not_found, no_encoder_output,
  no_audio, no_matching, encoder_not_found, stream_not_found, plan_empty, input_not_found, BusState,
  Media, EncoderTask, DecoderTask, BusError, foreign, MuxTarget, to_file, to_net, Options,
}
use lite_nvr.Bus.State.Tasks.{
  note_started, Run, Done, start_input_task, prepare_input_task, start_decoder_task,
  start_encoder_task,
}
use lite_nvr.Bus.Outputs.{Output, create_stream, decoder_at, of_type, prepare_if_set, start_primary}

-- What the caller gets: a result, or nothing, since an early return drops the sender.
pub data Answer (A : Type 0) : Type 0 where
  sent : Result BusError A → Answer A
  unanswered : Answer A

-- `Ok` is sent once the input runs.
abbrev pub finish_output :
    OutputConfig → Result BusError Output × BusState → Answer Output × BusState
finish_output o (err e, st) = (sent (err e), st)
finish_output o (ok out, st) = (
  sent (ok out),
  (start_input_task (record st { output_config = insert o.id o st.output_config })).1,
)

abbrev pub build_output :
    Media
    → AvStream
    → OutputConfig
    → Result BusError (Unit {0}) × BusState
    → Answer Output × BusState
build_output m s o (err e, st) = (unanswered, st)
build_output m s o (ok u, st) =
    finish_output o (create_stream m o.dest (try_encoder s o.dest o.encode) s.index o st)

abbrev pub choose_stream :
    Media → OutputConfig → Option AvStream → BusState → Answer Output × BusState
choose_stream m o none st = (unanswered, st)
choose_stream m o (some s) st = build_output m s o (start_primary m s o st)

abbrev pub after_prepare :
    Media → OutputConfig → Result BusError (Unit {0}) × BusState → Answer Output × BusState
after_prepare m o (err e, st) = (sent (err e), st)
after_prepare m o (ok u, st) = choose_stream m o (find_stream (of_type o) st.input_streams) st

unfoldable pub add_output : Media → OutputConfig → BusState → Answer Output × BusState
unfolding create_stream start_primary prepare_if_set start_input_task
add_output m o st =
    if contains_key o.id st.output_config
    then (sent (err output_exists), st)
    else after_prepare m o (prepare_if_set m st)

-- With the input and its outputs there, and no input task yet, the input starts.
abbrev pub start_added : Media → Option ℕ → Run (Unit {0})
start_added m none st = (prepare_input_task m >> start_input_task) st
start_added m (some t) st = (ok tt, st)

abbrev pub start_if_outputs : Media → List (String × OutputConfig) → Run (Unit {0})
start_if_outputs m [] st = (ok tt, st)
start_if_outputs m (o ∷ os) st = start_added m st.input_task st

abbrev pub add_input_to : Media → InputConfig → Option Options → Option InputConfig → Run (Unit {0})
add_input_to m input options (some c) st = (err input_exists, st)
add_input_to m input options none st =
    start_if_outputs m st.output_config
      (record st { input_config = some input; input_options = options })

unfoldable pub add_input : Media → InputConfig → Option Options → Run (Unit {0})
unfolding prepare_input_task start_input_task
add_input m input options st = add_input_to m input options st.input_config st

unfoldable pub remove_input : Run (Unit {0})
remove_input st = (
  ok tt,
  record st {
    input_task = none;
    stopped = note_started st.input_task st.stopped;
    pending_input = none;
    input_config = none;
  },
)

-- Both subscriptions: `p` picks the stream.
unfoldable pub subscribe : (AvStream → Bool) → BusError → Media → Run DecoderTask
unfolding prepare_if_set start_decoder_task start_input_task
subscribe p missing m = prepare_if_set m >>= λ _.
    (λ (st : BusState). some_or (find_stream p st.input_streams) missing st) >>= λ s.
    start_decoder_task m s.index false >>= λ _.
    decoder_at s.index decoder_not_found >>= λ d. start_input_task >>= λ _. give d

pub data BusCommand : Type 0 where
  add_input_cmd : InputConfig → Option Options → BusCommand
  remove_input_cmd : BusCommand
  add_output_cmd : OutputConfig → BusCommand
  subscribe_audio_cmd : BusCommand
  subscribe_video_cmd : BusCommand

-- The state after a command. A failed command is logged, and the loop goes on.
unfoldable pub handle : Media → BusCommand → BusState → BusState
unfolding add_input remove_input add_output subscribe
handle m (add_input_cmd input options) st = (add_input m input options st).1
handle m remove_input_cmd st = (remove_input st).1
handle m (add_output_cmd o) st = (add_output m o st).1
handle m subscribe_audio_cmd st = (subscribe is_audio no_audio m st).1
handle m subscribe_video_cmd st = (subscribe is_video no_video m st).1

unfoldable pub inner_loop : List (Media × BusCommand) → BusState → BusState
unfolding handle
inner_loop [] st = st
inner_loop ((m, c) ∷ cs) st = inner_loop cs (handle m c st)
