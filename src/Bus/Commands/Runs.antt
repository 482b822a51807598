-- ===== src/Bus/Commands/Runs.antt =====
-- Runs of the command loop on one camera.
use lite_nvr.Bus.Commands.Stale.{subscribe-remove_input}
use lite_nvr.Bus.Choice.{at_index, find_stream}
use lite_nvr.Bus.Commands.Outputs.{add_output_twice, answered_ok}
use lite_nvr.Bus.Commands.Grows.{inner_loop-Grows, Grows}
use lite_nvr.Bus.Commands.Sound.{inner_loop-Sound, Sound}
use lite_nvr.Common.{List, refl, none, some, true, false, [], ◌∷◌, ok, err, nat_eq, string_eq, ◌≡◌}
use lite_nvr.Common.Dict.{contains_key, lookup, insert, remove}
use lite_nvr.Bus.Choice.{find_stream}
use lite_nvr.Bus.Types.{
  is_video, new_output, InputConfig, AvStream, OutputConfig, h264, video, yuv420p, net_input,
  video_type, encoded, demuxed,
}
use lite_nvr.Bus.State.{new_state, DecoderTask, BusState, Media, no_video, output_exists}
use lite_nvr.Bus.Commands.{
  unanswered, subscribe, BusCommand, remove_input, inner_loop, add_output, sent, add_input_cmd,
  remove_input_cmd, add_output_cmd, subscribe_video_cmd,
}

abbrev camera_stream : AvStream
camera_stream = record {
  index = 0;
  codec = h264;
  medium = video;
  width = 640;
  height = 480;
  pixel_format = yuv420p;
  sample_rate = 0;
  channels = 0;
}

-- Everything succeeds, and the input has one stream.
abbrev camera : Media
camera = record {
  open_input = λ c o. ok (camera_stream ∷ []);
  new_decoder = λ s. none;
  new_encoder = λ s settings. ok s;
  new_output = λ t. none;
  add_stream = λ t s. none;
  new_format = λ f. none;
  add_format_stream = λ f s. none;
  for_encoder_output = λ s f. s;
}

abbrev door : InputConfig
door = net_input "rtsp://door"

abbrev live : OutputConfig
live = new_output "live" video_type encoded

abbrev again : OutputConfig
again = new_output "live" video_type demuxed

abbrev decoder : DecoderTask
decoder = record { source = 0; stream = camera_stream; lossless = false }

abbrev watched : BusState
watched = record new_state {
  input_config = some door;
  input_task = some 0;
  input_streams = camera_stream ∷ [];
  decoder_tasks = (0, decoder) ∷ [];
  next_task = 1;
  started = 0 ∷ [];
}

abbrev commands : List (Media × BusCommand)
commands =
    (camera, add_input_cmd door none)
    ∷ (camera, subscribe_video_cmd)
    ∷ (camera, remove_input_cmd)
    ∷ (camera, add_output_cmd live)
    ∷ []

-- The first two commands lead to `watched`.
run_watched :
    inner_loop ((camera, add_input_cmd door none) ∷ (camera, subscribe_video_cmd) ∷ []) new_state
    ≡ watched
unfolding inner_loop contains_key lookup insert remove
run_watched = refl

-- Without an input there is no stream, and the caller is not answered.
run_no_input : (add_output camera live new_state).0 ≡ unanswered
unfolding add_output contains_key lookup
run_no_input = refl

inner_loop-Grows_example : Grows watched (inner_loop commands watched)
inner_loop-Grows_example = inner_loop-Grows commands watched

inner_loop-Sound_example : Sound (inner_loop commands new_state)
inner_loop-Sound_example = inner_loop-Sound commands

was_granted : answered_ok (add_output camera live watched).0 ≡ true
unfolding add_output answered_ok contains_key lookup insert remove
was_granted = refl

add_output_twice_example :
    let later = inner_loop commands (add_output camera live watched).1 in
    add_output camera again later ≡ (sent (err output_exists), later)
add_output_twice_example =
    add_output_twice camera camera live again watched commands refl was_granted

is_here : find_stream is_video watched.input_streams ≡ some camera_stream
unfolding find_stream
is_here = refl

is_at_index : find_stream (at_index 0) watched.input_streams ≡ some camera_stream
unfolding find_stream
is_at_index = refl

is_decoded : lookup 0 watched.decoder_tasks ≡ some decoder
unfolding lookup
is_decoded = refl

is_new : contains_key "live" watched.output_config ≡ false
unfolding contains_key lookup
is_new = refl

still_unset :
    (inner_loop ((camera, add_output_cmd live) ∷ []) (remove_input watched).1).input_config ≡ none
unfolding inner_loop contains_key lookup insert remove remove_input
still_unset = refl

subscribe-remove_input_example :
    let removed = (remove_input watched).1 in
    let later = inner_loop ((camera, add_output_cmd live) ∷ []) removed in
    ((subscribe is_video no_video camera later).0 ≡ ok decoder) × (removed.stopped ≡ 0 ∷ [])
subscribe-remove_input_example =
    subscribe-remove_input camera is_video no_video watched camera_stream decoder
      ((camera, add_output_cmd live) ∷ []) refl is_here is_decoded still_unset
