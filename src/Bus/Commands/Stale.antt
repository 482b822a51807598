-- ===== src/Bus/Commands/Stale.antt =====
-- bus.rs: what is left of an input after it has been removed.
use lite_nvr.Bus.Choice.Found.{find-at_index}
use lite_nvr.Common.Dict.{lookup}
use lite_nvr.Bus.State.{DecoderTask, BusState, BusError, Media}
use lite_nvr.Bus.State.Tasks.{
  note_started, start_pending, decoder_for, start_input_task, start_decoder_task,
}
use lite_nvr.Bus.Types.{AvStream}
use lite_nvr.Common.Dict.{contains_key, contains-lookup, is_some}
use lite_nvr.Bus.Outputs.{prepare_if_set}
use lite_nvr.Bus.Commands.{subscribe, remove_input, inner_loop, BusCommand}
use lite_nvr.Bus.Commands.Grows.{inner_loop-Grows}
use lite_nvr.Bus.Choice.{find_stream}
use lite_nvr.Common.{
  ap, Bool, refl, some, none, List, Option-cases, inl, inr, true, ◌∷◌, ok, nat_eq, string_eq, ◌≡◌,
  ◌∙◌,
}

given :
    (m : Media) (p : AvStream → Bool) (missing : BusError) (st : BusState) (s : AvStream)
    (d : DecoderTask)
    → st.input_config ≡ none
    → find_stream p st.input_streams ≡ some s
    → lookup s.index st.decoder_tasks ≡ some d
    → (subscribe p missing m st).0 ≡ ok d
unfolding subscribe prepare_if_set start_decoder_task start_input_task decoder_for start_pending
given m p missing st s d unset found is_d =
    let has : contains_key s.index st.decoder_tasks ≡ true =
      contains-lookup s.index st.decoder_tasks ∙ ap is_some is_d in
    let x = find-at_index p s st.input_streams found in
    elim (Option-cases st.pending_input) [
      | inl none_waits ↦ rw (unset, found, x.1, has, is_d, none_waits) refl
      | inr (i, waits) ↦ rw (unset, found, x.1, has, is_d, waits) refl
    ]

-- When the input is removed while a decoder of it runs, and any commands follow after which no input
-- is set, a subscription to its stream still succeeds, whatever FFmpeg would answer, and is given
-- that decoder, whose task the removal has stopped.
pub subscribe-remove_input :
    (m : Media) (p : AvStream → Bool) (missing : BusError) (st : BusState) (s : AvStream)
    (d : DecoderTask) (cs : List (Media × BusCommand))
    → st.input_task ≡ some d.source
    → find_stream p st.input_streams ≡ some s
    → lookup s.index st.decoder_tasks ≡ some d
    → let removed = (remove_input st).1 in
      let later = inner_loop cs removed in
      later.input_config ≡ none
      → ((subscribe p missing m later).0 ≡ ok d) × (removed.stopped ≡ d.source ∷ st.stopped)
unfolding remove_input
subscribe-remove_input m p missing st s d cs running found is_d unset =
    let g = inner_loop-Grows cs (remove_input st).1 in
    (
      given m p missing (inner_loop cs (remove_input st).1) s d unset (g.streams p s found)
          (g.decoders s.index d is_d),
      ap (λ t. note_started t st.stopped) running,
    )
