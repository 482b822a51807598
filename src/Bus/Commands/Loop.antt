-- ===== src/Bus/Commands/Loop.antt =====
-- bus.rs: what the command loop does to the state, from the laws of its writes.
use lite_nvr.Bus.Commands.Builds.{
  prepare_if_set-Builds, start_primary-Builds, subscribe-Builds, create-Builds,
}
use lite_nvr.Bus.Commands.Steps.{prepare-Builds, chain, start_input-Builds, Builds, Laws}
use lite_nvr.Bus.Types.{is_video, is_audio, InputConfig, OutputConfig, AvStream}
use lite_nvr.Common.Dict.{contains_key, insert}
use lite_nvr.Bus.Choice.{try_encoder, find_stream}
use lite_nvr.Common.{
  inr, inl, Bool-cases, Result, String, string_eq, nat_eq, List, ℕ, Option, none, some, [], ◌∷◌, ok,
  err,
}
use lite_nvr.Bus.Outputs.{of_type, Output, start_primary, prepare_if_set, create_stream}
use lite_nvr.Bus.Commands.{
  remove_input_cmd, subscribe_audio_cmd, subscribe_video_cmd, no_video, after_prepare,
  choose_stream, no_audio, build_output, add_input_to, start_if_outputs, add_output_cmd,
  start_added, finish_output, add_input_cmd, BusCommand, add_output, add_input, remove_input,
  inner_loop, handle,
}
use lite_nvr.Bus.State.{Options, BusError, BusState, Media}

pub record LoopLaws (R : BusState → BusState → Type 0) : Type 0 where
  pub laws : Laws R
  pub accepts :
      (st : BusState) (input : InputConfig) (options : Option Options)
      → R st (record st { input_config = some input; input_options = options })
  pub records :
      (st : BusState) (o : OutputConfig)
      → R st (record st { output_config = insert o.id o st.output_config })
  pub removes : (st : BusState) → R st (remove_input st).1

module _ {R : BusState → BusState → Type 0} (l : LoopLaws R) (m : Media) where
  add_input-Builds :
      (input : InputConfig) (options : Option Options) → Builds R (add_input m input options)
  unfolding add_input
  add_input-Builds input options = record { grows = λ st. taken st.input_config st }
    where
      opening : (t : Option ℕ) (st : BusState) → R st (start_added m t st).1
      opening (some t) st = l.laws.refl_at st
      opening none st =
          (chain l.laws (prepare-Builds l.laws m) (λ _. start_input-Builds l.laws)).grows st

      with_outputs :
          (os : List (String × OutputConfig)) (st : BusState) → R st (start_if_outputs m os st).1
      with_outputs [] st = l.laws.refl_at st
      with_outputs (o ∷ os) st = opening st.input_task st

      taken : (c : Option InputConfig) (st : BusState) → R st (add_input_to m input options c st).1
      taken (some c) st = l.laws.refl_at st
      taken none st = l.laws.trans_at _ _ _ (l.accepts st input options) (
          with_outputs st.output_config
            (record st { input_config = some input; input_options = options }))

  add_output-R : (o : OutputConfig) (st : BusState) → R st (add_output m o st).1
  unfolding add_output
  add_output-R o st = elim (Bool-cases (contains_key o.id st.output_config)) [
    | inl h ↦ rw h (l.laws.refl_at st)
    | inr h ↦ rw h (prepared (prepare_if_set m st) ((prepare_if_set-Builds l.laws m).grows st))
  ]
    where
      finished :
          (st : BusState) (r : Result BusError Output × BusState)
          → R st r.1
          → R st (finish_output o r).1
      finished st (err e, st') g = g
      finished st (ok out, st') g = l.laws.trans_at _ _ _ g (
          l.laws.trans_at _ _ _ (l.records st' o) (
            (start_input-Builds l.laws).grows
              (record st' { output_config = insert o.id o st'.output_config })))

      built :
          (st : BusState) (s : AvStream) (r : Result BusError (Unit {0}) × BusState)
          → R st r.1
          → R st (build_output m s o r).1
      built st s (err e, st') g = g
      built st s (ok u, st') g =
          finished st (create_stream m o.dest (try_encoder s o.dest o.encode) s.index o st')
            (l.laws.trans_at _ _ _ g ((create-Builds l.laws m o.dest _ s.index o).grows st'))

      chosen : (p : Option AvStream) (st : BusState) → R st (choose_stream m o p st).1
      chosen none st = l.laws.refl_at st
      chosen (some s) st =
          built st s (start_primary m s o st) ((start_primary-Builds l.laws m s o).grows st)

      prepared :
          (r : Result BusError (Unit {0}) × BusState) → R st r.1 → R st (after_prepare m o r).1
      prepared (err e, st') g = g
      prepared (ok u, st') g =
          l.laws.trans_at _ _ _ g (chosen (find_stream (of_type o) st'.input_streams) st')

  pub handle-R : (c : BusCommand) (st : BusState) → R st (handle m c st)
  unfolding handle
  handle-R (add_input_cmd input options) st = (add_input-Builds input options).grows st
  handle-R remove_input_cmd st = l.removes st
  handle-R (add_output_cmd o) st = add_output-R o st
  handle-R subscribe_audio_cmd st = (subscribe-Builds l.laws m is_audio no_audio).grows st
  handle-R subscribe_video_cmd st = (subscribe-Builds l.laws m is_video no_video).grows st

pub inner_loop-R :
    {R : BusState → BusState → Type 0} (l : LoopLaws R) (cs : List (Media × BusCommand))
    (st : BusState)
    → R st (inner_loop cs st)
unfolding inner_loop
inner_loop-R l [] st = l.laws.refl_at st
inner_loop-R l ((m, c) ∷ cs) st =
    l.laws.trans_at st (handle m c st) _ (handle-R l m c st) (inner_loop-R l cs (handle m c st))
