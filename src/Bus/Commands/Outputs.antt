-- ===== src/Bus/Commands/Outputs.antt =====
-- bus.rs: which outputs the bus knows.
use lite_nvr.Bus.Commands.Builds.{prepare_if_set-Builds, start_primary-Builds, create-Builds}
use lite_nvr.Bus.Choice.{find_stream, try_encoder}
use lite_nvr.Bus.Commands.Grows.{inner_loop-Grows}
use lite_nvr.Common.Dict.{contains-insert, contains_key, insert, Dict}
use lite_nvr.Bus.Outputs.{prepare_if_set, of_type, start_primary, create_stream, Output}
use lite_nvr.Bus.Commands.{
  after_prepare, choose_stream, unanswered, sent, build_output, output_exists, finish_output,
  inner_loop, BusCommand, add_output, Answer,
}
use lite_nvr.Bus.State.{BusError, Media, BusState}
use lite_nvr.Bus.Types.{AvStream, OutputConfig}
use lite_nvr.Bus.Commands.Steps.{start_input-Builds, Laws}
use lite_nvr.Common.{
  Option, sym, ap, String, Result, List, Bool, refl, Bool-cases, inl, inr, none, some, true, false,
  ok, err, nat_eq, string_eq, if◌then◌else◌, ◌≡◌, ◌∙◌,
}

abbrev SameOutputs : BusState → BusState → Type 0
SameOutputs st st' = st'.output_config ≡ st.output_config

same_laws : Laws SameOutputs
same_laws = record {
  refl_at = λ st. refl;
  trans_at = λ a b c f g. g ∙ f;
  opens = λ st streams. refl;
  starts = λ st input e. refl;
  decodes = λ st i t s lossless is_t new. refl;
  encodes = λ st i task out new. refl;
}

unfoldable pub answered_ok : {A : Type 0} → Answer A → Bool
answered_ok (sent (ok a)) = true
answered_ok (sent (err e)) = false
answered_ok unanswered = false

abbrev pub recorded : OutputConfig → BusState → Bool → Dict String OutputConfig
recorded o st b = if b then insert o.id o st.output_config else st.output_config

-- An output is recorded under its identifier exactly when the caller is told `Ok`: with every
-- other answer, or none, the table of outputs is what it was.
pub add_output-recorded :
    (m : Media) (o : OutputConfig) (st : BusState)
    → (add_output m o st).1.output_config ≡ recorded o st (answered_ok (add_output m o st).0)
unfolding add_output answered_ok
add_output-recorded m o st = elim (Bool-cases (contains_key o.id st.output_config)) [
  | inl h ↦ rw h refl
  | inr h ↦ rw h (prepared (prepare_if_set m st) ((prepare_if_set-Builds same_laws m).grows st))
]
  where
    finished :
        (r : Result BusError Output × BusState)
        → SameOutputs st r.1
        → (finish_output o r).1.output_config ≡ recorded o st (answered_ok (finish_output o r).0)
    finished (err e, st') g = g
    finished (ok out, st') g =
        (start_input-Builds same_laws).grows
          (record st' { output_config = insert o.id o st'.output_config })
        ∙ ap (λ t. insert o.id o t) g

    built :
        (s : AvStream) (r : Result BusError (Unit {0}) × BusState)
        → SameOutputs st r.1
        → (build_output m s o r).1.output_config
          ≡ recorded o st (answered_ok (build_output m s o r).0)
    built s (err e, st') g = g
    built s (ok u, st') g =
        finished (create_stream m o.dest (try_encoder s o.dest o.encode) s.index o st')
          ((create-Builds same_laws m o.dest _ s.index o).grows st' ∙ g)

    chosen :
        (p : Option AvStream) (st' : BusState)
        → SameOutputs st st'
        → (choose_stream m o p st').1.output_config
          ≡ recorded o st (answered_ok (choose_stream m o p st').0)
    chosen none st' g = g
    chosen (some s) st' g =
        built s (start_primary m s o st') ((start_primary-Builds same_laws m s o).grows st' ∙ g)

    prepared :
        (r : Result BusError (Unit {0}) × BusState)
        → SameOutputs st r.1
        → (after_prepare m o r).1.output_config
          ≡ recorded o st (answered_ok (after_prepare m o r).0)
    prepared (err e, st') g = g
    prepared (ok u, st') g = chosen (find_stream (of_type o) st'.input_streams) st' g

-- Once an output has been added, a second one with its identifier is refused, whatever commands
-- stand between the two, and the refusal changes nothing.
pub add_output_twice :
    (m m' : Media) (o o' : OutputConfig) (st : BusState) (cs : List (Media × BusCommand))
    → o'.id ≡ o.id
    → answered_ok (add_output m o st).0 ≡ true
    → let later = inner_loop cs (add_output m o st).1 in
      add_output m' o' later ≡ (sent (err output_exists), later)
unfolding add_output
add_output_twice m m' o o' st cs same was_ok = rw known refl
  where
    later : BusState
    later = inner_loop cs (add_output m o st).1

    added : contains_key o'.id (add_output m o st).1.output_config ≡ true
    added =
        ap (λ t. contains_key o'.id t) (add_output-recorded m o st ∙ ap (recorded o st) was_ok)
        ∙ (contains-insert o'.id o.id o st.output_config
            ∙ ap (λ b. if b then true else contains_key o'.id st.output_config)
                ((string_eq.hits_iff o.id o'.id).1 (sym same)))

    known : contains_key o'.id later.output_config ≡ true
    known = (inner_loop-Grows cs (add_output m o st).1).outputs o'.id added
