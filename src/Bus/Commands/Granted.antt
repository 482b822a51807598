-- ===== src/Bus/Commands/Granted.antt =====
-- bus.rs: an output for encoded packets is granted.
use lite_nvr.Bus.Choice.{try_encoder, try_decoder, at_index, find_stream}
use lite_nvr.Common.Dict.{lookup-insert, contains-lookup, is_some, insert, lookup, contains_key}
use lite_nvr.Bus.State.Tasks.{
  prepare_at, prepare_input_task, encoder_settings, encoder_source, decoder_made, encoder_made,
  encoder_from, decoder_from, encoder_for, decoder_for, start_encoder_task, start_decoder_task,
}
use lite_nvr.Common.{
  List, Option, Bool, ℕ, ap, sym, refl, Bool-cases, inl, inr, none, some, true, false, ok, nat_eq,
  string_eq, if◌then◌else◌, ◌≡◌, ◌∙◌,
}
use lite_nvr.Bus.Types.{
  InputConfig, OutputConfig, is_audio, rawvideo, ◌is◌, AvStream, EncodeConfig, encoded,
}
use lite_nvr.Bus.State.{EncoderSource, DecoderTask, EncoderTask, BusState, Media, frames}
use lite_nvr.Bus.Outputs.{
  prepare_for, encoder_packets, of_type, create_encoded_output_stream, create_stream, start_primary,
  prepare_if_set,
}
use lite_nvr.Bus.Commands.{
  finish_output, build_output, choose_stream, after_prepare, add_output, sent,
}

there :
    {V : Type 0} (i : ℕ) (m : List (ℕ × V))
    → contains_key i m ≡ true
    → (v : V) × (lookup i m ≡ some v)
there i m h = at (lookup i m) (sym (contains-lookup i m) ∙ h)
  where
    no : false ≡ true → ⊥
    no h = cc

    at : {V : Type 0} (o : Option V) → is_some o ≡ true → (v : V) × (o ≡ some v)
    at none h = absurd (no h)
    at (some v) h = (v, refl)

own_key : {V : Type 0} (i : ℕ) (v : V) (m : List (ℕ × V)) → lookup i (insert i v m) ≡ some v
own_key i v m =
    lookup-insert i i v m
    ∙ ap (λ b. if b then some v else lookup i m) ((nat_eq.hits_iff i i).1 refl)

abbrev Decodes : Media → ℕ → Bool → BusState → Type 0
Decodes m i lossless st =
    (st' : BusState) × (start_decoder_task m i lossless st ≡ (ok tt, st'))
    × ((d : DecoderTask) × (lookup i st'.decoder_tasks ≡ some d))
    × (st'.input_streams ≡ st.input_streams)
    × (st'.input_task ≡ st.input_task)

start_decoder_task-Decodes :
    (m : Media) (s : AvStream) (t : ℕ) (lossless : Bool) (st : BusState)
    → find_stream (at_index s.index) st.input_streams ≡ some s
    → st.input_task ≡ some t
    → (s.codec is rawvideo) ≡ false
    → m.new_decoder s ≡ none
    → Decodes m s.index lossless st
unfolding start_decoder_task decoder_for decoder_from decoder_made
start_decoder_task-Decodes m s t lossless st found task coded accepts =
    elim (Bool-cases (contains_key s.index st.decoder_tasks)) [
      | inl h ↦ (st, rw (found, h) refl, there s.index st.decoder_tasks h, refl, refl)
      | inr h ↦ (
        record st {
          decoder_tasks =
              insert s.index (record { source = t; stream = s; lossless = lossless })
                st.decoder_tasks;
        },
        rw (found, h, coded, task, accepts) refl,
        (
          _,
          own_key s.index (record { source = t; stream = s; lossless = lossless }) st.decoder_tasks,
        ),
        refl,
        refl,
      )
    ]

abbrev Encodes : Media → ℕ → Option EncodeConfig → BusState → Type 0
Encodes m i encode st =
    (st' : BusState) × (start_encoder_task m i encode false st ≡ (ok tt, st'))
    × ((e : EncoderTask) × (lookup i st'.encoder_tasks ≡ some e))
    × (st'.input_streams ≡ st.input_streams)

start_encoder_task-Encodes :
    (m : Media) (s : AvStream) (source : EncoderSource) (encode : Option EncodeConfig)
    (st : BusState) (coded : AvStream)
    → find_stream (at_index s.index) st.input_streams ≡ some s
    → encoder_source s s.index st ≡ ok source
    → m.new_encoder s (encoder_settings s encode) ≡ ok coded
    → Encodes m s.index encode st
unfolding start_encoder_task encoder_for encoder_from encoder_made
start_encoder_task-Encodes m s source encode st coded found is_source accepts =
    let task : EncoderTask = record {
      source = source;
      stream = s;
      settings = encoder_settings s encode;
      lossless = false;
    } in
    elim (Bool-cases (contains_key s.index st.encoder_tasks)) [
      | inl h ↦ (st, rw (found, h) refl, there s.index st.encoder_tasks h, refl)
      | inr h ↦ (
        record st {
          encoder_tasks = insert s.index task st.encoder_tasks;
          encoder_output_streams = insert s.index coded st.encoder_output_streams;
        },
        rw (found, h, is_source, accepts) refl,
        (task, own_key s.index task st.encoder_tasks),
        refl,
      )
    ]

abbrev Source : AvStream → BusState → Type 0
Source s st = (source : EncoderSource) × (encoder_source s s.index st ≡ ok source)

encoder_source_lem :
    (s : AvStream) (d : DecoderTask) (st : BusState)
    → lookup s.index st.decoder_tasks ≡ some d
    → (s.codec is rawvideo) ≡ false
    → Source s st
unfolding encoder_source
encoder_source_lem s d st is_d coded = elim (Bool-cases (is_audio s)) [
  | inl h ↦ (frames d, rw (h, is_d) refl)
  | inr h ↦ (frames d, rw (h, coded, is_d) refl)
]

already_open :
    (m : Media) (st : BusState) (t : ℕ) → st.input_task ≡ some t → prepare_if_set m st ≡ (ok tt, st)
unfolding prepare_if_set prepare_input_task prepare_at
already_open m st t task = at st.input_config
  where
    at : (c : Option InputConfig) → prepare_for m c st ≡ (ok tt, st)
    at none = refl
    at (some c) = rw task refl

both_tasks :
    (m : Media) (s : AvStream) (o : OutputConfig) (st st' st'' : BusState)
    → o.dest ≡ encoded
    → (s.codec is rawvideo) ≡ false
    → start_decoder_task m s.index false st ≡ (ok tt, st')
    → start_encoder_task m s.index o.encode false st' ≡ (ok tt, st'')
    → start_primary m s o st ≡ (ok tt, st'')
unfolding start_primary try_decoder try_encoder
both_tasks m s o st st' st'' dest not_raw d e = rw (dest, not_raw, d) e

packets_of :
    (m : Media) (i : ℕ) (need : Bool) (s : AvStream) (o : OutputConfig) (e : EncoderTask)
    (st : BusState)
    → find_stream (at_index i) st.input_streams ≡ some s
    → lookup i st.encoder_tasks ≡ some e
    → create_stream m encoded need i o st ≡ (ok (s, encoder_packets e), st)
unfolding create_stream create_encoded_output_stream
packets_of m i need s o e st found there = rw (found, there) refl

-- A bus with a running input grants an output for encoded packets of a new identifier, when
-- FFmpeg opens a decoder and an encoder for the first stream of the output's type, that
-- stream is not raw video, and its index names it.
pub add_output-encoded :
    (m : Media) (o : OutputConfig) (st : BusState) (s coded : AvStream) (t : ℕ)
    → o.dest ≡ encoded
    → contains_key o.id st.output_config ≡ false
    → st.input_task ≡ some t
    → find_stream (of_type o) st.input_streams ≡ some s
    → find_stream (at_index s.index) st.input_streams ≡ some s
    → (s.codec is rawvideo) ≡ false
    → m.new_decoder s ≡ none
    → m.new_encoder s (encoder_settings s o.encode) ≡ ok coded
    → (e : EncoderTask) × ((add_output m o st).0 ≡ sent (ok (s, encoder_packets e)))
unfolding add_output
add_output-encoded m o st s coded t dest new task found same not_raw decoder encoder =
    let d = start_decoder_task-Decodes m s t false st same task not_raw decoder in
    let source = encoder_source_lem s (d.2.0) (d.0) (d.2.1) not_raw in
    let still = ap (find_stream (at_index s.index)) d.3 ∙ same in
    let e = start_encoder_task-Encodes m s source.0 o.encode (d.0) coded still source.1 encoder in
    let primary = both_tasks m s o st (d.0) (e.0) dest not_raw (d.1) (e.1) in
    let stream =
      packets_of m s.index (try_encoder s o.dest o.encode) s o (e.2.0) (e.0)
        (ap (find_stream (at_index s.index)) e.3 ∙ still) (e.2.1) in
    (
      e.2.0,
      rw new (
          ap (λ r. (after_prepare m o r).0) (already_open m st t task)
          ∙ (ap (λ x. (choose_stream m o x st).0) found
              ∙ (ap (λ r. (build_output m s o r).0) primary
                  ∙ (ap
                        (λ to.
                          (finish_output o
                            (create_stream m to (try_encoder s o.dest o.encode) s.index o e.0)).0)
                        dest
                      ∙ ap (λ r. (finish_output o r).0) stream)))),
    )
