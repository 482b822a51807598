-- ===== src/Bus/Commands/Steps.antt =====
-- What every command does to the state, by the four writes that its tasks make.
use lite_nvr.Bus.Choice.{at_index, find_stream}
use lite_nvr.Common.Dict.{insert, contains_key}
use lite_nvr.Bus.Types.{rawvideo, ◌is◌, InputConfig, EncodeConfig, AvStream}
use lite_nvr.Common.Action.{some_or, and_then, give}
use lite_nvr.Bus.State.Tasks.{
  encoder_source, encoder_settings, note_started, opened, decoder_from, prepare_at, encoder_from,
  start_pending, decoder_for, encoder_for, encoder_made, Run, start_decoder_task,
  start_encoder_task, decoder_made, prepare_input_task, start_input_task,
}
use lite_nvr.Bus.State.{EncoderSource, EncoderTask, Media, BusError, BusState}
use lite_nvr.Common.{
  ◌≡◌, ◌+◌, Bool, ℕ, ◌++◌, Result, List, Option, refl, Bool-cases, inl, inr, none, some, true,
  false, ok, err, nat_eq, string_eq, if◌then◌else◌,
}

-- The laws of a relation between the state before a command and the state after it.
pub record Laws (R : BusState → BusState → Type 0) : Type 0 where
  pub refl_at : (st : BusState) → R st st
  pub trans_at : (a b c : BusState) → R a b → R b c → R a c
  pub opens :
      (st : BusState) (streams : List AvStream)
      → R st (record st {
        input_streams = st.input_streams ++ streams;
        input_task = some st.next_task;
        pending_input = some streams;
        next_task = st.next_task + 1;
      })
  pub starts :
      (st : BusState) (input : List AvStream)
      → st.pending_input ≡ some input
      → R st (record st { pending_input = none; started = note_started st.input_task st.started })
  pub decodes :
      (st : BusState) (i t : ℕ) (s : AvStream) (lossless : Bool)
      → st.input_task ≡ some t
      → contains_key i st.decoder_tasks ≡ false
      → R st (record st {
        decoder_tasks =
            insert i (record { source = t; stream = s; lossless = lossless }) st.decoder_tasks;
      })
  pub encodes :
      (st : BusState) (i : ℕ) (task : EncoderTask) (out : AvStream)
      → contains_key i st.encoder_tasks ≡ false
      → R st (record st {
        encoder_tasks = insert i task st.encoder_tasks;
        encoder_output_streams = insert i out st.encoder_output_streams;
      })

-- The run relates every state to the state it leaves.
pub record Builds (R : BusState → BusState → Type 0) {A : Type 0} (m : Run A) : Type 0 where
  pub grows : (st : BusState) → R st (m st).1

module _ {R : BusState → BusState → Type 0} (l : Laws R) where
  after-and_then :
      {A B : Type 0} {st : BusState} (f : A → Run B)
      → ((a : A) → Builds R (f a))
      → (r : Result BusError A × BusState) → R st r.1
      → R st (and_then r f).1
  after-and_then {st = st} f h (ok a, st') k = l.trans_at st st' _ k ((h a).grows st')
  after-and_then f h (err e, st') k = k

  pub chain :
      {A B : Type 0} {m : Run A} {f : A → Run B}
      → Builds R m
      → ((a : A) → Builds R (f a))
      → Builds R {A = B} (λ st. and_then (m st) f)
  chain {A} {B} {m} {f} g h = record { grows = λ st. after-and_then f h (m st) (g.grows st) }

  pub giving : {A : Type 0} (a : A) → Builds R {A = A} (give a)
  giving a = record { grows = λ st. l.refl_at st }

  pub asking :
      {A : Type 0} (o : BusState → Option A) (e : BusError)
      → Builds R {A = A} (λ st. some_or (o st) e st)
  asking o e = record { grows = λ st. at (o st) st }
    where
      at : {A : Type 0} (r : Option A) (st : BusState) → R st (some_or r e st).1
      at none st = l.refl_at st
      at (some a) st = l.refl_at st

  opened-Builds : (r : Result BusError (List AvStream)) → Builds R (opened r)
  unfolding opened
  opened-Builds (err e) = record { grows = λ st. l.refl_at st }
  opened-Builds (ok streams) = record { grows = λ st. l.opens st streams }

  pub prepare-Builds : (m : Media) → Builds R (prepare_input_task m)
  unfolding prepare_input_task prepare_at
  prepare-Builds m = record { grows = λ st. at st.input_task st.input_config st }
    where
      at : (t : Option ℕ) (c : Option InputConfig) (st : BusState) → R st (prepare_at m t c st).1
      at (some t) c st = l.refl_at st
      at none none st = l.refl_at st
      at none (some c) st = (opened-Builds (m.open_input c st.input_options)).grows st

  pub start_input-Builds : Builds R start_input_task
  unfolding start_input_task start_pending
  start_input-Builds = record { grows = λ st. at st.pending_input st refl }
    where
      at :
          (o : Option (List AvStream)) (st : BusState)
          → st.pending_input ≡ o
          → R st (start_pending o st).1
      at none st e = l.refl_at st
      at (some input) st e = l.starts st input e

  decoder_made-R :
      (e : Option BusError) (i t : ℕ) (s : AvStream) (lossless : Bool) (st : BusState)
      → st.input_task ≡ some t
      → contains_key i st.decoder_tasks ≡ false
      → R st (decoder_made e i (record { source = t; stream = s; lossless = lossless }) st).1
  unfolding decoder_made
  decoder_made-R (some e) i t s lossless st is_t new = l.refl_at st
  decoder_made-R none i t s lossless st is_t new = l.decodes st i t s lossless is_t new

  decoder_for-R :
      (m : Media) (o : Option AvStream) (i : ℕ) (lossless : Bool) (st : BusState)
      → R st (decoder_for m o i lossless st).1
  unfolding decoder_for decoder_from
  decoder_for-R m none i lossless st = l.refl_at st
  decoder_for-R m (some s) i lossless st = elim (Bool-cases (contains_key i st.decoder_tasks)) [
    | inl h ↦ rw h (l.refl_at st)
    | inr new ↦ rw new (decoding (s.codec is rawvideo) new)
  ]
    where
      from :
          (t : Option ℕ)
          → st.input_task ≡ t
          → contains_key i st.decoder_tasks ≡ false
          → R st (decoder_from m t i s lossless st).1
      from none is_t new = l.refl_at st
      from (some t) is_t new = decoder_made-R (m.new_decoder s) i t s lossless st is_t new

      decoding :
          (b : Bool)
          → contains_key i st.decoder_tasks ≡ false
          → R st (if b then (ok tt, st) else decoder_from m st.input_task i s lossless st).1
      decoding true new = l.refl_at st
      decoding false new = from st.input_task refl new

  encoder_made-R :
      (r : Result BusError AvStream) (i : ℕ) (task : EncoderTask) (st : BusState)
      → contains_key i st.encoder_tasks ≡ false
      → R st (encoder_made r i task st).1
  unfolding encoder_made
  encoder_made-R (err e) i task st new = l.refl_at st
  encoder_made-R (ok out) i task st new = l.encodes st i task out new

  encoder_for-R :
      (m : Media) (o : Option AvStream) (i : ℕ) (encode : Option EncodeConfig) (lossless : Bool)
      (st : BusState)
      → R st (encoder_for m o i encode lossless st).1
  unfolding encoder_for encoder_from
  encoder_for-R m none i encode lossless st = l.refl_at st
  encoder_for-R m (some s) i encode lossless st =
      elim (Bool-cases (contains_key i st.encoder_tasks)) [
        | inl h ↦ rw h (l.refl_at st)
        | inr new ↦ rw new (from (encoder_source s i st) new)
      ]
    where
      from :
          (r : Result BusError EncoderSource)
          → contains_key i st.encoder_tasks ≡ false
          → R st (encoder_from m r i s (encoder_settings s encode) lossless st).1
      from (err e) new = l.refl_at st
      from (ok source) new = encoder_made-R (m.new_encoder s (encoder_settings s encode)) i _ st new

  pub decoder_task-Builds :
      (m : Media) (i : ℕ) (lossless : Bool) → Builds R (start_decoder_task m i lossless)
  unfolding start_decoder_task
  decoder_task-Builds m i lossless = record {
    grows = λ st. decoder_for-R m (find_stream (at_index i) st.input_streams) i lossless st;
  }

  pub encoder_task-Builds :
      (m : Media) (i : ℕ) (encode : Option EncodeConfig) (lossless : Bool)
      → Builds R (start_encoder_task m i encode lossless)
  unfolding start_encoder_task
  encoder_task-Builds m i encode lossless = record {
    grows = λ st. encoder_for-R m (find_stream (at_index i) st.input_streams) i encode lossless st;
  }
