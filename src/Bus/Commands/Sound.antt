-- ===== src/Bus/Commands/Sound.antt =====
-- bus.rs: what the fields of the state have to do with one another.
use lite_nvr.Bus.Commands.Loop.{inner_loop-R, LoopLaws}
use mathlib.Core.Option.{some-injective}
use lite_nvr.Bus.Commands.Steps.{Laws}
use lite_nvr.Bus.Commands.{inner_loop, BusCommand, remove_input}
use lite_nvr.Common.Dict.{contains-insert, lookup-insert, insert, contains_key, lookup}
use lite_nvr.Bus.State.Tasks.{note_started}
use lite_nvr.Bus.Types.{AvStream}
use lite_nvr.Bus.State.{new_state, Media, DecoderTask, BusState}
use lite_nvr.Common.{
  Bool, subst, ◌++◌, sym, ap, List, ℕ, refl, Bool-cases, inl, inr, none, some, true, false, [], ◌∷◌,
  nat_eq, string_eq, if◌then◌else◌, ◌==◌, ◌+◌, ◌≡◌, sym, ap, subst, ◌∙◌, ◌<◌, ◌≤◌, arith,
}

-- How often the input task `t` has been started.
unfoldable pub times : ℕ → List ℕ → ℕ
times t [] = 0
times t (x ∷ xs) = (if x == t then 1 else 0) + times t xs

pub record Sound (st : BusState) : Type 0 where
  -- No input task is started twice.
  pub once : (t : ℕ) → times t st.started ≤ 1
  pub later : (t : ℕ) → st.next_task ≤ t → times t st.started ≡ 0
  pub known : (t : ℕ) → st.input_task ≡ some t → t < st.next_task
  -- An input that is opened and not started has a task, which has never been started.
  pub pending :
      (input : List AvStream)
      → st.pending_input ≡ some input
      → (t : ℕ) × ((st.input_task ≡ some t) × (times t st.started ≡ 0))
  -- A decoder reads from an input task of this bus.
  pub sources :
      (i : ℕ) (d : DecoderTask) → lookup i st.decoder_tasks ≡ some d → d.source < st.next_task
  -- An encoder has an output stream.
  pub outputs : (i : ℕ) → contains_key i st.encoder_output_streams ≡ contains_key i st.encoder_tasks

abbrev Preserves : BusState → BusState → Type 0
Preserves st st' = Sound st → Sound st'

opened-Sound :
    (st : BusState) (streams : List AvStream)
    → Preserves st (record st {
      input_streams = st.input_streams ++ streams;
      input_task = some st.next_task;
      pending_input = some streams;
      next_task = st.next_task + 1;
    })
opened-Sound st streams s = record {
  once = s.once;
  later = λ t h. s.later t (omega (arith, h));
  known =
      λ t e. let same : st.next_task ≡ t = some-injective st.next_task t e in omega (arith, same);
  pending = λ input e. (st.next_task, (refl, s.later st.next_task (omega arith)));
  sources = λ i d h. omega (arith, s.sources i d h);
  outputs = s.outputs;
}

started_once :
    (t : ℕ) (l : List ℕ) → times t l ≡ 0 → ((u : ℕ) → times u l ≤ 1) → (u : ℕ) → times u (t ∷ l) ≤ 1
unfolding times
started_once t l none_yet once u = elim (Bool-cases (t == u)) [
  | inl y ↦
      let same : t ≡ u = (nat_eq.hits_iff t u).0 y in
      rw (y, ap (λ k. times k l) (sym same)) (omega (arith, none_yet))
  | inr n ↦ rw n (omega (arith, once u))
]

started_later : (t u : ℕ) (l : List ℕ) → ¬ (t ≡ u) → times u l ≡ 0 → times u (t ∷ l) ≡ 0
unfolding times
started_later t u l other h = ground (arith, nat_eq.hits_iff t u)

some_not_none : (input : List AvStream) → none ≡ some input → ⊥
some_not_none input e = cc

no_task : (t : ℕ) → none ≡ some t → ⊥
no_task t e = cc

start-Sound :
    (st : BusState) (input : List AvStream)
    → st.pending_input ≡ some input
    → Preserves st
        (record st { pending_input = none; started = note_started st.input_task st.started })
start-Sound st input e s =
    let task = s.pending input e in
    subst (λ o. Sound (record st { pending_input = none; started = note_started o st.started }))
      (sym task.1.0)
      (record {
        once = started_once task.0 st.started task.1.1 s.once;
        later = λ t h.
            started_later task.0 t st.started (omega (arith, h, s.known task.0 task.1.0))
              (s.later t h);
        known = s.known;
        pending = λ input e. absurd (some_not_none input e);
        sources = s.sources;
        outputs = s.outputs;
      })

insert_source :
    (st : BusState) (i t : ℕ) (x : AvStream) (lossless : Bool) (s : Sound st)
    → st.input_task ≡ some t
    → (j : ℕ) (d : DecoderTask)
    → lookup j (insert i (record { source = t; stream = x; lossless = lossless }) st.decoder_tasks)
      ≡ some d
    → d.source < st.next_task
insert_source st i t x lossless s is_t j d h =
    at (i == j) (sym (lookup-insert j i _ st.decoder_tasks) ∙ h)
  where
    at :
        (b : Bool)
        → (if b
            then some (record { source = t; stream = x; lossless = lossless })
            else lookup j st.decoder_tasks)
          ≡ some d
        → d.source < st.next_task
    at true e =
        subst (λ (k : DecoderTask). k.source < st.next_task)
          (some-injective (record { source = t; stream = x; lossless = lossless }) d e)
          (s.known t is_t)
    at false e = s.sources j d e

same_keys :
    {V W : Type 0} (i j : ℕ) (v : V) (w : W) (m : List (ℕ × V)) (n : List (ℕ × W))
    → contains_key j m ≡ contains_key j n
    → contains_key j (insert i v m) ≡ contains_key j (insert i w n)
same_keys i j v w m n e =
    contains-insert j i v m
    ∙ (ap (λ b. if i == j then true else b) e ∙ sym (contains-insert j i w n))

sound_laws : Laws Preserves
sound_laws = record {
  refl_at = λ st s. s;
  trans_at = λ a b c f g s. g (f s);
  opens = opened-Sound;
  starts = start-Sound;
  decodes = λ st i t x lossless is_t new s. record {
    once = s.once;
    later = s.later;
    known = s.known;
    pending = s.pending;
    sources = insert_source st i t x lossless s is_t;
    outputs = s.outputs;
  };
  encodes = λ st i task out new s. record {
    once = s.once;
    later = s.later;
    known = s.known;
    pending = s.pending;
    sources = s.sources;
    outputs = λ j. same_keys i j out task st.encoder_output_streams st.encoder_tasks (s.outputs j);
  };
}

loop_laws : LoopLaws Preserves
unfolding remove_input
loop_laws = record {
  laws = sound_laws;
  accepts = λ st input options s. record {
    once = s.once;
    later = s.later;
    known = s.known;
    pending = s.pending;
    sources = s.sources;
    outputs = s.outputs;
  };
  records = λ st o s. record {
    once = s.once;
    later = s.later;
    known = s.known;
    pending = s.pending;
    sources = s.sources;
    outputs = s.outputs;
  };
  removes = λ st s. record {
    once = s.once;
    later = s.later;
    known = λ t e. absurd (no_task t e);
    pending = λ input e. absurd (some_not_none input e);
    sources = s.sources;
    outputs = s.outputs;
  };
}

none_decoder : (d : DecoderTask) → none ≡ some d → ⊥
none_decoder d e = cc

new_state-Sound : Sound new_state
unfolding times lookup contains_key
new_state-Sound = record {
  once = λ t. omega arith;
  later = λ t h. refl;
  known = λ t e. absurd (no_task t e);
  pending = λ input e. absurd (some_not_none input e);
  sources = λ i d e. absurd (none_decoder d e);
  outputs = λ i. refl;
}

-- Whatever commands the loop handles from the start on, and whatever FFmpeg answers: no input
-- task is started twice, an input that waits to be started has a task that has not been
-- started, a decoder's source is a task of this bus, and an encoder has an output stream.
pub inner_loop-Sound : (cs : List (Media × BusCommand)) → Sound (inner_loop cs new_state)
inner_loop-Sound cs = inner_loop-R loop_laws cs new_state new_state-Sound
