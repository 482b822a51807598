-- ===== src/Bus/Commands/Grows.antt =====
-- Nothing that a command has built is replaced or removed by a later one.
use lite_nvr.Bus.Commands.Loop.{inner_loop-R, LoopLaws}
use lite_nvr.Bus.Commands.{inner_loop, remove_input, BusCommand}
use lite_nvr.Bus.Commands.Steps.{Laws}
use lite_nvr.Common.{
  ℕ, String, string_eq, nat_eq, ◌≤◌, ◌≡◌, refl, ◌∙◌, ap, subst, Option, none, some, Bool-cases, inl,
  inr, ◌==◌, if◌then◌else◌, List, [], ◌∷◌, ◌++◌, arith, true, false, Bool,
}
use lite_nvr.Common.Dict.{contains-insert, lookup, insert, lookup-insert, contains_key}
use lite_nvr.Bus.Choice.{find_stream}
use lite_nvr.Bus.State.{BusState, Media, DecoderTask, EncoderTask}
use lite_nvr.Bus.Types.{AvStream}

pub record Grows (st st' : BusState) : Type 0 where
  pub decoders :
      (i : ℕ) (d : DecoderTask)
      → lookup i st.decoder_tasks ≡ some d
      → lookup i st'.decoder_tasks ≡ some d
  pub encoders :
      (i : ℕ) (e : EncoderTask)
      → lookup i st.encoder_tasks ≡ some e
      → lookup i st'.encoder_tasks ≡ some e
  pub streams :
      (p : AvStream → Bool) (s : AvStream)
      → find_stream p st.input_streams ≡ some s
      → find_stream p st'.input_streams ≡ some s
  pub outputs :
      (k : String)
      → contains_key k st.output_config ≡ true
      → contains_key k st'.output_config ≡ true
  pub later : st.next_task ≤ st'.next_task

pub Grows-refl : (st : BusState) → Grows st st
Grows-refl st = record {
  outputs = λ k h. h;
  decoders = λ i d h. h;
  encoders = λ i e h. h;
  streams = λ p s h. h;
  later = omega arith;
}

pub Grows-trans : {a b c : BusState} → Grows a b → Grows b c → Grows a c
Grows-trans g h = record {
  outputs = λ k e. h.outputs k (g.outputs k e);
  decoders = λ i d e. h.decoders i d (g.decoders i d e);
  encoders = λ i d e. h.encoders i d (g.encoders i d e);
  streams = λ p s e. h.streams p s (g.streams p s e);
  later = omega (arith, g.later, h.later);
}

insert_new :
    {V : Type 0} (i j : ℕ) (v w : V) (m : List (ℕ × V))
    → contains_key i m ≡ false
    → lookup j m ≡ some w
    → lookup j (insert i v m) ≡ some w
unfolding contains_key
insert_new i j v w m new e = lookup-insert j i v m ∙ elim (Bool-cases (i == j)) [
  | inr n ↦ rw n e
  | inl y ↦
      let found : lookup i m ≡ some w = ap (λ k. lookup k m) ((nat_eq.hits_iff i j).0 y) ∙ e in
      absurd (present (lookup i m) found new)
]
  where
    present :
        {V : Type 0} {w : V} (o : Option V)
        → o ≡ some w
        → elim o [ none ↦ false | some v ↦ true ] ≡ false
        → ⊥
    present none h k = cc
    present (some v) h k = cc

find-append :
    (p : AvStream → Bool) (s : AvStream) (xs ys : List AvStream)
    → find_stream p xs ≡ some s
    → find_stream p (xs ++ ys) ≡ some s
unfolding find_stream
find-append p s [] ys h = absurd cc
find-append p s (x ∷ xs) ys h = elim (Bool-cases (p x)) [
  | inl e ↦ rw e (subst (λ b. (if b then some x else find_stream p xs) ≡ some s) e h)
  | inr e ↦
      rw e
        (find-append p s xs ys (subst (λ b. (if b then some x else find_stream p xs) ≡ some s) e h))
]

step_laws : Laws Grows
step_laws = record {
  refl_at = Grows-refl;
  trans_at = λ a b c g h. Grows-trans g h;
  opens = λ st streams. record {
    decoders = λ i d h. h;
    encoders = λ i e h. h;
    streams = λ p s h. find-append p s st.input_streams streams h;
    outputs = λ k h. h;
    later = omega arith;
  };
  starts = λ st input e. record {
    decoders = λ i d h. h;
    encoders = λ i e h. h;
    streams = λ p s h. h;
    outputs = λ k h. h;
    later = omega arith;
  };
  decodes = λ st i t s lossless is_t new. record {
    decoders = λ j d h. insert_new i j _ d st.decoder_tasks new h;
    encoders = λ i e h. h;
    streams = λ p s h. h;
    outputs = λ k h. h;
    later = omega arith;
  };
  encodes = λ st i task out new. record {
    decoders = λ i d h. h;
    encoders = λ j e h. insert_new i j _ e st.encoder_tasks new h;
    streams = λ p s h. h;
    outputs = λ k h. h;
    later = omega arith;
  };
}

kept_true : (b : Bool) {c : Bool} → c ≡ true → (if b then true else c) ≡ true
kept_true true h = refl
kept_true false h = h

loop_laws : LoopLaws Grows
unfolding remove_input
loop_laws = record {
  laws = step_laws;
  accepts = λ st input options. record {
    decoders = λ i d h. h;
    encoders = λ i e h. h;
    streams = λ p s h. h;
    outputs = λ k h. h;
    later = omega arith;
  };
  records = λ st o. record {
    decoders = λ i d h. h;
    encoders = λ i e h. h;
    streams = λ p s h. h;
    outputs = λ k h. contains-insert k o.id o st.output_config ∙ kept_true (o.id == k) h;
    later = omega arith;
  };
  removes = λ st. record {
    decoders = λ i d h. h;
    encoders = λ i e h. h;
    streams = λ p s h. h;
    outputs = λ k h. h;
    later = omega arith;
  };
}

-- Whatever commands the loop handles and whatever FFmpeg answers to them, every decoder task,
-- every encoder task and every stream found by a predicate in the state before is the same
-- in the state after.
pub inner_loop-Grows :
    (cs : List (Media × BusCommand)) (st : BusState) → Grows st (inner_loop cs st)
inner_loop-Grows = inner_loop-R loop_laws
