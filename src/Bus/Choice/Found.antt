-- ===== src/Bus/Choice/Found.antt =====
-- bus.rs: the streams of a muxer's plan are there.
use lite_nvr.Bus.Types.{is_video, is_audio, OutputConfig, AvStream}
use lite_nvr.Bus.Choice.{
  audio_entries, plan_entry, build_mux_plan, MuxPlanEntry, at_index, find_stream,
}
use mathlib.Core.Option.{some-injective}
use lite_nvr.Common.{
  arith, ◌≤◌, length, ℕ, Option, Bool, List, ap, refl, Bool-cases, inl, inr, none, some, true,
  false, [], ◌∷◌, ok, nat_eq, string_eq, if◌then◌else◌, ◌==◌, ◌≡◌, ◌&&◌,
}

-- A stream that a search finds is in the list, so the search for its index finds one too.
pub find-at_index :
    (p : AvStream → Bool) (s : AvStream) (xs : List AvStream)
    → find_stream p xs ≡ some s
    → (x : AvStream) × (find_stream (at_index s.index) xs ≡ some x)
unfolding find_stream at_index
find-at_index p s [] h = absurd (none_stream h)
  where
    none_stream : none ≡ some s → ⊥
    none_stream e = cc
find-at_index p s (y ∷ ys) h = at (p y) (find-at_index p s ys) h
  where
    tail :
        (x : AvStream) × (find_stream (at_index s.index) ys ≡ some x)
        → (x : AvStream) × ((if y.index == s.index
              then some y
              else find_stream (at_index s.index) ys)
            ≡ some x)
    tail t = elim (Bool-cases (y.index == s.index)) [
      | inl e ↦ (y, rw e refl)
      | inr e ↦ (t.0, rw e t.1)
    ]

    at :
        (b : Bool)
        → (find_stream p ys ≡ some s
            → (x : AvStream) × (find_stream (at_index s.index) ys ≡ some x))
        → (if b then some y else find_stream p ys) ≡ some s
        → (x : AvStream) × ((if y.index == s.index
              then some y
              else find_stream (at_index s.index) ys)
            ≡ some x)
    at true ih e =
        let same : y ≡ s = some-injective y s e in
        (y, rw ((nat_eq.hits_iff y.index s.index).1 (ap (λ k. k.index) same)) refl)
    at false ih e = tail (ih e)

-- Each entry's stream is found by its index.
unfoldable pub Planned : List AvStream → List MuxPlanEntry → Type 0
Planned streams [] = Unit {0}
Planned streams (e ∷ es) =
    ((s : AvStream) × (find_stream (at_index e.input_index) streams ≡ some s)) × Planned streams es

-- With the primary stream there, the plan is made, each of its entries names a stream that is
-- there, and there are at most two of them.
pub build_mux_plan-Planned :
    (streams : List AvStream) (i : ℕ) (o : OutputConfig) (p : AvStream)
    → find_stream (at_index i) streams ≡ some p
    → (plan : List MuxPlanEntry) × ((build_mux_plan streams i o ≡ ok plan)
        × (Planned streams plan × (length plan ≤ 2)))
unfolding build_mux_plan plan_entry Planned
build_mux_plan-Planned streams i o p found =
    let rest = audio_found (o.include_audio && is_video p) (find_stream is_audio streams) refl in
    (
      plan_entry p o.encode
          ∷ audio_entries (o.include_audio && is_video p) (find_stream is_audio streams)
              o.audio_encode,
      (
        rw (build_mux_plan, found) refl,
        ((find-at_index (at_index i) p streams found, rest.0), rest.1),
      ),
    )
  where
    audio_found :
        (b : Bool) (a : Option AvStream)
        → find_stream is_audio streams ≡ a
        → Planned streams (audio_entries b a o.audio_encode)
          × (length (plan_entry p o.encode ∷ audio_entries b a o.audio_encode) ≤ 2)
    audio_found true (some a) e = ((find-at_index is_audio a streams e, tt), omega arith)
    audio_found true none e = (tt, omega arith)
    audio_found false (some a) e = (tt, omega arith)
    audio_found false none e = (tt, omega arith)
