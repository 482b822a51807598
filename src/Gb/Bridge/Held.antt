-- ===== src/Gb/Bridge/Held.antt =====
-- Who holds a receiver or a session: a pull in flight, an active session, or nobody any more.
use lite_nvr.Gb.Bridge.{
  opening, inviting, connecting, release, MediaSession, connect_ended, ReceiverHandle, invited,
  connecting, given_up, inviting, activate, opened, suspended, Pull, teardown, Event, Stage,
  GbBridge, ActiveSession,
}
use lite_nvr.Common.{
  ==_refl, sym, ◌++◌, ap, ◌∙◌, ok, String, ℕ, ◌+◌, ◌≡◌, refl, arith, List, [], ◌∷◌, Option, none,
  some, string_eq, nat_eq,
}
use lite_nvr.Common.Dict.{
  lookup-remove, lookup, remove, UniqueKeys, weight, weight_at, weight-insert, weight-remove,
  insert-UniqueKeys, remove-UniqueKeys,
}

pub record Sane (b : GbBridge) : Type 0 where
  pub streams_once : UniqueKeys b.active
  pub tasks_once : UniqueKeys b.pulls

-- A price for each receiver and each session, by its number.
module _ (receiver_price session_price : ℕ → ℕ) where
  abbrev pub sum_prices : (ℕ → ℕ) → List ℕ → ℕ
  sum_prices f [] = 0
  sum_prices f (i ∷ is) = f i + sum_prices f is

  abbrev pub stage_price : Stage → ℕ
  stage_price opening = 0
  stage_price (inviting h) = receiver_price h.id
  stage_price (connecting h s) = receiver_price h.id + session_price s.id

  abbrev pub pull_price : Pull → ℕ
  pull_price p = stage_price p.stage

  abbrev pub active_price : ActiveSession → ℕ
  active_price a = receiver_price a.receiver.id + session_price a.session.id

  -- What is held, and what has been let go.
  abbrev pub total : GbBridge → ℕ
  total b =
      weight pull_price b.pulls
      + weight active_price b.active
      + sum_prices receiver_price b.released
      + sum_prices session_price b.stopped

  -- What an event brings to the pull that it resumes.
  abbrev pub brought_at : Stage → Event → ℕ
  brought_at opening (opened task (ok h)) = receiver_price h.id
  brought_at (inviting h) (invited task (ok s)) = session_price s.id
  brought_at stage e = 0

  abbrev pub task_of : Event → Option ℕ
  task_of (opened task r) = some task
  task_of (invited task r) = some task
  task_of (connect_ended task r) = some task
  task_of _ = none

  abbrev pub brought_to : Option Pull → Event → ℕ
  brought_to none e = 0
  brought_to (some p) e = brought_at p.stage e

  abbrev pub brought : GbBridge → Event → ℕ
  brought b e = elim (task_of e) [ none ↦ 0 | some task ↦ brought_to (lookup task b.pulls) e ]

  abbrev pub Kept : GbBridge → ℕ → GbBridge → Type 0
  Kept b n b' = Sane b' × (total b' ≡ total b + n)

  pub release-Kept :
      (o : Option ActiveSession) (b : GbBridge) (i : String)
      → lookup i b.active ≡ o
      → Sane b
      → Kept b 0 (release o b i)
        × ((release o b i).pulls ≡ b.pulls)
        × (lookup i (release o b i).active ≡ none)
  unfolding release
  release-Kept none b i e h = ((h, omega arith), refl, e)
  release-Kept (some a) b i e h =
      let w = weight-remove active_price i b.active h.streams_once in
      (
        (
          record {
            streams_once = remove-UniqueKeys i b.active h.streams_once;
            tasks_once = h.tasks_once;
          },
          omega (arith, w, ap (weight_at active_price) e),
        ),
        refl,
        lookup-remove i i b.active ∙ rw (==_refl i) refl,
      )

  module _ (b : GbBridge) (h : Sane b) (task : ℕ) (p : Pull)
      (e : lookup task b.pulls ≡ some p) where
    abbrev pull_weight :
        weight pull_price (remove task b.pulls) + pull_price p ≡ weight pull_price b.pulls
    pull_weight =
        ap (λ o. weight pull_price (remove task b.pulls) + weight_at pull_price o) (sym e)
        ∙ weight-remove pull_price task b.pulls h.tasks_once

    append_prices :
        (f : ℕ → ℕ) (is js : List ℕ) → sum_prices f (is ++ js) ≡ sum_prices f is + sum_prices f js
    append_prices f [] js = omega arith
    append_prices f (i ∷ is) js = omega (arith, append_prices f is js)

    pub given_up-Kept :
        (hs ss : List ℕ) (n : ℕ)
        → sum_prices receiver_price hs + sum_prices session_price ss ≡ pull_price p + n
        → Kept b n (given_up b task hs ss)
    given_up-Kept hs ss n q = (
      record {
        streams_once = h.streams_once;
        tasks_once = remove-UniqueKeys task b.pulls h.tasks_once;
      },
      omega (
        arith,
        pull_weight,
        append_prices receiver_price hs b.released,
        append_prices session_price ss b.stopped,
      ),
    )

    pub suspended-Kept :
        (stage : Stage) (n : ℕ)
        → stage_price stage ≡ pull_price p + n
        → Kept b n (suspended b task p stage)
    suspended-Kept stage n q =
        let p' = record p { stage = stage } in
        (
          record {
            streams_once = h.streams_once;
            tasks_once = insert-UniqueKeys task p' b.pulls h.tasks_once;
          },
          omega (
            arith,
            ap (weight_at pull_price) e,
            weight-insert pull_price task p' b.pulls h.tasks_once,
          ),
        )

    pub activate-Kept :
        (i : String) (r : ReceiverHandle) (s : MediaSession) (n : ℕ)
        → receiver_price r.id + session_price s.id ≡ pull_price p + n
        → Kept b n (activate b task i r s)
    unfolding activate teardown
    activate-Kept i r s n q =
        let torn = release-Kept (lookup i b.active) b i refl h in
        let b' = release (lookup i b.active) b i in
        let a : ActiveSession = record { receiver = r; session = s } in
        let removed = ap (λ m. weight pull_price (remove task m)) torn.1 in
        let unchanged = ap (weight pull_price) torn.1 in
        (
          record {
            streams_once = insert-UniqueKeys i a b'.active torn.0.0.streams_once;
            tasks_once = remove-UniqueKeys task b'.pulls torn.0.0.tasks_once;
          },
          omega (
            arith,
            torn.0.1,
            removed,
            unchanged,
            pull_weight,
            ap (weight_at active_price) torn.2,
            weight-insert active_price i a b'.active torn.0.0.streams_once,
          ),
        )
