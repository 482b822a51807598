-- ===== src/Gb/Bridge/Accounts.antt =====
-- No receiver and no session is lost or let go twice, in any interleaving of the bridge's steps.
use lite_nvr.Gb.StreamMap.{Mapping, unregister}
use lite_nvr.Gb.Bridge.{
  run, new, MediaSpec, unless_used, start_pull, handle_media_not_found, answer, given_up,
}
use lite_nvr.Common.{inl, inr, Option-cases, subst, sym}
use lite_nvr.Gb.Ssrc.{live, SsrcGenerator, next}
use lite_nvr.Gb.Bridge.{
  teardown, resume, unregister_mapping, answered, numbered, step, Event, is_tcp_active,
  mapping_registered, mapping_unregistered, transport_set, media_not_found, media_no_reader,
  connect_ended,
}
use lite_nvr.Common.{string_eq, Bool, nat_eq, true, false, refl}
use lite_nvr.Gb.Bridge.Held.{
  sum_prices, active_price, release-Kept, brought, suspended-Kept, brought_to, activate-Kept,
  stage_price, given_up-Kept, pull_price, brought_at, Kept, Sane,
}
use lite_nvr.Gb.Bridge.{
  ReceiverHandle, MediaSession, Connected, Stage, Pull, GbBridge, opening, inviting, connecting,
  connected, connect_failed, timed_out, opened, invited, opened_at, invited_at, connected_at,
  invite,
}
use lite_nvr.Common.{
  ap, ◌+◌, arith, Result, Option, ok, err, ◌≡◌, none, some, ℕ, String, List, ◌∷◌, [],
}
use lite_nvr.Common.Dict.{
  UniqueKeys, weight, weight-insert, weight_at, contains_key, insert-UniqueKeys, lookup,
}

module _ (receiver_price session_price : ℕ → ℕ) where
  module _ (b : GbBridge) (h : Sane b) (task : ℕ) (p : Pull)
      (e : lookup task b.pulls ≡ some p) where
    abbrev Becomes : ℕ → GbBridge → Type 0
    Becomes n b' = Kept receiver_price session_price b n b'

    numbered-Kept :
        (parse : String → ℕ → Option String) (o : Option ((ℕ × List ℕ) × SsrcGenerator))
        (handle : ReceiverHandle)
        → pull_price receiver_price session_price p ≡ 0
        → Becomes (receiver_price handle.id) (numbered parse o b task p handle)
    unfolding numbered invite
    numbered-Kept parse none handle q =
        given_up-Kept receiver_price session_price b h task p e (handle.id ∷ []) []
          (receiver_price handle.id) (omega (arith, q))
    numbered-Kept parse (some (ssrc, g)) handle q = sent (parse b.media_ip handle.port)
      where
        same : Sane (record b { ssrc_generator = g })
        same = record { streams_once = h.streams_once; tasks_once = h.tasks_once }

        sent :
            (a : Option String)
            → Becomes
                (receiver_price handle.id)
                (invite parse a (record b { ssrc_generator = g }) task p handle ssrc)
        sent none =
            given_up-Kept receiver_price session_price (record b { ssrc_generator = g }) same task p
              e (handle.id ∷ []) [] (receiver_price handle.id) (omega (arith, q))
        sent (some a) =
            let spec : MediaSpec = record {
              ssrc = ssrc.0;
              ssrc_str = ssrc.1;
              transport = p.mapping.transport;
              media_addr = a;
            } in
            suspended-Kept receiver_price session_price
              (record b {
                ssrc_generator = g;
                invites = (p.mapping.device_id, (p.mapping.channel_id, spec)) ∷ b.invites;
              })
              (record { streams_once = h.streams_once; tasks_once = h.tasks_once }) task p e
              (inviting handle) (receiver_price handle.id) (omega (arith, q))

    opened_at-Kept :
        (parse : String → ℕ → Option String) (stage : Stage) (r : Result String ReceiverHandle)
        → p.stage ≡ stage
        → Becomes
            (brought_at receiver_price session_price stage (opened task r))
            (opened_at parse b task p stage r)
    unfolding opened_at
    opened_at-Kept parse opening (ok handle) q =
        numbered-Kept parse (next b.ssrc_generator live) handle
          (ap (stage_price receiver_price session_price) q)
    opened_at-Kept parse opening (err w) q =
        given_up-Kept receiver_price session_price b h task p e [] [] 0
          (omega (arith, ap (stage_price receiver_price session_price) q))
    opened_at-Kept parse (inviting g) r q = (h, omega arith)
    opened_at-Kept parse (connecting g s) r q = (h, omega arith)

    answered-Kept :
        (t : Bool) (remote : Option String) (handle : ReceiverHandle) (session : MediaSession)
        → pull_price receiver_price session_price p ≡ receiver_price handle.id
        → Becomes (session_price session.id) (answered t remote b task p handle session)
    unfolding answered
    answered-Kept true none handle session q =
        given_up-Kept receiver_price session_price b h task p e (handle.id ∷ []) (session.id ∷ [])
          (session_price session.id) (omega (arith, q))
    answered-Kept true (some remote) handle session q =
        suspended-Kept receiver_price session_price b h task p e (connecting handle session)
          (session_price session.id) (omega (arith, q))
    answered-Kept false remote handle session q =
        activate-Kept receiver_price session_price b h task p e p.stream_id handle session
          (session_price session.id) (omega (arith, q))

    invited_at-Kept :
        (stage : Stage) (r : Result String MediaSession)
        → p.stage ≡ stage
        → Becomes
            (brought_at receiver_price session_price stage (invited task r))
            (invited_at b task p stage r)
    unfolding invited_at
    invited_at-Kept opening r q = (h, omega arith)
    invited_at-Kept (inviting handle) (ok session) q =
        answered-Kept (is_tcp_active p.mapping.transport) session.negotiated_remote handle session
          (ap (stage_price receiver_price session_price) q)
    invited_at-Kept (inviting handle) (err w) q =
        given_up-Kept receiver_price session_price b h task p e (handle.id ∷ []) [] 0
          (omega (arith, ap (stage_price receiver_price session_price) q))
    invited_at-Kept (connecting g s) r q = (h, omega arith)

    dropped-Kept :
        (handle : ReceiverHandle) (session : MediaSession)
        → p.stage ≡ connecting handle session
        → Becomes 0 (given_up b task (handle.id ∷ []) (session.id ∷ []))
    dropped-Kept handle session q =
        given_up-Kept receiver_price session_price b h task p e (handle.id ∷ []) (session.id ∷ []) 0
          (omega (arith, ap (stage_price receiver_price session_price) q))

    connected_at-Kept :
        (stage : Stage) (r : Connected)
        → p.stage ≡ stage
        → Becomes
            (brought_at receiver_price session_price stage (connect_ended task r))
            (connected_at b task p stage r)
    unfolding connected_at
    connected_at-Kept opening r q = (h, omega arith)
    connected_at-Kept (inviting g) r q = (h, omega arith)
    connected_at-Kept (connecting handle session) connected q =
        activate-Kept receiver_price session_price b h task p e p.stream_id handle session 0
          (omega (arith, ap (stage_price receiver_price session_price) q))
    connected_at-Kept (connecting handle session) connect_failed q = dropped-Kept handle session q
    connected_at-Kept (connecting handle session) timed_out q = dropped-Kept handle session q

  resume-Kept :
      (b : GbBridge) (e : Event) (o : Option Pull) (k : Pull → Stage → GbBridge)
      → Sane b
      → ((p : Pull)
          → o ≡ some p
          → Kept receiver_price session_price b
              (brought_at receiver_price session_price p.stage e)
              (k p p.stage))
      → Kept receiver_price session_price b
          (brought_to receiver_price session_price o e)
          (resume o b k)
  resume-Kept b e none k h r = (h, omega arith)
  resume-Kept b e (some p) k h r = r p refl

  answer-Kept :
      (o : Option Mapping) (busy : Bool) (b : GbBridge) (task : ℕ) (i : String)
      → Sane b
      → lookup task b.pulls ≡ none
      → Kept receiver_price session_price b 0 (answer o busy b task i).1
  unfolding answer start_pull
  answer-Kept none busy b task i h e = (h, omega arith)
  answer-Kept (some m) true b task i h e = (h, omega arith)
  answer-Kept (some m) false b task i h e =
      let p : Pull = record { stream_id = i; mapping = m; stage = opening } in
      let price = pull_price receiver_price session_price in
      (
        record {
          streams_once = h.streams_once;
          tasks_once = insert-UniqueKeys task p b.pulls h.tasks_once;
        },
        omega (arith, ap (weight_at price) e, weight-insert price task p b.pulls h.tasks_once),
      )

  module _ (parse : String → ℕ → Option String) where
    pub step-Kept :
        (b : GbBridge) (e : Event)
        → Sane b
        → Kept receiver_price session_price b
            (brought receiver_price session_price b e)
            (step parse b e)
    unfolding step unregister_mapping teardown handle_media_not_found
    step-Kept b (mapping_registered i d c t) h =
        (record { streams_once = h.streams_once; tasks_once = h.tasks_once }, omega arith)
    step-Kept b (mapping_unregistered i) h =
        (release-Kept receiver_price session_price (lookup i b.active)
          (record b { streams = (unregister b.streams i).1 }) i refl
          (record { streams_once = h.streams_once; tasks_once = h.tasks_once })).0
    step-Kept b (transport_set i t) h =
        (record { streams_once = h.streams_once; tasks_once = h.tasks_once }, omega arith)
    step-Kept b (media_not_found task i) h = elim (Option-cases (lookup task b.pulls)) [
      | inl e ↦
          subst
            (λ o.
              Kept receiver_price session_price b 0
                (unless_used o b (handle_media_not_found b task i).1))
            (sym e) (answer-Kept (lookup i b.streams) (contains_key i b.active) b task i h e)
      | inr (p, e) ↦
          subst
            (λ o.
              Kept receiver_price session_price b 0
                (unless_used o b (handle_media_not_found b task i).1))
            (sym e) (h, omega arith)
    ]
    step-Kept b (media_no_reader i) h =
        (release-Kept receiver_price session_price (lookup i b.active) b i refl h).0
    step-Kept b (opened task r) h =
        resume-Kept b (opened task r) (lookup task b.pulls) (λ p s. opened_at parse b task p s r) h
          (λ p e. opened_at-Kept b h task p e parse p.stage r refl)
    step-Kept b (invited task r) h =
        resume-Kept b (invited task r) (lookup task b.pulls) (λ p s. invited_at b task p s r) h
          (λ p e. invited_at-Kept b h task p e p.stage r refl)
    step-Kept b (connect_ended task r) h =
        resume-Kept b (connect_ended task r) (lookup task b.pulls)
          (λ p s. connected_at b task p s r) h
          (λ p e. connected_at-Kept b h task p e p.stage r refl)

    -- What a history brings: each receiver and each session that a waiting pull is given.
    pub brought_in : GbBridge → List Event → ℕ
    brought_in b [] = 0
    brought_in b (e ∷ es) =
        brought receiver_price session_price b e + brought_in (step parse b e) es

    run-Kept :
        (b : GbBridge) (es : List Event)
        → Sane b
        → Kept receiver_price session_price b (brought_in b es) (run parse b es)
    unfolding run brought_in
    run-Kept b [] h = (h, omega arith)
    run-Kept b (e ∷ es) h =
        let one = step-Kept b e h in
        let rest = run-Kept (step parse b e) es one.0 in (rest.0, omega (arith, one.1, rest.1))

    -- In any history of a new bridge, whatever the order of the calls and of the ends of what the
    -- pulls await, nothing is lost and nothing is let go twice: for any prices of the receivers and
    -- the sessions, what the history brought is what the pulls in flight and the active sessions
    -- hold, and what was let go. No stream has two active sessions.
    pub run_lem :
        (g : SsrcGenerator) (media_ip : String) (es : List Event)
        → let b = run parse (new g media_ip) es in
          (brought_in (new g media_ip) es
            ≡ weight (pull_price receiver_price session_price) b.pulls
              + weight (active_price receiver_price session_price) b.active
              + sum_prices receiver_price session_price receiver_price b.released
              + sum_prices receiver_price session_price session_price b.stopped)
          × UniqueKeys b.active
    unfolding new
    run_lem g media_ip es =
        let kept = run-Kept (new g media_ip) es (record { streams_once = tt; tasks_once = tt }) in
        (omega (arith, kept.1), kept.0.streams_once)
