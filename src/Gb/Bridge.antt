-- ===== src/Gb/Bridge.antt =====
-- nvr/src/gb/bridge.rs: pulls of GB streams on demand. A pull is an async function: it runs from one
-- `await` to the next, and the steps of other calls come between. `pulls` holds the suspended ones
-- under a number of their own. Receivers and sessions are values that the ZLM worker and the SIP
-- server give; dropping a receiver, and stopping or dropping a session, is noted in a list. (A
-- torn-down session's receiver is dropped once its BYE has been answered or has failed.)
pub mod Held
pub mod Accounts
pub mod Orphan
mod Runs
use lite_nvr.Common.{
  ◌++◌, ℕ, String, string_eq, nat_eq, Bool, true, false, Option, none, some, List, [], ◌∷◌,
  if◌then◌else◌, Result, ok, err, map,
}
use lite_nvr.Common.Dict.{Dict, lookup, insert, remove, contains_key}
use lite_nvr.Gb.Registrar.{Transport, udp, tcp_active, tcp_passive}
use lite_nvr.Gb.StreamMap.{StreamMap, Mapping, register, unregister, set_transport}
use lite_nvr.Gb.Ssrc.{SsrcGenerator, next, live}

-- `id` tells the receivers apart.
pub record ReceiverHandle : Type 0 where
  pub id : ℕ
  pub port : ℕ

pub record MediaSession : Type 0 where
  pub id : ℕ
  pub negotiated_remote : Option String

pub record ActiveSession : Type 0 where
  pub receiver : ReceiverHandle
  pub session : MediaSession

-- Where a pull is suspended.
pub data Stage : Type 0 where
  opening : Stage
  inviting : ReceiverHandle → Stage
  connecting : ReceiverHandle → MediaSession → Stage

pub record Pull : Type 0 where
  pub stream_id : String
  pub mapping : Mapping
  pub stage : Stage

-- What an INVITE asks for.
pub record MediaSpec : Type 0 where
  pub ssrc : ℕ
  pub ssrc_str : List ℕ
  pub transport : Transport
  pub media_addr : String

pub record GbBridge : Type 0 where
  pub media_ip : String
  pub ssrc_generator : SsrcGenerator
  pub streams : StreamMap
  pub active : Dict String ActiveSession
  pub pulls : Dict ℕ Pull
  pub invites : List (String × (String × MediaSpec))
  pub released : List ℕ
  pub stopped : List ℕ

pub new : SsrcGenerator → String → GbBridge
new g media_ip = record {
  media_ip = media_ip;
  ssrc_generator = g;
  streams = [];
  active = [];
  pulls = [];
  invites = [];
  released = [];
  stopped = [];
}

pub release : Option ActiveSession → GbBridge → String → GbBridge
release none b stream_id = b
release (some a) b stream_id = record b {
  active = remove stream_id b.active;
  released = a.receiver.id ∷ b.released;
  stopped = a.session.id ∷ b.stopped;
}

pub teardown : GbBridge → String → GbBridge
unfolding release
teardown b stream_id = release (lookup stream_id b.active) b stream_id

pub unregister_mapping : GbBridge → String → GbBridge
unfolding unregister teardown
unregister_mapping b stream_id =
    teardown (record b { streams = (unregister b.streams stream_id).1 }) stream_id

-- Up to the first `await`; the answer comes when the pull has ended, whichever way.
pub start_pull : GbBridge → ℕ → String → Mapping → GbBridge
start_pull b task stream_id m = record b {
  pulls = insert task (record { stream_id = stream_id; mapping = m; stage = opening }) b.pulls;
}

-- With the stream's mapping, and whether the stream is active.
pub answer : Option Mapping → Bool → GbBridge → ℕ → String → Bool × GbBridge
unfolding start_pull
answer none active b task stream_id = (false, b)
answer (some m) true b task stream_id = (true, b)
answer (some m) false b task stream_id = (true, start_pull b task stream_id m)

pub handle_media_not_found : GbBridge → ℕ → String → Bool × GbBridge
unfolding answer
handle_media_not_found b task stream_id =
    answer (lookup stream_id b.streams) (contains_key stream_id b.active) b task stream_id

-- The pull returns or fails: what it holds is dropped.
abbrev pub given_up : GbBridge → ℕ → List ℕ → List ℕ → GbBridge
given_up b task handles sessions = record b {
  pulls = remove task b.pulls;
  released = handles ++ b.released;
  stopped = sessions ++ b.stopped;
}

abbrev pub suspended : GbBridge → ℕ → Pull → Stage → GbBridge
suspended b task p stage = record b { pulls = insert task (record p { stage = stage }) b.pulls }

-- The insert at the end of `start_pull`. A session that stood under the stream is dropped.
pub activate : GbBridge → ℕ → String → ReceiverHandle → MediaSession → GbBridge
unfolding teardown
activate b task stream_id handle session =
    let b' = teardown b stream_id in
    record b' {
      pulls = remove task b'.pulls;
      active = insert stream_id (record { receiver = handle; session = session }) b'.active;
    }

-- `parse_addr ip port` stands for the parser of the standard library on "ip:port".
module _ (parse_addr : String → ℕ → Option String) where
  -- Sends the INVITE if the address parses.
  pub invite : Option String → GbBridge → ℕ → Pull → ReceiverHandle → ℕ × List ℕ → GbBridge
  invite none b task p handle ssrc = given_up b task (handle.id ∷ []) []
  invite (some media_addr) b task p handle ssrc =
      let spec : MediaSpec = record {
        ssrc = ssrc.0;
        ssrc_str = ssrc.1;
        transport = p.mapping.transport;
        media_addr = media_addr;
      } in
      suspended
        (record b { invites = (p.mapping.device_id, (p.mapping.channel_id, spec)) ∷ b.invites })
        task p (inviting handle)

  -- With the receiver and the next SSRC. A panic of the generator would drop the receiver too.
  pub numbered :
      Option ((ℕ × List ℕ) × SsrcGenerator) → GbBridge → ℕ → Pull → ReceiverHandle → GbBridge
  unfolding invite
  numbered none b task p handle = given_up b task (handle.id ∷ []) []
  numbered (some (ssrc, g)) b task p handle =
      invite (parse_addr b.media_ip handle.port) (record b { ssrc_generator = g }) task p handle
        ssrc

  pub opened_at : GbBridge → ℕ → Pull → Stage → Result String ReceiverHandle → GbBridge
  unfolding numbered
  opened_at b task p opening (ok handle) = numbered (next b.ssrc_generator live) b task p handle
  opened_at b task p opening (err e) = given_up b task [] []
  opened_at b task p _ r = b

abbrev pub is_tcp_active : Transport → Bool
is_tcp_active tcp_active = true
is_tcp_active _ = false

-- After the device's answer; the first argument says whether the transport is TCP-active.
pub answered : Bool → Option String → GbBridge → ℕ → Pull → ReceiverHandle → MediaSession → GbBridge
unfolding activate
answered true none b task p handle session = given_up b task (handle.id ∷ []) (session.id ∷ [])
answered true (some remote) b task p handle session = suspended b task p (connecting handle session)
answered false remote b task p handle session = activate b task p.stream_id handle session

pub invited_at : GbBridge → ℕ → Pull → Stage → Result String MediaSession → GbBridge
unfolding answered
invited_at b task p (inviting handle) (ok session) =
    answered (is_tcp_active p.mapping.transport) session.negotiated_remote b task p handle session
invited_at b task p (inviting handle) (err e) = given_up b task (handle.id ∷ []) []
invited_at b task p _ r = b

-- How `connect` ends under its time limit of five seconds.
pub data Connected : Type 0 where
  connected : Connected
  connect_failed : Connected
  timed_out : Connected

pub connected_at : GbBridge → ℕ → Pull → Stage → Connected → GbBridge
unfolding activate
connected_at b task p (connecting handle session) connected =
    activate b task p.stream_id handle session
connected_at b task p (connecting handle session) _ =
    given_up b task (handle.id ∷ []) (session.id ∷ [])
connected_at b task p _ r = b

-- The calls that reach the bridge and the ends of what its pulls await, in any order.
pub data Event : Type 0 where
  mapping_registered : String → String → String → Transport → Event
  mapping_unregistered : String → Event
  transport_set : String → Transport → Event
  media_not_found : ℕ → String → Event
  media_no_reader : String → Event
  opened : ℕ → Result String ReceiverHandle → Event
  invited : ℕ → Result String MediaSession → Event
  connect_ended : ℕ → Connected → Event

abbrev pub resume : Option Pull → GbBridge → (Pull → Stage → GbBridge) → GbBridge
resume none b k = b
resume (some p) b k = k p p.stage

-- The number of a new pull is free: nothing is done on one in use.
abbrev pub unless_used : Option Pull → GbBridge → GbBridge → GbBridge
unless_used none b b' = b'
unless_used (some p) b b' = b

pub step : (String → ℕ → Option String) → GbBridge → Event → GbBridge
unfolding opened_at invited_at connected_at unregister_mapping register handle_media_not_found
    set_transport teardown
step parse b (mapping_registered stream_id device_id channel_id transport) = record b {
  streams = register b.streams stream_id device_id channel_id transport;
}
step parse b (mapping_unregistered stream_id) = unregister_mapping b stream_id
step parse b (transport_set stream_id transport) = record b {
  streams = (set_transport b.streams stream_id transport).1;
}
step parse b (media_not_found task stream_id) =
    unless_used (lookup task b.pulls) b (handle_media_not_found b task stream_id).1
step parse b (media_no_reader stream_id) = teardown b stream_id
step parse b (opened task r) = resume (lookup task b.pulls) b (λ p s. opened_at parse b task p s r)
step parse b (invited task r) = resume (lookup task b.pulls) b (λ p s. invited_at b task p s r)
step parse b (connect_ended task r) =
    resume (lookup task b.pulls) b (λ p s. connected_at b task p s r)

pub run : (String → ℕ → Option String) → GbBridge → List Event → GbBridge
unfolding step
run parse b [] = b
run parse b (e ∷ es) = run parse (step parse b e) es
