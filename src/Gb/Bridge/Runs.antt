-- ===== src/Gb/Bridge/Runs.antt =====
-- The bridge at concrete events.
use lite_nvr.Gb.Bridge.Orphan.{unregistered_pull_active}
use lite_nvr.Gb.Bridge.Accounts.{run_lem, brought_in}
use lite_nvr.Gb.Bridge.{
  new, opened, inviting, invited, mapping_registered, mapping_unregistered, media_not_found,
  media_no_reader, Event, run, GbBridge, Pull, ReceiverHandle, MediaSession,
}
use lite_nvr.Gb.Ssrc
use lite_nvr.Common.{
  ok, string_eq, nat_eq, ◌≡◌, none, some, ℕ, String, List, ◌∷◌, [], refl, Option, ◌+◌,
}
use lite_nvr.Common.Dict.{lookup, weight, UniqueKeys}
use lite_nvr.Gb.Registrar.{udp}
use lite_nvr.Gb.Bridge.Held.{pull_price, active_price, sum_prices}

abbrev socket_addr : String → ℕ → Option String
socket_addr ip port = some ip

abbrev receiver : ReceiverHandle
receiver = record { id = 7; port = 30000 }

abbrev play : MediaSession
play = record { id = 9; negotiated_remote = none }

abbrev viewed : List Event
viewed =
    mapping_registered "front" "device" "channel" udp
    ∷ media_not_found 1 "front"
    ∷ opened 1 (ok receiver)
    ∷ invited 1 (ok play)
    ∷ media_no_reader "front"
    ∷ []

abbrev idle : GbBridge
idle = new (Ssrc.new []) "10.0.0.1"

run_lem_example :
    let b = run socket_addr idle viewed in
    (brought_in (λ i. i) (λ i. i) socket_addr idle viewed
      ≡ weight (pull_price (λ i. i) (λ i. i)) b.pulls
        + weight (active_price (λ i. i) (λ i. i)) b.active
        + sum_prices (λ i. i) (λ i. i) (λ i. i) b.released
        + sum_prices (λ i. i) (λ i. i) (λ i. i) b.stopped)
    × UniqueKeys b.active
run_lem_example = run_lem (λ i. i) (λ i. i) socket_addr (Ssrc.new []) "10.0.0.1" viewed

abbrev waiting : Pull
waiting = record {
  stream_id = "front";
  mapping = record { device_id = "device"; channel_id = "channel"; transport = udp };
  stage = inviting receiver;
}

abbrev one_pull : GbBridge
one_pull = record idle { streams = ("front", waiting.mapping) ∷ []; pulls = (1, waiting) ∷ [] }

unregistered_pull_active_example :
    let b' = run socket_addr one_pull (mapping_unregistered "front" ∷ invited 1 (ok play) ∷ []) in
    (lookup "front" b'.streams ≡ none)
    × (lookup "front" b'.active ≡ some (record { receiver = receiver; session = play }))
unfolding lookup new
unregistered_pull_active_example =
    unregistered_pull_active socket_addr one_pull 1 waiting receiver play refl refl refl refl
