-- ===== src/Gb/Bridge/Orphan.antt =====
-- A mapping that is removed while its pull is in flight.
use lite_nvr.Common.Dict.{remove, insert, lookup-remove, lookup-insert}
use lite_nvr.Common.{ap, ◌∙◌, ==_refl}
use lite_nvr.Gb.Bridge.{ActiveSession, resume}
use lite_nvr.Gb.Bridge.{is_tcp_active, MediaSession, ReceiverHandle, Pull, GbBridge}
use lite_nvr.Gb.StreamMap.{unregister}
use lite_nvr.Gb.Bridge.{
  ReceiverHandle, Pull, GbBridge, activate, answered, release, teardown, unregister_mapping, step,
  run, inviting, invited, invited_at, mapping_unregistered,
}
use lite_nvr.Common.{
  string_eq, nat_eq, Option, ok, ◌≡◌, none, some, ℕ, String, ◌∷◌, [], false, refl,
}
use lite_nvr.Common.Dict.{lookup}

-- If a stream that is not active is unregistered while its pull awaits the answer to the INVITE, and
-- the device then accepts, on UDP or passive TCP, the stream is active without a mapping.
pub unregistered_pull_active :
    (parse : String → ℕ → Option String) (b : GbBridge) (task : ℕ) (p : Pull)
    (handle : ReceiverHandle) (session : MediaSession)
    → lookup task b.pulls ≡ some p
    → p.stage ≡ inviting handle
    → is_tcp_active p.mapping.transport ≡ false
    → lookup p.stream_id b.active ≡ none
    → let b' = run parse b (mapping_unregistered p.stream_id ∷ invited task (ok session) ∷ []) in
      (lookup p.stream_id b'.streams ≡ none)
      × (lookup p.stream_id b'.active ≡ some (record { receiver = handle; session = session }))
unfolding run step unregister_mapping teardown release unregister invited_at answered activate
unregistered_pull_active parse b task p handle session e q t n =
    let i = p.stream_id in
    let b1 = record b { streams = remove i b.streams } in
    let a : ActiveSession = record { receiver = handle; session = session } in
    let resumed : GbBridge → Option Pull → GbBridge =
      λ c o. resume o c (λ p s. invited_at c task p s (ok session)) in
    let done : GbBridge → GbBridge =
      λ c. record c { pulls = remove task c.pulls; active = insert i a c.active } in
    let torn : release (lookup i b.active) b1 i ≡ b1 = ap (λ o. release o b1 i) n in
    let whole =
      ap (λ c. resumed c (lookup task c.pulls)) torn
      ∙ ap (resumed b1) e
      ∙ ap (λ s. invited_at b1 task p s (ok session)) q
      ∙ ap (λ v. answered v session.negotiated_remote b1 task p handle session) t
      ∙ ap done torn in
    (
      ap (λ c. lookup i c.streams) whole ∙ lookup-remove i i b.streams ∙ rw (==_refl i) refl,
      ap (λ c. lookup i c.active) whole ∙ lookup-insert i i a b.active ∙ rw (==_refl i) refl,
    )
