-- ===== src/Gb/Server.antt =====
-- crates/gb28181/src/server.rs: the requests of the devices, and the server's tables.
pub mod Replay
pub mod Auth
pub mod Dests
pub mod Reachable
pub mod Late
mod Runs
use lite_nvr.Gb.Digest.{
  AuthConfig, AuthDecision, Authorization, allow, password_for, reject, require, verify,
}
use lite_nvr.Common.{
  ℕ, ◌+◌, ◌%◌, ◌^◌, String, string_eq, nat_eq, Bool, true, false, not, Option, none, some, List, [],
  ◌∷◌, ◌++◌, if◌then◌else◌, ◌==◌, map,
}
use lite_nvr.Common.Dict.{Dict, lookup, insert, remove, contains_key, keep_where}
use lite_nvr.Common.Int.{ℤ, pos, negsuc, ltb_ℤ, sub_i64}
use lite_nvr.Common.Text.{by_colon, codes, same_codes, ascii_lower}
use lite_nvr.Gb.Registrar.{
  new, Registrar, RegistrarChange, registered, refreshed, unregistered, no_change, SweepOutcome,
  went_offline, dropped, register, keepalive, sweep, udp,
}

-- A REGISTER: what its headers parse to, and where the transaction says that it came from.
-- `replies` tells whether the transaction takes the reply.
pub record RegisterRequest : Type 0 where
  pub user : Option String
  pub authorization : Option Authorization
  pub expires : Option ℤ
  pub contact : String
  pub source : Option String
  pub replies : Bool

pub data Reply : Type 0 where
  bad_request : Reply
  forbidden : Reply
  unauthorized : String → Reply
  ok_register : ℕ → Reply
  ok_reply : Reply
  not_found : Reply

pub data GbEvent : Type 0 where
  registered_event : String → GbEvent
  unregistered_event : String → GbEvent
  offline_event : String → GbEvent
  keepalive_received : String → GbEvent
  session_closed : String → GbEvent

pub record CatalogItem : Type 0 where
  pub device_id : String
  pub name : String
  pub status : String

pub record CatalogResponse : Type 0 where
  pub sn : ℕ
  pub device_id : String
  pub sum_num : ℕ
  pub items : List CatalogItem

-- `pending_catalog` holds what each channel has been sent.
pub record ServerInner : Type 0 where
  pub sip_id : String
  pub auth : AuthConfig
  pub registrar : Registrar
  pub dests : Dict String String
  pub nonces : Dict String ℤ
  pub pending_catalog : Dict ℕ (List CatalogResponse)
  pub sessions : Dict String (Unit {0})
  pub events : List GbEvent
  pub sn : ℕ
  pub nonce_seq : ℕ

abbrev pub send : GbEvent → ServerInner → ServerInner
send e s = record s { events = s.events ++ (e ∷ []) }

abbrev pub fresh : ℤ → ℤ → Bool
fresh now issued = ltb_ℤ (sub_i64 now issued) (pos 300)

unfoldable pub retain_fresh : ℤ → Dict String ℤ → Dict String ℤ
retain_fresh now nonces = keep_where (λ nonce issued. fresh now issued) nonces

abbrev pub expires_of : Option ℤ → ℤ
expires_of none = pos 3600
expires_of (some e) = e

abbrev pub as_u32 : ℤ → ℕ
as_u32 (pos n) = n % 2 ^ 32
as_u32 (negsuc n) = 0

abbrev pub learn_dest : String → Option String → Dict String String → Dict String String
learn_dest device_id none dests = dests
learn_dest device_id (some dest) dests = insert device_id dest dests

abbrev pub change_event : RegistrarChange → String → ServerInner → ServerInner
change_event registered device_id s = send (registered_event device_id) s
change_event unregistered device_id s = send (unregistered_event device_id) s
change_event refreshed device_id s = s
change_event no_change device_id s = s

abbrev pub told : Bool → RegistrarChange → String → ServerInner → ServerInner
told true c device_id s = change_event c device_id s
told false c device_id s = s

-- An accepted REGISTER up to the await, under the registrar's lock.
unfoldable pub register_device :
    String → RegisterRequest → ℤ → ServerInner → RegistrarChange × ServerInner
register_device device_id q now s =
    let change = register s.registrar device_id q.contact udp (expires_of q.expires) now in
    (change.0, record s { registrar = change.1 })

-- And from there on. The event is left out when the reply cannot be sent.
unfoldable pub answer_register :
    String → RegisterRequest → RegistrarChange → ServerInner → Reply × ServerInner
answer_register device_id q change s =
    let expires = expires_of q.expires in
    let dests =
      if ltb_ℤ (pos 0) expires
      then learn_dest device_id q.source s.dests
      else remove device_id s.dests in
    (ok_register (as_u32 expires), told q.replies change device_id (record s { dests = dests }))

-- The two with nothing in between.
unfoldable pub accept_register : String → RegisterRequest → ℤ → ServerInner → Reply × ServerInner
unfolding register_device answer_register
accept_register device_id q now s =
    let done = register_device device_id q now s in answer_register device_id q done.0 done.1

-- `md5_hex` is the digest in hexadecimal digits, `seq_text` the decimal digits of a number.
module _ (md5_hex : String → String) (seq_text : ℕ → String) where
  abbrev pub answered_right : Authorization → String → Bool → Bool
  answered_right a password known =
      if known
      then verify md5_hex a.username a.realm password "REGISTER" a.uri a.nonce a.response
      else false

  -- Expired nonces go first, and a nonce that is asked for is taken out.
  unfoldable pub check_authorization :
      Option Authorization → String → ℤ → ServerInner → Bool × ServerInner
  unfolding verify retain_fresh
  check_authorization none password now s = (false, s)
  check_authorization (some a) password now s =
      let kept = retain_fresh now s.nonces in
      (
        answered_right a password (contains_key a.nonce kept),
        record s { nonces = remove a.nonce kept },
      )

  -- `nanos` is the clock as it is printed.
  unfoldable pub challenge : String → ℤ → ServerInner → Reply × ServerInner
  challenge nanos now s =
      let nonce = md5_hex (by_colon nanos (by_colon (seq_text s.nonce_seq) s.sip_id)) in
      (
        unauthorized nonce,
        record s { nonces = insert nonce now s.nonces; nonce_seq = (s.nonce_seq + 1) % 2 ^ 64 },
      )

  abbrev pub after_check :
      String → RegisterRequest → String → ℤ → Bool × ServerInner → Reply × ServerInner
  after_check device_id q nanos now (true, s) = accept_register device_id q now s
  after_check device_id q nanos now (false, s) = challenge nanos now s

  abbrev pub decide :
      AuthDecision → String → RegisterRequest → String → ℤ → ServerInner → Reply × ServerInner
  decide allow device_id q nanos now s = accept_register device_id q now s
  decide reject device_id q nanos now s = (forbidden, s)
  decide (require password) device_id q nanos now s =
      after_check device_id q nanos now (check_authorization q.authorization password now s)

  abbrev pub register_user :
      Option String → RegisterRequest → String → ℤ → ServerInner → Reply × ServerInner
  register_user none q nanos now s = (bad_request, s)
  register_user (some device_id) q nanos now s =
      decide (password_for s.auth device_id) device_id q nanos now s

  unfoldable pub handle_register : RegisterRequest → String → ℤ → ServerInner → Reply × ServerInner
  unfolding accept_register check_authorization challenge password_for
  handle_register q nanos now s = register_user q.user q nanos now s

-- The body of a MESSAGE as manscdp.rs decodes it; a body that fails to decode gets no reply.
pub data Message : Type 0 where
  keepalive_message : String → Message
  catalog_message : CatalogResponse → Message
  malformed : Message
  other_message : Message

abbrev pub keepalive_reply :
    String → Bool → Bool × Registrar → ServerInner → Option Reply × ServerInner
keepalive_reply device_id replies (true, r) s =
    let s' = record s { registrar = r } in
    (some ok_reply, if replies then send (keepalive_received device_id) s' else s')
keepalive_reply device_id replies (false, r) s = (some not_found, record s { registrar = r })

-- A chunk goes to the query of its number, if that is in flight.
abbrev pub route : CatalogResponse → Option (List CatalogResponse) → ServerInner → ServerInner
route c none s = s
route c (some chunks) s = record s {
  pending_catalog = insert c.sn (chunks ++ (c ∷ [])) s.pending_catalog;
}

unfoldable pub handle_message : Message → Bool → ℤ → ServerInner → Option Reply × ServerInner
handle_message (keepalive_message device_id) replies now s =
    keepalive_reply device_id replies (keepalive s.registrar device_id now) s
handle_message (catalog_message c) replies now s =
    (some ok_reply, if replies then route c (lookup c.sn s.pending_catalog) s else s)
handle_message malformed replies now s = (none, s)
handle_message other_message replies now s = (some ok_reply, s)

-- What the sweep says of each device.
unfoldable pub apply_outcomes : List (String × SweepOutcome) → ServerInner → ServerInner
apply_outcomes [] s = s
apply_outcomes ((device_id, went_offline) ∷ os) s =
    apply_outcomes os (send (offline_event device_id) s)
apply_outcomes ((device_id, dropped) ∷ os) s =
    apply_outcomes os
      (send (unregistered_event device_id) (record s { dests = remove device_id s.dests }))

unfoldable pub sweep_once : ℤ → ServerInner → ServerInner
unfolding apply_outcomes retain_fresh
sweep_once now s =
    let swept = sweep s.registrar now in
    apply_outcomes (swept.0) (record s { nonces = retain_fresh now s.nonces; registrar = swept.1 })

abbrev pub if_owned : String → Option (Unit {0}) → ServerInner → ServerInner
if_owned dialog none s = s
if_owned dialog (some u) s =
    send (session_closed dialog) (record s { sessions = remove dialog s.sessions })

-- A dialog that has ended, in `state_loop`.
unfoldable pub terminated : String → ServerInner → ServerInner
terminated dialog s = if_owned dialog (lookup dialog s.sessions) s

-- The start and the end of a catalog query around its wait.
abbrev pub query_to : Option String → ServerInner → Option ℕ × ServerInner
query_to none s = (none, s)
query_to (some dest) s = (
  some s.sn,
  record s { sn = (s.sn + 1) % 2 ^ 64; pending_catalog = insert s.sn [] s.pending_catalog },
)

unfoldable pub begin_query : String → ServerInner → Option ℕ × ServerInner
begin_query device_id s = query_to (lookup device_id s.dests) s

unfoldable pub end_query : ℕ → ServerInner → ServerInner
end_query sn s = record s { pending_catalog = remove sn s.pending_catalog }

-- What the server's tasks handle, each request as a whole.
pub data ServerStep : Type 0 where
  register_step : RegisterRequest → String → ℤ → ServerStep
  message_step : Message → Bool → ℤ → ServerStep
  sweep_step : ℤ → ServerStep
  terminated_step : String → ServerStep
  query_step : String → ServerStep
  answer_step : ℕ → ServerStep

module _ (md5_hex : String → String) (seq_text : ℕ → String) where
  unfoldable pub server_step : ServerStep → ServerInner → ServerInner
  unfolding handle_register handle_message sweep_once terminated begin_query end_query
  server_step (register_step q nanos now) s = (handle_register md5_hex seq_text q nanos now s).1
  server_step (message_step m replies now) s = (handle_message m replies now s).1
  server_step (sweep_step now) s = sweep_once now s
  server_step (terminated_step dialog) s = terminated dialog s
  server_step (query_step device_id) s = (begin_query device_id s).1
  server_step (answer_step sn) s = end_query sn s

  unfoldable pub server_run : List ServerStep → ServerInner → ServerInner
  unfolding server_step
  server_run [] s = s
  server_run (e ∷ es) s = server_run es (server_step e s)

-- `GbServer::bind`: nothing is known yet.
abbrev pub bound : String → AuthConfig → ℤ → ServerInner
bound sip_id auth keepalive_grace = record {
  sip_id = sip_id;
  auth = auth;
  registrar = new keepalive_grace;
  dests = [];
  nonces = [];
  pending_catalog = [];
  sessions = [];
  events = [];
  sn = 1;
  nonce_seq = 1;
}
