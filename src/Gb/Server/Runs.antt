-- ===== src/Gb/Server/Runs.antt =====
-- A camera that registers with a password.
use lite_nvr.Gb.Server.Replay.{sweeps, ends}
use lite_nvr.Bus.Forward.Merge.{ends}
use lite_nvr.Gb.Registrar.{get}
use lite_nvr.Gb.Server.Auth.{Unmoved}
use lite_nvr.Gb.Server.Replay.{handle_register_once, Presents, sweeps, Without}
use lite_nvr.Gb.Server.Late.{unregistered_between}
use lite_nvr.Common.{
  String, List, ℕ, refl, none, some, true, [], ◌∷◌, nat_eq, string_eq, ◌≡◌, ◌≢◌, sym, ◌∙◌,
}
use lite_nvr.Common.Dict.{lookup, insert, remove, contains_key, keep_where}
use lite_nvr.Common.Int.{pos, sub_i64, add_i64}
use lite_nvr.Common.Text.{ascii_lower}
use lite_nvr.Gb.Registrar.{sweep, register, new}
use lite_nvr.Gb.Digest.{password_for, Authorization, shared}
use lite_nvr.Gb.Server.{
  register_device, accept_register, answer_register, ok_register, unauthorized, handle_register,
  sweep_once, begin_query, ServerStep, server_step, bound, RegisterRequest, ServerInner,
  register_step, sweep_step,
}

-- The identity stands for the digest, and "1" for every number.
abbrev digest : String → String
digest s = s

abbrev one : ℕ → String
one n = "1"

abbrev started : ServerInner
started = bound "3402" (shared "pw") (pos 180)

abbrev asks : RegisterRequest
asks = record {
  user = some "cam";
  authorization = none;
  expires = none;
  contact = "sip:cam@10.0.0.9";
  source = some "10.0.0.9:5060";
  replies = true;
}

abbrev proof : Authorization
proof = record {
  username = "cam";
  realm = "34020";
  uri = "sip:34020";
  nonce = "7:1:3402";
  response = "CAM:34020:pw:7:1:3402:register:SIP:34020";
}

abbrev proves : RegisterRequest
proves = record asks { authorization = some proof }

abbrev history : List ServerStep
history =
    register_step asks "7" (pos 10) ∷ register_step proves "8" (pos 11) ∷ sweep_step (pos 20) ∷ []

abbrev challenged : ServerInner
challenged = server_step digest one (register_step asks "7" (pos 10)) started

abbrev accepted : ServerInner
accepted = (handle_register digest one proves "8" (pos 11) challenged).1

accepted_reply : (handle_register digest one proves "8" (pos 11) challenged).0 ≡ ok_register 3600
unfolding server_step handle_register contains_key keep_where insert remove sub_i64 ascii_lower
    register new add_i64 lookup
accepted_reply = refl

not_challenged :
    (handle_register digest one proves "8" (pos 11) challenged).0 ≢ unauthorized "7:1:3402"
not_challenged h = ok_challenge (sym accepted_reply ∙ h)
  where
    ok_challenge : ok_register 3600 ≡ unauthorized "7:1:3402" → ⊥
    ok_challenge h = cc

proves-Presents : Presents digest one proves challenged proof
unfolding server_step password_for handle_register
proves-Presents = record {
  device_id = "cam";
  password = "pw";
  names = refl;
  secret = refl;
  shows = refl;
}

abbrev swept : ServerInner
swept = sweep_once (pos 20) accepted

again-Presents : Presents digest one proves swept proof
unfolding server_step password_for handle_register sweep_once contains_key keep_where insert remove
    sub_i64 ascii_lower register new add_i64 lookup sweep
again-Presents = record {
  device_id = "cam";
  password = "pw";
  names = refl;
  secret = refl;
  shows = refl;
}

between : Without digest one "7:1:3402" accepted swept
between = sweeps (pos 20) accepted _ (ends _)

handle_register_once_example :
    let done = handle_register digest one proves "9" (pos 21) swept in
    ((nonce : String) × (done.0 ≡ unauthorized nonce)) × Unmoved swept done.1
handle_register_once_example =
    handle_register_once digest one proves proves "8" "9" (pos 11) (pos 21) challenged swept proof
      proof proves-Presents again-Presents refl not_challenged between

abbrev leaves : RegisterRequest
leaves = record proves { expires = some (pos 0) }

unregistered_between_example :
    let first = register_device "cam" proves (pos 11) challenged in
    let left = (accept_register "cam" leaves (pos 12) first.1).1 in
    let s' = (answer_register "cam" proves first.0 left).1 in
    (get s'.registrar "cam" ≡ none) × ((begin_query "cam" s').0 ≡ some s'.sn)
unregistered_between_example =
    unregistered_between "cam" "10.0.0.9:5060" proves leaves (pos 11) (pos 12) challenged refl refl
      refl
