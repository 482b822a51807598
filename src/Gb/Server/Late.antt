-- ===== src/Gb/Server/Late.antt =====
-- server.rs: an acceptance that waits for the destination while the device takes leave.
use lite_nvr.Gb.Server.Auth.{accept-Accepted, told-tables}
use lite_nvr.Gb.Server.{
  ServerInner, RegisterRequest, register_device, answer_register, accept_register, begin_query,
  query_to, expires_of, learn_dest, told,
}
use lite_nvr.Gb.Registrar.{get, Registrar, RegistrarChange}
use lite_nvr.Common.Dict.{lookup, insert, lookup-insert, remove}
use lite_nvr.Common.Int.{ℤ, pos, ltb_ℤ, ◌==ℤ◌}
use lite_nvr.Common.{String, refl, ap, ◌∙◌, ◌≡◌, none, some, true, string_eq, if◌then◌else◌}

-- The one who takes leave is no longer registered.
left_none :
    (device_id : String) (bye : RegisterRequest) (now : ℤ) (s : ServerInner)
    → (expires_of bye.expires ==ℤ pos 0) ≡ true
    → get (accept_register device_id bye now s).1.registrar device_id ≡ none
left_none device_id bye now s zero =
    (accept-Accepted device_id bye now s).devices device_id
    ∙ rw ((string_eq.hits_iff device_id device_id).1 refl, zero) refl

-- What the acceptance does after its await.
answered_late :
    (device_id dest : String) (q : RegisterRequest) (c : RegistrarChange) (s : ServerInner)
    → ltb_ℤ (pos 0) (expires_of q.expires) ≡ true
    → q.source ≡ some dest
    → let s' = (answer_register device_id q c s).1 in
      (s'.registrar ≡ s.registrar) × (lookup device_id s'.dests ≡ some dest)
unfolding answer_register
answered_late device_id dest q c s lasts known =
    (tables.0, ap (λ m. lookup device_id m) tables.1 ∙ here)
  where
    learnt : ServerInner
    learnt = record s {
      dests =
          if ltb_ℤ (pos 0) (expires_of q.expires)
          then learn_dest device_id q.source s.dests
          else remove device_id s.dests;
    }

    inserted : lookup device_id (insert device_id dest s.dests) ≡ some dest
    inserted =
        lookup-insert device_id device_id dest s.dests
        ∙ rw ((string_eq.hits_iff device_id device_id).1 refl) refl

    here : lookup device_id learnt.dests ≡ some dest
    here = rw (lasts, known) inserted

    tables :
        ((told q.replies c device_id learnt).registrar ≡ learnt.registrar)
        × ((told q.replies c device_id learnt).dests ≡ learnt.dests)
        × ((told q.replies c device_id learnt).sn ≡ learnt.sn)
    tables = told-tables q.replies c device_id learnt

-- When a device takes leave, in a REGISTER that is accepted as a whole, while the acceptance of an
-- earlier one of it waits for the destination: afterwards the device is not registered, and a query
-- is still sent to it.
pub unregistered_between :
    (device_id dest : String) (q bye : RegisterRequest) (now now' : ℤ) (s : ServerInner)
    → ltb_ℤ (pos 0) (expires_of q.expires) ≡ true
    → q.source ≡ some dest
    → (expires_of bye.expires ==ℤ pos 0) ≡ true
    → let first = register_device device_id q now s in
      let left = (accept_register device_id bye now' first.1).1 in
      let s' = (answer_register device_id q first.0 left).1 in
      (get s'.registrar device_id ≡ none) × ((begin_query device_id s').0 ≡ some s'.sn)
unfolding begin_query
unregistered_between device_id dest q bye now now' s lasts known zero =
    let first = register_device device_id q now s in
    let left = (accept_register device_id bye now' first.1).1 in
    let s' = (answer_register device_id q first.0 left).1 in
    let late = answered_late device_id dest q first.0 left lasts known in
    (
      ap (λ (r : Registrar). get r device_id) late.0 ∙ left_none device_id bye now' first.1 zero,
      ap (λ o. (query_to o s').0) late.1,
    )
