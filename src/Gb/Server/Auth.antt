-- ===== src/Gb/Server/Auth.antt =====
-- server.rs: who may register.
use lite_nvr.Common.Int.{ℤ, pos, ◌==ℤ◌, ltb_ℤ}
use lite_nvr.Gb.Registrar.{
  get, register, registration, register_if, udp, Registrar, RegistrarChange, registered, refreshed,
  unregistered, no_change,
}
use lite_nvr.Common.Dict.{contains_key, lookup, Dict, remove, lookup-insert, lookup-remove}
use lite_nvr.Common.{
  Option, Bool, ℕ, String, [], ◌∷◌, ◌++◌, ◌==◌, ap, ◌∙◌, Bool-cases, refl, none, some, true, false,
  nat_eq, string_eq, if◌then◌else◌, ◌≡◌, ◌⊎◌, inl, inr,
}
use lite_nvr.Gb.Digest.{verify, Authorization, AuthDecision, allow, require, reject}
use lite_nvr.Gb.Server.{
  accept_register, register_device, answer_register, told, learn_dest, expires_of, registered_event,
  unregistered_event, retain_fresh, check_authorization, RegisterRequest, ServerInner,
}

-- The tables of the devices are what they were, and no event was sent.
abbrev pub Unmoved : ServerInner → ServerInner → Type 0
Unmoved s s' = (s'.registrar ≡ s.registrar) × ((s'.dests ≡ s.dests) × (s'.events ≡ s.events))

-- What an accepted REGISTER of the device does: the registrar has its new registration, or no
-- longer has the device, and every other device as it was; the other devices' destinations are
-- kept; and the event, if one is sent, is of the device.
pub record Accepted (device_id : String) (q : RegisterRequest) (now : ℤ) (s s' : ServerInner)
    : Type 0 where
  pub devices :
      (id : String)
      → get s'.registrar id ≡ (
          if device_id == id
          then if expires_of q.expires ==ℤ pos 0
            then none
            else some (registration device_id q.contact udp (expires_of q.expires) now)
          else get s.registrar id)
  pub others_dests :
      (id : String) → (device_id == id) ≡ false → lookup id s'.dests ≡ lookup id s.dests
  pub said :
      (s'.events ≡ s.events)
      ⊎ ((s'.events ≡ s.events ++ (registered_event device_id ∷ []))
          ⊎ (s'.events ≡ s.events ++ (unregistered_event device_id ∷ [])))

-- The events aside, telling keeps the tables.
pub told-tables :
    (b : Bool) (c : RegistrarChange) (device_id : String) (s : ServerInner)
    → let s' = told b c device_id s in
      (s'.registrar ≡ s.registrar) × (s'.dests ≡ s.dests) × (s'.sn ≡ s.sn)
told-tables true registered device_id s = (refl, refl, refl)
told-tables true unregistered device_id s = (refl, refl, refl)
told-tables true refreshed device_id s = (refl, refl, refl)
told-tables true no_change device_id s = (refl, refl, refl)
told-tables false c device_id s = (refl, refl, refl)

told-events :
    (b : Bool) (c : RegistrarChange) (device_id : String) (s : ServerInner)
    → let s' = told b c device_id s in
      (s'.events ≡ s.events)
      ⊎ ((s'.events ≡ s.events ++ (registered_event device_id ∷ []))
          ⊎ (s'.events ≡ s.events ++ (unregistered_event device_id ∷ [])))
told-events true registered device_id s = inr (inl refl)
told-events true unregistered device_id s = inr (inr refl)
told-events true refreshed device_id s = inl refl
told-events true no_change device_id s = inl refl
told-events false c device_id s = inl refl

pub register-get :
    (r : Registrar) (device_id contact : String) (expires now : ℤ) (id : String)
    → get (register r device_id contact udp expires now).1 id ≡ (
        if device_id == id
        then if expires ==ℤ pos 0
          then none
          else some (registration device_id contact udp expires now)
        else get r id)
unfolding get register registration register_if
register-get r device_id contact expires now id = elim (Bool-cases (expires ==ℤ pos 0)) [
  | inl e ↦ rw e (lookup-remove id device_id r.devices)
  | inr e ↦ rw e (lookup-insert id device_id _ r.devices)
]

pub accept-Accepted :
    (device_id : String) (q : RegisterRequest) (now : ℤ) (s : ServerInner)
    → Accepted device_id q now s (accept_register device_id q now s).1
unfolding accept_register register_device answer_register
accept-Accepted device_id q now s = record {
  devices = λ id.
      ap (λ r. get r id) (tables.0)
      ∙ register-get s.registrar device_id q.contact (expires_of q.expires) now id;
  others_dests = λ id other. ap (λ m. lookup id m) (tables.1) ∙ kept id other;
  said = told-events q.replies done.0 device_id after;
}
  where
    done : RegistrarChange × ServerInner
    done = register_device device_id q now s

    dests_of : Bool → Dict String String
    dests_of b = if b then learn_dest device_id q.source s.dests else remove device_id s.dests

    after : ServerInner
    after = record done.1 { dests = dests_of (ltb_ℤ (pos 0) (expires_of q.expires)) }

    tables :
        ((told q.replies done.0 device_id after).registrar ≡ after.registrar)
        × ((told q.replies done.0 device_id after).dests ≡ after.dests)
        × ((told q.replies done.0 device_id after).sn ≡ after.sn)
    tables = told-tables q.replies done.0 device_id after

    learnt :
        (o : Option String) (id : String)
        → (device_id == id) ≡ false
        → lookup id (learn_dest device_id o s.dests) ≡ lookup id s.dests
    learnt none id other = refl
    learnt (some dest) id other = lookup-insert id device_id dest s.dests ∙ rw other refl

    kept_in :
        (b : Bool) (id : String)
        → (device_id == id) ≡ false
        → lookup id (dests_of b) ≡ lookup id s.dests
    kept_in true id other = learnt q.source id other
    kept_in false id other = lookup-remove id device_id s.dests ∙ rw other refl

    kept : (id : String) → (device_id == id) ≡ false → lookup id after.dests ≡ lookup id s.dests
    kept id other = kept_in (ltb_ℤ (pos 0) (expires_of q.expires)) id other

module _ (md5_hex : String → String) (seq_text : ℕ → String) where
  -- The credentials of a request hold: a nonce of less than 300 seconds, and its digest.
  unfoldable pub Proves : Option Authorization → String → ℤ → ServerInner → Type 0
  Proves none password now s = ⊥
  Proves (some a) password now s =
      (contains_key a.nonce (retain_fresh now s.nonces) ≡ true)
      × (verify md5_hex a.username a.realm password "REGISTER" a.uri a.nonce a.response ≡ true)

  -- Who is let in.
  unfoldable pub Passes : AuthDecision → RegisterRequest → ℤ → ServerInner → Type 0
  Passes allow q now s = Unit {0}
  Passes reject q now s = ⊥
  Passes (require password) q now s = Proves q.authorization password now s

  pub check-Unmoved :
      (o : Option Authorization) (password : String) (now : ℤ) (s : ServerInner)
      → Unmoved s (check_authorization md5_hex seq_text o password now s).1
  unfolding check_authorization
  check-Unmoved none password now s = (refl, (refl, refl))
  check-Unmoved (some a) password now s = (refl, (refl, refl))
