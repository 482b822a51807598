-- ===== src/Gb/Server/Dests.antt =====
-- server.rs: a REGISTER and a sweep leave no destination without a registered device.
use mathlib.Core.Option.{some-injective}
use lite_nvr.Gb.Registrar.Track.{
  overdue, sweep_at, sweep_lem, track, register_at, serve, serve-track,
}
use lite_nvr.Common.Dict.{lookup-remove, lookup-insert, Dict, remove, lookup, UniqueKeys}
use lite_nvr.Common.{
  ◌&&◌, List, Option, Bool, String, refl, sym, ap, subst, ◌∙◌, none, some, true, false, [], ◌∷◌,
  nat_eq, string_eq, if◌then◌else◌, ◌==◌, ◌≡◌, ◌≢◌, ◌⊎◌, inl, inr, Bool-cases, not, arith,
}
use lite_nvr.Gb.Registrar.{
  Registrar, sweep, get, SweepOutcome, registration, RegistrarChange, udp, register,
  RegisteredDevice, registered, refreshed, unregistered, no_change, went_offline, dropped,
}
use lite_nvr.Gb.Server.{
  retain_fresh, sweep_once, send, offline_event, unregistered_event, apply_outcomes, told,
  accept_register, learn_dest, expires_of, RegisterRequest, ServerInner,
}
use lite_nvr.Common.Int.{leb_ℤ, ◌==ℤ◌, ltb_ℤ, ℤ, pos, negsuc}

abbrev pub Known : ServerInner → String → Type 0
Known s id = (d : RegisteredDevice) × (lookup id s.registrar.devices ≡ some d)

-- Who has a destination is registered.
pub record Agrees (s : ServerInner) : Type 0 where
  pub keys : UniqueKeys s.registrar.devices
  pub known : (id dest : String) → lookup id s.dests ≡ some dest → Known s id

positive_not_zero : (e : ℤ) → ltb_ℤ (pos 0) e ≡ true → not (e ==ℤ pos 0) ≡ true
positive_not_zero (pos n) h = ground arith
positive_not_zero (negsuc n) h = ground arith

pub none_not_some : {A : Type 0} (a : A) → none ≡ some a → ⊥
none_not_some a h = cc

-- The destinations after a REGISTER: another device's is what it was, and who takes leave has none.
dests_after : Bool → String → RegisterRequest → ServerInner → Dict String String
dests_after b device_id q s =
    if b then learn_dest device_id q.source s.dests else remove device_id s.dests

others_dest :
    (b : Bool) (device_id : String) (q : RegisterRequest) (s : ServerInner) (id : String)
    → (device_id == id) ≡ false
    → lookup id (dests_after b device_id q s) ≡ lookup id s.dests
unfolding dests_after
others_dest true device_id q s id other = learnt q.source
  where
    learnt : (o : Option String) → lookup id (learn_dest device_id o s.dests) ≡ lookup id s.dests
    learnt none = refl
    learnt (some dest) = lookup-insert id device_id dest s.dests ∙ rw other refl
others_dest false device_id q s id other = lookup-remove id device_id s.dests ∙ rw other refl

accept-known :
    (device_id : String) (q : RegisterRequest) (now : ℤ) (s : ServerInner) (b : Bool)
    → Agrees s
    → ltb_ℤ (pos 0) (expires_of q.expires) ≡ b
    → (id dest : String) → lookup id (dests_after b device_id q s) ≡ some dest
    → (d : RegisteredDevice) × (lookup id
          (register s.registrar device_id q.contact udp (expires_of q.expires) now).1.devices
        ≡ some d)
unfolding serve track dests_after
accept-known device_id q now s b a positive id dest h = at (Bool-cases (device_id == id))
  where
    step :
        lookup id
          (register s.registrar device_id q.contact udp (expires_of q.expires) now).1.devices
        ≡ (if device_id == id
            then if not (expires_of q.expires ==ℤ pos 0)
              then some (registration device_id q.contact udp (expires_of q.expires) now)
              else none
            else lookup id s.registrar.devices)
    step =
        (serve-track s.registrar (register_at device_id q.contact udp (expires_of q.expires) now) id
          a.keys).0

    leaves_none :
        (b : Bool)
        → ltb_ℤ (pos 0) (expires_of q.expires) ≡ b
        → (device_id == id) ≡ true
        → lookup id (if b then learn_dest device_id q.source s.dests else remove device_id s.dests)
          ≡ some dest
        → not (expires_of q.expires ==ℤ pos 0) ≡ true
    leaves_none true positive y h = positive_not_zero (expires_of q.expires) positive
    leaves_none false positive y h = absurd (
        none_not_some dest (
          sym (ap (λ b. if b then none else lookup id s.dests) y)
          ∙ (sym (lookup-remove id device_id s.dests) ∙ h)))

    at :
        ((device_id == id) ≡ true) ⊎ ((device_id == id) ≡ false)
        → (d : RegisteredDevice) × (lookup id
              (register s.registrar device_id q.contact udp (expires_of q.expires) now).1.devices
            ≡ some d)
    at (inl y) = (
      registration device_id q.contact udp (expires_of q.expires) now,
      step ∙ rw (y, leaves_none b positive y h) refl,
    )
    at (inr n) =
        let d = a.known id dest (sym (others_dest b device_id q s id n) ∙ h) in
        (d.0, step ∙ rw n d.1)

pub accept-Agrees :
    (device_id : String) (q : RegisterRequest) (now : ℤ) (s : ServerInner)
    → Agrees s
    → Agrees (accept_register device_id q now s).1
unfolding accept_register dests_after serve
accept-Agrees device_id q now s a =
    after q.replies (register s.registrar device_id q.contact udp (expires_of q.expires) now).0 _
      (record {
        keys =
            (serve-track s.registrar
              (register_at device_id q.contact udp (expires_of q.expires) now) device_id a.keys).1;
        known = accept-known device_id q now s _ a refl;
      })
  where
    after :
        (b : Bool) (c : RegistrarChange) (s : ServerInner)
        → Agrees s
        → Agrees (told b c device_id s)
    after true registered s h = record { keys = h.keys; known = h.known }
    after true unregistered s h = record { keys = h.keys; known = h.known }
    after true refreshed s h = h
    after true no_change s h = h
    after false c s h = h

gone_with :
    (os : List (String × SweepOutcome)) (s : ServerInner) (id dest : String)
    → lookup id (apply_outcomes os s).dests ≡ some dest
    → (lookup id s.dests ≡ some dest) × (lookup id os ≢ some dropped)
unfolding apply_outcomes lookup
gone_with [] s id dest h = (h, no)
  where
    no : none ≡ some dropped → ⊥
    no e = cc
gone_with ((j, went_offline) ∷ os) s id dest h =
    let rest = gone_with os (send (offline_event j) s) id dest h in (rest.0, at (j == id) rest.1)
  where
    other : some went_offline ≡ some dropped → ⊥
    other e = offline_dropped (some-injective went_offline dropped e)
      where
        offline_dropped : went_offline ≡ dropped → ⊥
        offline_dropped e = cc

    at :
        (b : Bool)
        → (lookup id os ≡ some dropped → ⊥)
        → (if b then some went_offline else lookup id os) ≡ some dropped
        → ⊥
    at true k e = other e
    at false k e = k e
gone_with ((j, dropped) ∷ os) s id dest h =
    let rest =
      gone_with os (send (unregistered_event j) (record s { dests = remove j s.dests })) id dest
        h in
    at (Bool-cases (j == id)) (sym (lookup-remove id j s.dests) ∙ rest.0) rest.1
  where
    at :
        ((j == id) ≡ true) ⊎ ((j == id) ≡ false)
        → (if j == id then none else lookup id s.dests) ≡ some dest
        → (lookup id os ≢ some dropped)
        → (lookup id s.dests ≡ some dest)
          × ((if j == id then some dropped else lookup id os) ≢ some dropped)
    at (inl y) e k =
        absurd (none_not_some dest (sym (ap (λ b. if b then none else lookup id s.dests) y) ∙ e))
    at (inr n) e k = (
      sym (ap (λ b. if b then none else lookup id s.dests) n) ∙ e,
      λ x. k (sym (ap (λ b. if b then some dropped else lookup id os) n) ∙ x),
    )

outcomes_registrar :
    (os : List (String × SweepOutcome)) (s : ServerInner)
    → (apply_outcomes os s).registrar ≡ s.registrar
unfolding apply_outcomes
outcomes_registrar [] s = refl
outcomes_registrar ((j, went_offline) ∷ os) s = outcomes_registrar os _
outcomes_registrar ((j, dropped) ∷ os) s = outcomes_registrar os _

-- A device that the sweep does not drop stays registered.
swept_known :
    (r : Registrar) (now : ℤ) (id : String) (d : RegisteredDevice)
    → UniqueKeys r.devices
    → lookup id r.devices ≡ some d
    → lookup id (sweep r now).0 ≢ some dropped
    → (d' : RegisteredDevice) × (lookup id (sweep r now).1.devices ≡ some d')
unfolding get
swept_known r now id d u here not_dropped =
    let l = sweep_lem r now id u in
    elim (Bool-cases (leb_ℤ d.expires_at now)) [
      | inl e ↦ absurd (not_dropped (l.1 ∙ rw (here, e) refl))
      | inr e ↦ (
        record d { online = d.online && not (overdue r.keepalive_grace now d) },
        l.0 ∙ rw (here, e) refl,
      )
    ]

pub sweep-Agrees : (now : ℤ) (s : ServerInner) → Agrees s → Agrees (sweep_once now s)
unfolding sweep_once serve
sweep-Agrees now s a =
    let swept = sweep s.registrar now in
    let base = record s { nonces = retain_fresh now s.nonces; registrar = swept.1 } in
    let same = outcomes_registrar (swept.0) base in
    record {
      keys =
          subst (λ (r : Registrar). UniqueKeys r.devices) (sym same)
            (serve-track s.registrar (sweep_at now) "" a.keys).1;
      known = λ id dest h.
          let g = gone_with (swept.0) base id dest h in
          let d = a.known id dest g.0 in
          let kept = swept_known s.registrar now id d.0 a.keys d.1 g.1 in
          (kept.0, ap (λ (r : Registrar). lookup id r.devices) same ∙ kept.1);
    }
