-- ===== src/Gb/Registrar/Track.antt =====
-- Each device of the registrar is on its own: a history as one device sees it, and what a sweep says.
use lite_nvr.Common.Dict.{
  lookup-put_front, lookup, Dict, lookup-remove, remove-UniqueKeys, lookup-insert,
  insert-UniqueKeys, put_front-UniqueKeys, UniqueKeys,
}
use lite_nvr.Common.Int.{sub_i64, leb_ℤ, ltb_ℤ, pos, ◌==ℤ◌, ℤ}
use lite_nvr.Gb.Registrar.{
  went_offline, dropped, touch, register_if, new, get, kept_alive, registration, sweep,
  SweepOutcome, sweep_device, keepalive, Transport, RegisteredDevice, register, sweep_all,
  Registrar,
}
use lite_nvr.Common.{
  refl, not, Bool-cases, sym, inl, inr, ◌&&◌, Option-cases, inr, inl, Bool-cases, ap, ◌∙◌,
  string_eq, ◌==◌, if◌then◌else◌, String, ◌≡◌, Option, none, some, Bool, true, false, List, [], ◌∷◌,
}

pub data Request : Type 0 where
  register_at : String → String → Transport → ℤ → ℤ → Request
  keepalive_at : String → ℤ → Request
  sweep_at : ℤ → Request

unfoldable pub serve : Registrar → Request → Registrar
serve r (register_at id contact transport expires now) =
    (register r id contact transport expires now).1
serve r (keepalive_at id now) = (keepalive r id now).1
serve r (sweep_at now) = (sweep r now).1

pub serve_all : Registrar → List Request → Registrar
serve_all r [] = r
serve_all r (q ∷ qs) = serve_all (serve r q) qs

-- The state of the one device `id`: absent, or its registration.
unfoldable pub track : ℤ → String → Option RegisteredDevice → Request → Option RegisteredDevice
track grace id o (register_at j contact transport expires now) =
    if j == id
    then if not (expires ==ℤ pos 0)
      then some (registration j contact transport expires now)
      else none
    else o
track grace id o (keepalive_at j now) =
    if j == id then elim o [ none ↦ none | some d ↦ some (kept_alive now d) ] else o
track grace id o (sweep_at now) = elim o [ none ↦ none | some d ↦ (sweep_device grace now d).0 ]

pub track_all : ℤ → String → Option RegisteredDevice → List Request → Option RegisteredDevice
track_all grace id o [] = o
track_all grace id o (q ∷ qs) = track_all grace id (track grace id o q) qs

abbrev pub kept_of : ℤ → ℤ → Option RegisteredDevice → Option RegisteredDevice
kept_of grace now o = elim o [ none ↦ none | some d ↦ (sweep_device grace now d).0 ]

abbrev said_of : ℤ → ℤ → Option RegisteredDevice → Option SweepOutcome
said_of grace now o = elim o [ none ↦ none | some d ↦ (sweep_device grace now d).1 ]

module _ (grace now : ℤ) where
  lookup-sweep_all :
      (id : String) (m : Dict String RegisteredDevice)
      → UniqueKeys m
      → (lookup id (sweep_all grace now m).0 ≡ kept_of grace now (lookup id m))
        × (lookup id (sweep_all grace now m).1 ≡ said_of grace now (lookup id m))
  unfolding sweep_all lookup
  lookup-sweep_all id [] u = (refl, refl)
  lookup-sweep_all id ((j, d) ∷ m) u =
      let done = sweep_device grace now d in
      let rest = sweep_all grace now m in
      let here = lookup-sweep_all id m u.1 in
      let absent = lookup-sweep_all j m u.1 in
      let fresh = ap (kept_of grace now) u.0 in
      let quiet = ap (said_of grace now) u.0 in
      let kept = lookup-put_front id j done.0 rest.0 (absent.0 ∙ fresh) in
      let said = lookup-put_front id j done.1 rest.1 (absent.1 ∙ quiet) in
      elim (Bool-cases (j == id)) [
        | inl e ↦ (kept ∙ rw e refl, said ∙ rw e refl)
        | inr e ↦ (kept ∙ rw e here.0, said ∙ rw e here.1)
      ]

  sweep_all-UniqueKeys :
      (m : Dict String RegisteredDevice)
      → UniqueKeys m
      → UniqueKeys (sweep_all grace now m).0 × UniqueKeys (sweep_all grace now m).1
  unfolding sweep_all
  sweep_all-UniqueKeys [] u = (tt, tt)
  sweep_all-UniqueKeys ((j, d) ∷ m) u =
      let done = sweep_device grace now d in
      let rest = sweep_all grace now m in
      let keys = sweep_all-UniqueKeys m u.1 in
      let absent = lookup-sweep_all j m u.1 in
      (
        put_front-UniqueKeys j done.0 rest.0 (absent.0 ∙ ap (kept_of grace now) u.0) keys.0,
        put_front-UniqueKeys j done.1 rest.1 (absent.1 ∙ ap (said_of grace now) u.0) keys.1,
      )

abbrev pub Served : Registrar → Registrar → String → Option RegisteredDevice → Type 0
Served r r' id o =
    (lookup id r'.devices ≡ o) × UniqueKeys r'.devices × (r'.keepalive_grace ≡ r.keepalive_grace)

register_if-track :
    (b : Bool) (r : Registrar) (d : RegisteredDevice) (id : String)
    → UniqueKeys r.devices
    → Served r
        (register_if b r d).1
        id
        (if d.device_id == id then if b then some d else none else lookup id r.devices)
unfolding register_if
register_if-track true r d id u =
    (lookup-insert id d.device_id d r.devices, insert-UniqueKeys d.device_id d r.devices u, refl)
register_if-track false r d id u =
    (lookup-remove id d.device_id r.devices, remove-UniqueKeys d.device_id r.devices u, refl)

abbrev touched : ℤ → Option RegisteredDevice → Option RegisteredDevice
touched now o = elim o [ none ↦ none | some d ↦ some (kept_alive now d) ]

touch-track :
    (o : Option RegisteredDevice) (r : Registrar) (j : String) (now : ℤ) (id : String)
    → lookup j r.devices ≡ o
    → UniqueKeys r.devices
    → Served r
        (touch o r j now).1
        id
        (if j == id then touched now (lookup id r.devices) else lookup id r.devices)
unfolding touch
touch-track none r j now id e u = (
  elim (Bool-cases (j == id)) [
    | inr n ↦ rw n refl
    | inl y ↦
        let here : lookup id r.devices ≡ none =
          ap (λ k. lookup k r.devices) (sym ((string_eq.hits_iff j id).0 y)) ∙ e in
        rw (y, here) refl
  ],
  u,
  refl,
)
touch-track (some d) r j now id e u =
    let d' = kept_alive now d in
    (
      lookup-insert id j d' r.devices ∙ elim (Bool-cases (j == id)) [
        | inr n ↦ rw n refl
        | inl y ↦
            let here : lookup id r.devices ≡ some d =
              ap (λ k. lookup k r.devices) (sym ((string_eq.hits_iff j id).0 y)) ∙ e in
            rw (y, here) refl
      ],
      insert-UniqueKeys j d' r.devices u,
      refl,
    )

pub serve-track :
    (r : Registrar) (q : Request) (id : String)
    → UniqueKeys r.devices
    → Served r (serve r q) id (track r.keepalive_grace id (lookup id r.devices) q)
unfolding serve track register keepalive sweep registration
serve-track r (register_at j contact transport expires now) id u =
    register_if-track (not (expires ==ℤ pos 0)) r (registration j contact transport expires now) id
      u
serve-track r (keepalive_at j now) id u = touch-track (lookup j r.devices) r j now id refl u
serve-track r (sweep_at now) id u = (
  (lookup-sweep_all r.keepalive_grace now id r.devices u).0,
  (sweep_all-UniqueKeys r.keepalive_grace now r.devices u).0,
  refl,
)

serve_all_from :
    (r : Registrar) (qs : List Request) (id : String)
    → UniqueKeys r.devices
    → lookup id (serve_all r qs).devices ≡ track_all r.keepalive_grace id (lookup id r.devices) qs
unfolding serve_all track_all
serve_all_from r [] id u = refl
serve_all_from r (q ∷ qs) id u =
    let s = serve-track r q id u in
    serve_all_from (serve r q) qs id s.1
    ∙ ap (λ g. track_all g id (lookup id (serve r q).devices) qs) s.2
    ∙ ap (λ o. track_all r.keepalive_grace id o qs) s.0

-- After any requests, in any order and at any times, a registrar that started out empty knows of
-- each device what that device's own registration, its keepalives and the sweeps make of it: no
-- device changes another.
pub serve_all-track_all :
    (grace : ℤ) (qs : List Request) (id : String)
    → get (serve_all (new grace) qs) id ≡ track_all grace id none qs
unfolding get new lookup
serve_all-track_all grace qs id = serve_all_from (new grace) qs id tt

abbrev pub overdue : ℤ → ℤ → RegisteredDevice → Bool
overdue grace now d = ltb_ℤ grace (sub_i64 now d.last_keepalive)

device_swept :
    (grace now : ℤ) (d : RegisteredDevice)
    → let done = sweep_device grace now d in
      (done.0 ≡ (
        if leb_ℤ d.expires_at now
        then none
        else some (record d { online = d.online && not (overdue grace now d) })))
      × (done.1 ≡ (
          if leb_ℤ d.expires_at now
          then some dropped
          else if d.online && overdue grace now d
          then some went_offline
          else none))
unfolding sweep_device
device_swept grace now d = elim (Bool-cases (leb_ℤ d.expires_at now)) [
  | inl e ↦ rw e (refl, refl)
  | inr e ↦ elim (Bool-cases (d.online)) [
    | inr o ↦ rw (e, o) (refl, refl)
    | inl o ↦ elim (Bool-cases (ltb_ℤ grace (sub_i64 now d.last_keepalive))) [
      | inl l ↦ rw (e, o, l) (refl, refl)
      | inr l ↦ rw (e, o, l) (refl, refl)
    ]
  ]
]

-- On devices with no key twice, a sweep drops a device exactly at its expiry, marks it offline
-- exactly when it is online and its keepalive is overdue, leaves any other as it was, and names just
-- those two kinds, once each, with what happened to them.
pub sweep_lem :
    (r : Registrar) (now : ℤ) (id : String)
    → UniqueKeys r.devices
    → let d = get r id in
      let swept = sweep r now in
      (get swept.1 id ≡ elim d [
        | none ↦ none
        | some d ↦
            if leb_ℤ d.expires_at now
            then none
            else some (record d { online = d.online && not (overdue r.keepalive_grace now d) })
      ])
      × (lookup id swept.0 ≡ elim d [
        | none ↦ none
        | some d ↦
            if leb_ℤ d.expires_at now
            then some dropped
            else if d.online && overdue r.keepalive_grace now d
            then some went_offline
            else none
      ])
      × UniqueKeys swept.0
unfolding sweep get
sweep_lem r now id u =
    let l = lookup-sweep_all r.keepalive_grace now id r.devices u in
    let each = λ (d : RegisteredDevice). device_swept r.keepalive_grace now d in
    elim (Option-cases (lookup id r.devices)) [
      | inl e ↦ (
        l.0 ∙ rw e refl,
        l.1 ∙ rw e refl,
        (sweep_all-UniqueKeys r.keepalive_grace now r.devices u).1,
      )
      | inr (d, e) ↦ (
        l.0 ∙ rw e (each d).0,
        l.1 ∙ rw e (each d).1,
        (sweep_all-UniqueKeys r.keepalive_grace now r.devices u).1,
      )
    ]
