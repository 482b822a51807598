-- ===== src/Gb/Registrar.antt =====
-- crates/gb28181/src/registrar.rs: registrations by device id, with expiry and keepalive.
pub mod Track
use lite_nvr.Common.{
  String, string_eq, Bool, true, false, not, ◌&&◌, Option, none, some, List, [], ◌∷◌, if◌then◌else◌,
  ltb, ◌≤◌, leb, ◌+◌, ◌-◌,
}
use lite_nvr.Common.Dict.{Dict, lookup, insert, remove, contains_key, put_front}
use lite_nvr.Common.Int.{ℤ, pos, negsuc, ◌-ℤ◌, ltb_ℤ, leb_ℤ, ◌==ℤ◌, add_i64, sub_i64}

pub data Transport : Type 0 where
  udp : Transport
  tcp_active : Transport
  tcp_passive : Transport

-- The times are i64 seconds.
pub record RegisteredDevice : Type 0 where
  pub device_id : String
  pub contact : String
  pub transport : Transport
  pub expires_at : ℤ
  pub last_keepalive : ℤ
  pub online : Bool

pub record Registrar : Type 0 where
  pub devices : Dict String RegisteredDevice
  pub keepalive_grace : ℤ

pub data RegistrarChange : Type 0 where
  registered : RegistrarChange
  refreshed : RegistrarChange
  unregistered : RegistrarChange
  no_change : RegistrarChange

pub data SweepOutcome : Type 0 where
  went_offline : SweepOutcome
  dropped : SweepOutcome

unfoldable pub new : ℤ → Registrar
new keepalive_grace = record { devices = []; keepalive_grace = keepalive_grace }

unfoldable pub registration : String → String → Transport → ℤ → ℤ → RegisteredDevice
registration device_id contact transport expires now = record {
  device_id = device_id;
  contact = contact;
  transport = transport;
  expires_at = add_i64 now expires;
  last_keepalive = now;
  online = true;
}

-- The two branches of REGISTER: with `expires` zero the device goes.
unfoldable pub register_if : Bool → Registrar → RegisteredDevice → RegistrarChange × Registrar
register_if false r d = (
  (if contains_key d.device_id r.devices then unregistered else no_change),
  record r { devices = remove d.device_id r.devices },
)
register_if true r d = (
  (if contains_key d.device_id r.devices then refreshed else registered),
  record r { devices = insert d.device_id d r.devices },
)

unfoldable pub register :
    Registrar → String → String → Transport → ℤ → ℤ → RegistrarChange × Registrar
unfolding registration register_if
register r device_id contact transport expires now =
    register_if (not (expires ==ℤ pos 0)) r (registration device_id contact transport expires now)

abbrev pub kept_alive : ℤ → RegisteredDevice → RegisteredDevice
kept_alive now d = record d { last_keepalive = now; online = true }

-- `get_mut` and the write through it: the entry is replaced.
unfoldable pub touch : Option RegisteredDevice → Registrar → String → ℤ → Bool × Registrar
touch none r device_id now = (false, r)
touch (some d) r device_id now =
    (true, record r { devices = insert device_id (kept_alive now d) r.devices })

unfoldable pub keepalive : Registrar → String → ℤ → Bool × Registrar
unfolding touch
keepalive r device_id now = touch (lookup device_id r.devices) r device_id now

-- What the closure given to `retain` does to one device.
unfoldable pub sweep_device :
    ℤ → ℤ → RegisteredDevice → Option RegisteredDevice × Option SweepOutcome
sweep_device grace now d =
    if leb_ℤ d.expires_at now
    then (none, some dropped)
    else if d.online && ltb_ℤ grace (sub_i64 now d.last_keepalive)
    then (some (record d { online = false }), some went_offline)
    else (some d, none)

unfoldable pub sweep_all :
    ℤ → ℤ → Dict String RegisteredDevice → Dict String RegisteredDevice × Dict String SweepOutcome
unfolding sweep_device put_front
sweep_all grace now [] = ([], [])
sweep_all grace now ((id, d) ∷ m) =
    let rest = sweep_all grace now m in
    let done = sweep_device grace now d in (put_front id done.0 rest.0, put_front id done.1 rest.1)

unfoldable pub sweep : Registrar → ℤ → List (String × SweepOutcome) × Registrar
unfolding sweep_all
sweep r now =
    let done = sweep_all r.keepalive_grace now r.devices in (done.1, record r { devices = done.0 })

unfoldable pub get : Registrar → String → Option RegisteredDevice
get r device_id = lookup device_id r.devices
