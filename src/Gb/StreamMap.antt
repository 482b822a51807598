-- ===== src/Gb/StreamMap.antt =====
-- nvr/src/gb/stream_map.rs: which device and channel a ZLM stream belongs to. The mutex makes each
-- operation one step.
use lite_nvr.Common.{String, string_eq, Bool, true, false, Option, none, some}
use lite_nvr.Common.Dict.{Dict, lookup, insert, remove}
use lite_nvr.Gb.Registrar.{Transport}

pub record Mapping : Type 0 where
  pub device_id : String
  pub channel_id : String
  pub transport : Transport

abbrev pub StreamMap : Type 0
StreamMap = Dict String Mapping

unfoldable pub register : StreamMap → String → String → String → Transport → StreamMap
register m stream_id device_id channel_id transport =
    insert stream_id
      (record { device_id = device_id; channel_id = channel_id; transport = transport }) m

unfoldable pub unregister : StreamMap → String → Option Mapping × StreamMap
unregister m stream_id = (lookup stream_id m, remove stream_id m)

-- `get_mut` and the write through it: the entry is replaced.
unfoldable pub set_transport : StreamMap → String → Transport → Bool × StreamMap
set_transport m stream_id transport = elim (lookup stream_id m) [
  | none ↦ (false, m)
  | some found ↦ (true, insert stream_id (record found { transport = transport }) m)
]
