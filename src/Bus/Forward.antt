-- ===== src/Bus/Forward.antt =====
-- bus.rs: the loops of the spawned tasks, which carry packets from a channel to an output.
pub mod Loops
pub mod Merge
mod Runs
use lite_nvr.Common.{
  ℕ, ◌+◌, Bool, true, false, Option, none, some, List, [], ◌∷◌, nat_eq, ◌==◌, if◌then◌else◌, leb,
  zero, suc,
}

-- A packet: its stream's index and its contents.
pub record Packet : Type 0 where
  pub index : ℕ
  pub contents : ℕ

pub data RawPacketCmd : Type 0 where
  data_cmd : Packet → RawPacketCmd
  eof_cmd : RawPacketCmd

-- What a broadcast receiver's `recv` gives.
pub data Received : Type 0 where
  command : RawPacketCmd → Received
  lagged : ℕ → Received
  closed : Received

pub data MuxSignal : Type 0 where
  packet : ℕ → Packet → MuxSignal
  eof : MuxSignal

abbrev pub contains : List ℕ → ℕ → Bool
contains [] i = false
contains (j ∷ js) i = let rest = contains js i in if j == i then true else rest

-- The input's source: the packets of the copied streams. `recv` gives a signal, or nothing.
unfoldable pub copied_signal : List ℕ → Received → Option MuxSignal
copied_signal copied (command (data_cmd p)) =
    if contains copied p.index then some (packet p.index p) else none
copied_signal copied (command eof_cmd) = some eof
copied_signal copied (lagged n) = none
copied_signal copied closed = none

-- A transcoded stream's source.
unfoldable pub encoder_signal : ℕ → Received → Option MuxSignal
encoder_signal i (command (data_cmd p)) = some (packet i p)
encoder_signal i (command eof_cmd) = some eof
encoder_signal i (lagged n) = none
encoder_signal i closed = none

-- What a loop has done: what it has written, and whether it has left.
pub record Written (W : Type 0) : Type 0 where
  pub items : List W
  pub left : Bool

abbrev pub writing : {W : Type 0} → W → Written W → Written W
writing w r = record { items = w ∷ r.items; left = r.left }

abbrev pub leaves : {W : Type 0} → Written W
leaves = record { items = []; left = true }

abbrev pub waits : {W : Type 0} → Written W
waits = record { items = []; left = false }

-- A call of `write_packet`: what it was given, and whether it succeeded. A failure is logged.
pub data MuxWrite : Type 0 where
  wrote_packet : ℕ → Packet → MuxWrite
  logged_error : ℕ → Packet → MuxWrite

abbrev pub mux_write : Bool → ℕ → Packet → MuxWrite
mux_write true i p = wrote_packet i p
mux_write false i p = logged_error i p

-- The muxer's loop over the merged sources: it leaves after as many ends as there are sources, or
-- when all channels are closed after the signals. `succeeds` tells of each call of `write_packet`,
-- by its number, whether FFmpeg succeeds.
unfoldable pub mux_loop : (ℕ → Bool) → Bool → ℕ → ℕ → ℕ → List MuxSignal → Written MuxWrite
mux_loop succeeds closes total eofs n [] = if closes then leaves else waits
mux_loop succeeds closes total eofs n (packet i p ∷ sigs) =
    writing (mux_write (succeeds n) i p) (mux_loop succeeds closes total eofs (n + 1) sigs)
mux_loop succeeds closes total eofs n (eof ∷ sigs) =
    let rest = mux_loop succeeds closes total (eofs + 1) n sigs in
    if leb total (eofs + 1) then leaves else rest

abbrev pub on_stream_0 : Packet → Packet
on_stream_0 p = record p { index = 0 }

-- `create_mux_output_stream_from_encoder`.
unfoldable pub mux_encoder_loop : List Received → Written Packet
mux_encoder_loop [] = waits
mux_encoder_loop (command (data_cmd p) ∷ rs) = writing (on_stream_0 p) (mux_encoder_loop rs)
mux_encoder_loop (command eof_cmd ∷ rs) = leaves
mux_encoder_loop (lagged n ∷ rs) = mux_encoder_loop rs
mux_encoder_loop (closed ∷ rs) = leaves

-- `create_mux_output_stream`.
unfoldable pub mux_input_loop : ℕ → List Received → Written Packet
mux_input_loop i [] = waits
mux_input_loop i (command (data_cmd p) ∷ rs) =
    let rest = mux_input_loop i rs in if p.index == i then writing p rest else rest
mux_input_loop i (command eof_cmd ∷ rs) = leaves
mux_input_loop i (lagged n ∷ rs) = mux_input_loop i rs
mux_input_loop i (closed ∷ rs) = leaves

-- `create_demuxed_output_stream`: the reader takes so many items before it goes away.
unfoldable pub demuxed_loop : ℕ → ℕ → List Received → Written (Option Packet)
demuxed_loop i room [] = waits
demuxed_loop i room (command (data_cmd p) ∷ rs) =
    let skipped = demuxed_loop i room rs in
    if p.index == i
    then elim room [ zero ↦ leaves | suc n ↦ writing (some p) (demuxed_loop i n rs) ]
    else skipped
demuxed_loop i zero (command eof_cmd ∷ rs) = leaves
demuxed_loop i (suc n) (command eof_cmd ∷ rs) = writing none leaves
demuxed_loop i room (lagged n ∷ rs) = demuxed_loop i room rs
demuxed_loop i room (closed ∷ rs) = leaves

-- The packets of raw video that become frames for the encoder; `to_frame` may refuse one.
pub data RawFrameCmd : Type 0 where
  frame_cmd : ℕ → RawFrameCmd
  frame_eof : RawFrameCmd

abbrev pub send_frame : Option ℕ → Written RawFrameCmd → Written RawFrameCmd
send_frame none r = r
send_frame (some f) r = writing (frame_cmd f) r

unfoldable pub convert_loop : (Packet → Option ℕ) → List Received → Written RawFrameCmd
convert_loop to_frame [] = waits
convert_loop to_frame (command (data_cmd p) ∷ rs) =
    send_frame (to_frame p) (convert_loop to_frame rs)
convert_loop to_frame (command eof_cmd ∷ rs) = writing frame_eof leaves
convert_loop to_frame (lagged n ∷ rs) = convert_loop to_frame rs
convert_loop to_frame (closed ∷ rs) = convert_loop to_frame rs
