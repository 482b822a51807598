-- ===== src/Cs2/Worker/Runs.antt =====
-- The theorems on the worker and on commands at concrete inputs.
use lite_nvr.Common.{
  ◌<◌, length, ◌↔◌, ℕ, zero, suc, ◌≡◌, refl, true, false, none, some, List, [], ◌∷◌, arith, All,
}
use lite_nvr.Common.Dict.{lookup}
use lite_nvr.Common.Bytes.{IsByte}
use lite_nvr.Cs2.Wire.{msg_drw, marshal_cmd}
use lite_nvr.Cs2.Channel.{Lane}
use lite_nvr.Cs2.Channel.Order.{Window}
use lite_nvr.Cs2.Worker.{
  Worker, goes_on, panics, handle, read_command, Conn, Try, times_out, acked, write_command,
}
use lite_nvr.Cs2.Worker.Frames.{short_drw_panics, read_command-handle, UdpLaw, acked_frame_held}
use lite_nvr.Cs2.Worker.Commands.{LoopLaw, write_command_retries}

abbrev open_lane : Lane
open_lane = record {
  channel = record { wait_seq = 0; push_buf = []; push_size = 10; wait_data = []; wait_size = 0 };
  tx = record { queue = []; bound = 100; is_closed = false };
}

abbrev tcp_worker : Worker
tcp_worker = record {
  is_tcp = true;
  ch0 = open_lane;
  ch2 = open_lane;
  cmd_ack = none;
  keepalive = 0;
}

abbrev udp_worker : Worker
udp_worker = record tcp_worker { is_tcp = false }

short_drw_panics_example :
    (handle 0 (0xf1 ∷ msg_drw ∷ 0 ∷ 4 ∷ []) udp_worker ≡ panics) ↔ (length {A = ℕ} (0 ∷ 4 ∷ []) < 6)
short_drw_panics_example = short_drw_panics 0 0xf1 (0 ∷ 4 ∷ []) udp_worker

read_command-handle_example :
    (out : List (List ℕ)) × (v : Worker) × (handle 5 (marshal_cmd 0 1 0x100 (9 ∷ [])) tcp_worker
      ≡ goes_on out v)
    × (v.ch0.tx.queue ≡ (0 ∷ 0 ∷ 1 ∷ 0 ∷ 9 ∷ []) ∷ [])
    × (v.ch2 ≡ open_lane)
    × (read_command (0 ∷ 0 ∷ 1 ∷ 0 ∷ 9 ∷ []) ≡ some (0x10000, 9 ∷ []))
read_command-handle_example =
    read_command-handle 5 1 0x100 (9 ∷ []) tcp_worker refl (omega arith) refl refl refl
      (omega arith)

-- Every frame carries the record "x".
abbrev same_frame : ℕ → List ℕ
same_frame i = 0 ∷ 0 ∷ 0 ∷ 1 ∷ b'x' ∷ []

same_frame_bytes : (i : ℕ) → All IsByte (same_frame i)
same_frame_bytes i = omega arith

open-Window : Window same_frame 0 open_lane.channel
unfolding lookup
open-Window = record {
  seq = refl;
  kept = λ s b h. cc;
  room = omega arith;
  sane = record { size = omega arith; bytes = tt };
}

acked_frame_held_example :
    UdpLaw same_frame same_frame_bytes 0 3 0 3 udp_worker
      (handle 0 (0xf1 ∷ msg_drw ∷ 0 ∷ 9 ∷ 0xd1 ∷ 0 ∷ 0 ∷ 3 ∷ same_frame 3) udp_worker)
acked_frame_held_example =
    acked_frame_held same_frame same_frame_bytes 0 0xf1 0 9 0xd1 0 3 0 3 udp_worker refl refl
      open-Window (omega arith) (omega arith)

-- The third try is acknowledged.
abbrev third_time : ℕ → Try
third_time zero = times_out
third_time (suc zero) = times_out
third_time (suc (suc i)) = acked

abbrev udp_conn : Conn
udp_conn = record { is_tcp = false; seq_ch0 = 0; seq_ch3 = 0 }

write_command_retries_example :
    let s = (write_command udp_conn 0x100 [] third_time).2 in LoopLaw third_time 5 0 s s.result
write_command_retries_example = write_command_retries udp_conn 0x100 [] third_time refl
