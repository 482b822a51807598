-- ===== src/Cs2/Worker.antt =====
-- The worker thread of crates/xiaomi/src/cs2.rs, one frame at a time, and the calls of `Conn`.
pub mod Frames
pub mod Commands
mod Runs
use lite_nvr.Common.{
  ℕ, zero, suc, ◌+◌, ◌-◌, ◌%◌, ◌^◌, Bool, true, false, Option, none, some, List, [], ◌∷◌, ◌++◌,
  ◌||◌, ltb, leb, ◌==◌, nat_eq, if◌then◌else◌, length, take, drop, get_elem?,
}
use lite_nvr.Common.Bytes.{from_be16, from_le32}
use lite_nvr.Common.Int.{ℤ, pos, negsuc}
use lite_nvr.Cs2.Wire.{
  packet_request, magic, msg_drw, msg_drw_ack, msg_ping, msg_pong, hdr_size, marshal_cmd, ack_frame,
}
use lite_nvr.Cs2.Channel.{
  SendError, Lane, Pushed, pushed, broken, stuck, push, Answer, answered, died, unfinished,
  push_seq,
}

-- `cmd_ack` is the capacity-one channel that a waiting `write_command` has left: whether its token
-- is set. `keepalive` and the clock are in milliseconds.
pub record Worker : Type 0 where
  pub is_tcp : Bool
  pub ch0 : Lane
  pub ch2 : Lane
  pub cmd_ack : Option Bool
  pub keepalive : ℕ

-- How the handling of a frame ends: with the frames written, in the loop's return with an error, in
-- a panic on a slice out of range, or not at all, which the laws exclude.
pub data Handled : Type 0 where
  goes_on : List (List ℕ) → Worker → Handled
  returns : SendError → List (List ℕ) → Handled
  panics : Handled
  hangs : Handled

-- `channel_mut`, with the place to put the lane back.
pub data Place : Type 0 where
  at_ch0 at_ch2 nowhere : Place

pub place : ℕ → Place
place ch = if ch == 0 then at_ch0 else if ch == 2 then at_ch2 else nowhere

pub lane_at : Place → Worker → Lane
lane_at at_ch0 w = w.ch0
lane_at at_ch2 w = w.ch2
lane_at nowhere w = w.ch0

pub put_lane : Place → Lane → Worker → Worker
put_lane at_ch0 l w = record w { ch0 = l }
put_lane at_ch2 l w = record w { ch2 = l }
put_lane nowhere l w = w

-- The arm `MSG_DRW` on TCP: a ping once a second, then `push`.
pub pinged : ℕ → Worker → List (List ℕ) × Worker
pinged now w =
    if leb w.keepalive now
    then (((magic ∷ msg_ping ∷ 0 ∷ 0 ∷ []) ∷ []), record w { keepalive = now + 1000 })
    else ([], w)

pub after_push : Place → List (List ℕ) → Worker → Pushed → Handled
unfolding put_lane
after_push p out w (pushed l) = goes_on out (put_lane p l w)
after_push p out w (broken e l) = returns e out
after_push p out w stuck = hangs

pub tcp_drw : ℕ → ℕ → List ℕ → Worker → Handled
unfolding pinged after_push place lane_at
tcp_drw now ch b w =
    let (out, w') = pinged now w in
    elim (place ch) [
      | nowhere ↦ goes_on out w'
      | at_ch0 ↦ after_push at_ch0 out w' (push b w'.ch0)
      | at_ch2 ↦ after_push at_ch2 out w' (push b w'.ch2)
    ]

-- The arm `MSG_DRW` on UDP: `push_seq`, and an acknowledgement unless it answers -1.
pub after_push_seq : Place → List ℕ → Worker → Answer → Handled
unfolding put_lane
after_push_seq p ack w (answered (pos n) l) = goes_on (ack ∷ []) (put_lane p l w)
after_push_seq p ack w (answered (negsuc n) l) = goes_on [] (put_lane p l w)
after_push_seq p ack w (died e l) = returns e []
after_push_seq p ack w unfinished = hangs

pub udp_drw : ℕ → ℕ → ℕ → List ℕ → Worker → Handled
unfolding after_push_seq place ack_frame
udp_drw ch hi lo b w = elim (place ch) [
  | nowhere ↦ goes_on [] w
  | at_ch0 ↦ after_push_seq at_ch0 (ack_frame ch hi lo) w (push_seq (from_be16 hi lo) b w.ch0)
  | at_ch2 ↦ after_push_seq at_ch2 (ack_frame ch hi lo) w (push_seq (from_be16 hi lo) b w.ch2)
]

-- `frame[k..n]`: nothing when the frame is shorter than `k`.
pub slice_from : ℕ → List ℕ → Option (List ℕ)
slice_from zero r = some r
slice_from (suc k) [] = none
slice_from (suc k) (x ∷ r) = slice_from k r

-- A value that an index or a slice gives, or the panic of one out of range.
abbrev pub or_panic : {A : Type 0} → Option A → (A → Handled) → Handled
or_panic none then_do = panics
or_panic (some x) then_do = then_do x

-- `frame[5]`, on UDP `frame[6]` and `frame[7]`, and `frame[8..n]`.
pub drw : ℕ → List ℕ → Worker → Handled
unfolding tcp_drw udp_drw slice_from
drw now frame w = or_panic (get_elem? frame 5) (λ ch.
    if w.is_tcp
    then or_panic (slice_from 8 frame) (λ b. tcp_drw now ch b w)
    else or_panic (get_elem? frame 6) (λ hi.
      or_panic (get_elem? frame 7)
        (λ lo. or_panic (slice_from 8 frame) (λ b. udp_drw ch hi lo b w))))

pub signalled : Option Bool → Option Bool
signalled none = none
signalled (some t) = some true

-- One pass of the loop of `Worker::run` over a frame that was read.
pub handle : ℕ → List ℕ → Worker → Handled
unfolding drw signalled
handle now (b0 ∷ msg ∷ r) w =
    if msg == msg_drw
    then drw now (b0 ∷ msg ∷ r) w
    else if msg == msg_ping
    then goes_on ((magic ∷ msg_pong ∷ 0 ∷ 0 ∷ []) ∷ []) w
    else if msg == msg_drw_ack
    then goes_on [] (record w { cmd_ack = signalled w.cmd_ack })
    else goes_on [] w
handle now _ w = goes_on [] w

-- `read_command` and `read_packet` on a record that was taken from the queue; `none` is the error
-- "short command" or "short packet".
pub read_command : List ℕ → Option (ℕ × List ℕ)
read_command (a ∷ b ∷ c ∷ d ∷ r) = some (from_le32 a b c d, r)
read_command _ = none

pub read_packet : List ℕ → Option (List ℕ × List ℕ)
read_packet r = if ltb (length r) hdr_size then none else some (take hdr_size r, drop hdr_size r)

-- What the environment answers to the n-th transmission of `write_command`: the write fails, or the
-- acknowledgement comes within the second, or it does not.
pub data Try : Type 0 where
  write_fails acked times_out : Try

pub data Written : Type 0 where
  sent_ok cannot_send io_error : Written

-- `writes` counts the transmissions; `waits` tells whether `cmd_ack` still holds the call's channel.
pub record Sending : Type 0 where
  pub writes : ℕ
  pub result : Written
  pub waits : Bool

-- The retransmission loop, with `repeat` tries left after `n` transmissions.
pub send_loop : ℕ → (ℕ → Try) → ℕ → Sending
send_loop zero env n = record { writes = n; result = cannot_send; waits = false }
send_loop (suc repeat) env n = elim (env n) [
  | write_fails ↦ record { writes = n; result = io_error; waits = true }
  | acked ↦ record { writes = suc n; result = sent_ok; waits = false }
  | times_out ↦ send_loop repeat env (suc n)
]

pub send_once : Try → Sending
send_once write_fails = record { writes = 0; result = io_error; waits = false }
send_once _ = record { writes = 1; result = sent_ok; waits = false }

-- The two counters are u16.
pub record Conn : Type 0 where
  pub is_tcp : Bool
  pub seq_ch0 : ℕ
  pub seq_ch3 : ℕ

-- The new state, the request and how its transmission went.
pub write_command : Conn → ℕ → List ℕ → (ℕ → Try) → Conn × List ℕ × Sending
unfolding send_loop send_once
write_command c cmd payload env = (
  record c { seq_ch0 = (c.seq_ch0 + 1) % 2 ^ 16 },
  marshal_cmd 0 c.seq_ch0 cmd payload,
  if c.is_tcp then send_once (env 0) else send_loop 5 env 0,
)

pub write_packet : Conn → List ℕ → List ℕ → Conn × Option (List ℕ)
write_packet c hdr payload =
    (record c { seq_ch3 = (c.seq_ch3 + 1) % 2 ^ 16 }, packet_request c.seq_ch3 hdr payload)
