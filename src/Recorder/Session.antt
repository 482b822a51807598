-- ===== src/Recorder/Session.antt =====
-- crates/nvr-recorder/src/recorder.rs. A session is one connection: what `record_once` receives comes as
-- a list of events, each packet with the time at which it is taken. Wall-clock times are milliseconds
-- since 1970. `format` stands for chrono's `DateTime::format`, with the extension appended.
pub mod Cut
pub mod Holds
pub mod Tries
use lite_nvr.Common.{
  ℕ, Bool, true, false, Option, none, some, List, [], ◌∷◌, ◌++◌, String, ◌+◌, ◌-◌, ◌^◌, min, ◌&&◌,
  ◌||◌, leb, if◌then◌else◌, ◌==◌, Result, ok, err, nat_eq,
}
use lite_nvr.Common.Int.{ℤ, pos_part, sub_i64}
use lite_nvr.Common.Dict.{is_some}
use lite_nvr.Recorder.Rotation.{is_split_point, should_rotate}
use lite_nvr.Recorder.Config.{
  RecorderConfig, ReconnectPolicy, Selected, MediaKind, RecordError, no_connection, channel_closed,
  end_of_stream, open_failed, select_streams, backoff_delay, extension,
}
use lite_nvr.Bus.Muxer.{RawPacket}
use lite_nvr.Recorder.Ticks.{pkt_origin_us}
use lite_nvr.Recorder.Segment.{Output, SegmentWriter, SegmentInfo, open_writer, write, finish}

-- What the loop waits for; `recv_failed` is a closed channel, or packets that were missed.
pub data Received : Type 0 where
  packet : RawPacket → ℕ → Received
  eof recv_failed cancelled : Received

pub data Ending : Type 0 where
  running stopped : Ending
  broke : RecordError → Ending

-- The files that were announced, and a file that was left without being finished.
pub record Session : Type 0 where
  pub sent : List SegmentInfo
  pub unfinished : Option SegmentWriter
  pub ending : Ending

pub data Taken : Type 0 where
  going : List SegmentInfo → Option SegmentWriter → Taken
  failing : List SegmentInfo → Option SegmentWriter → RecordError → Taken

unfoldable pub is_index : Option ℕ → ℕ → Bool
is_index none i = false
is_index (some j) i = j == i

unfoldable pub is_selected : Selected → RawPacket → Bool
unfolding is_index
is_selected sel p = is_index sel.video p.index || is_index sel.audio p.index

unfoldable pub split_ok : Selected → RawPacket → Bool
unfolding is_index is_split_point
split_ok sel p = is_split_point (is_some sel.video) (is_index sel.video p.index) p.is_key

unfoldable pub is_due : RecorderConfig → SegmentWriter → RawPacket → ℕ → Bool
unfolding should_rotate sub_i64 pkt_origin_us
is_due config w p now =
    should_rotate config.align_to_wall_clock config.segment_time w.start_wall now
      (pos_part (sub_i64 (pkt_origin_us p) w.base_us))

unfoldable pub announced : List SegmentInfo → Session → Session
announced l s = record s { sent = l ++ s.sent }

module _ (output : Output) (format : String → String → ℕ → String) (config : RecorderConfig) where
  unfoldable pub open_segment : Selected → ℤ → ℕ → Result RecordError SegmentWriter
  unfolding open_writer extension
  open_segment sel base now =
      open_writer output config.output_dir
        (format config.filename_pattern (extension config.container) now) config.container sel base
        now

  unfoldable pub after_write :
      List SegmentInfo → SegmentWriter → Result RecordError SegmentWriter → Taken
  after_write sent w (ok w') = going sent (some w')
  after_write sent w (err e) = failing sent (some w) e

  unfoldable pub after_open :
      List SegmentInfo → RawPacket → Result RecordError SegmentWriter → Taken
  unfolding after_write write
  after_open sent p (ok w) = after_write sent w (write output w p)
  after_open sent p (err e) = failing sent none e

  unfoldable pub after_finish :
      Selected → SegmentWriter → RawPacket → ℕ → Result RecordError SegmentInfo → Taken
  unfolding after_open open_segment pkt_origin_us
  after_finish sel w p now (ok info) =
      after_open (info ∷ []) p (open_segment sel (pkt_origin_us p) now)
  after_finish sel w p now (err e) = failing [] (some w) e

  unfoldable pub with_writer : Selected → Option SegmentWriter → RawPacket → ℕ → Taken
  unfolding after_open after_write after_finish split_ok is_due finish write open_segment
      pkt_origin_us
  with_writer sel none p now =
      if split_ok sel p
      then after_open [] p (open_segment sel (pkt_origin_us p) now)
      else going [] none
  with_writer sel (some w) p now =
      if split_ok sel p && is_due config w p now
      then after_finish sel w p now (finish output w)
      else after_write [] w (write output w p)

  unfoldable pub take_packet : Selected → Option SegmentWriter → RawPacket → ℕ → Taken
  unfolding is_selected with_writer
  take_packet sel w p now = if is_selected sel p then with_writer sel w p now else going [] w

  unfoldable pub close_writer : Option SegmentWriter → Ending → Session
  unfolding finish
  close_writer none ending = record { sent = []; unfinished = none; ending = ending }
  close_writer (some w) ending = closed (finish output w)
    where
      closed : Result RecordError SegmentInfo → Session
      closed (ok info) = record { sent = info ∷ []; unfinished = none; ending = ending }
      closed (err e) = record { sent = []; unfinished = some w; ending = broke e }

  unfoldable pub after_packet : Taken → (Option SegmentWriter → Session) → Session
  unfolding announced
  after_packet (going sent w) next = announced sent (next w)
  after_packet (failing sent w e) next = record { sent = sent; unfinished = w; ending = broke e }

  unfoldable pub packet_loop : Selected → Option SegmentWriter → List Received → Session
  unfolding take_packet after_packet close_writer
  packet_loop sel w [] = record { sent = []; unfinished = w; ending = running }
  packet_loop sel w (packet p now ∷ r) =
      after_packet (take_packet sel w p now) (λ w'. packet_loop sel w' r)
  packet_loop sel w (eof ∷ r) = close_writer w (broke end_of_stream)
  packet_loop sel w (recv_failed ∷ r) = close_writer w (broke channel_closed)
  packet_loop sel w (cancelled ∷ r) = close_writer w stopped

  abbrev pub nothing_sent : Ending → Session
  nothing_sent ending = record { sent = []; unfinished = none; ending = ending }

  -- `none` is an input that does not open.
  unfoldable pub record_once : Option (List (ℕ × MediaKind)) → List Received → Session
  unfolding select_streams packet_loop
  record_once none r = nothing_sent (broke no_connection)
  record_once (some streams) r = resolved (select_streams streams config.tracks)
    where
      resolved : Result RecordError Selected → Session
      resolved (err e) = nothing_sent (broke e)
      resolved (ok sel) =
          if output.makes_dir config.output_dir
          then packet_loop sel none r
          else nothing_sent (broke open_failed)

-- One turn of the loop of `run`, as the world lets it go.
pub record Turn : Type 0 where
  pub cancelled_before : Bool
  pub streams : Option (List (ℕ × MediaKind))
  pub received : List Received
  pub cancelled_in_sleep : Bool

pub record Recording : Type 0 where
  pub files : List SegmentInfo
  pub delays : List ℕ
  pub returned : Bool

unfoldable pub gives_up : Option ℕ → ℕ → Bool
gives_up none attempt = false
gives_up (some n) attempt = n == 0 || leb n attempt

unfoldable pub and_then : List SegmentInfo → ℕ → Recording → Recording
and_then sent d r = record r { files = sent ++ r.files; delays = d ∷ r.delays }

module _ (output : Output) (format : String → String → ℕ → String) (config : RecorderConfig) where
  unfoldable pub after_session : Turn → ℕ → Session → Recording → Recording
  unfolding gives_up and_then backoff_delay
  after_session t attempt s later = by s.ending
    where
      by : Ending → Recording
      by running = record { files = s.sent; delays = []; returned = false }
      by stopped = record { files = s.sent; delays = []; returned = true }
      by (broke e) =
          let policy = config.reconnect in
          let delay = backoff_delay attempt policy.base_delay policy.max_delay in
          if gives_up policy.max_retries attempt
          then record { files = s.sent; delays = []; returned = true }
          else and_then s.sent delay (
              if t.cancelled_in_sleep
              then record { files = []; delays = []; returned = true }
              else later)

  -- A world that ends before the recorder does leaves it running.
  unfoldable pub run : ℕ → List Turn → Recording
  unfolding after_session record_once
  run attempt [] = record { files = []; delays = []; returned = false }
  run attempt (t ∷ ts) =
      let later = run (min (attempt + 1) (2 ^ 32 - 1)) ts in
      if t.cancelled_before
      then record { files = []; delays = []; returned = true }
      else after_session t attempt (record_once output format config t.streams t.received) later
