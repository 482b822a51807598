-- ===== src/Recorder/Runs.antt =====
-- A camera with one video and one audio stream, in ticks of 1/90000 and of 1/8000 of a second.
use lite_nvr.Common.{
  ◌+◌, ℕ, Bool, true, false, none, some, List, [], ◌∷◌, ◌++◌, String, ◌≡◌, refl, map, length, arith,
  ok, err, ◌⊎◌,
}
use lite_nvr.Common.Int.{pos}
use lite_nvr.Recorder.Config.{
  RecorderConfig, Selected, MediaKind, video_kind, audio_kind, other_kind, select_streams,
  only_audio, only_video, both, backoff_delay, new, no_video, no_media,
}
use lite_nvr.Bus.Muxer.{RawPacket}
use lite_nvr.Recorder.Ticks.{pkt_origin_us, reset}
use lite_nvr.Recorder.Ticks.Origin.{reset-pkt_origin_us}
use lite_nvr.Recorder.Segment.{Output, SegmentInfo}
use lite_nvr.Recorder.Session.{eof, packet_loop, Turn, Session}
use lite_nvr.Recorder.Session.Cut.{Entry, chosen, from_start, Cut}
use lite_nvr.Recorder.Session.Holds.{Reliable, packet_loop_lem, as_events, ending_of, IsEnd}
use lite_nvr.Recorder.Session.Tries.{doubling}

abbrev two_streams : List (ℕ × MediaKind)
two_streams = (0, video_kind) ∷ (1, audio_kind) ∷ (2, other_kind) ∷ []

abbrev both_selected : Selected
both_selected = record { video = some 0; audio = some 1 }

selects_both : select_streams two_streams both ≡ ok both_selected
unfolding select_streams
selects_both = refl

audio_ignores_video :
    select_streams two_streams only_audio ≡ ok (record { video = none; audio = some 1 })
unfolding select_streams
audio_ignores_video = refl

video_absent : select_streams ((0, audio_kind) ∷ []) only_video ≡ err no_video
unfolding select_streams
video_absent = refl

nothing_present : select_streams ((0, other_kind) ∷ []) both ≡ err no_media
unfolding select_streams
nothing_present = refl

caps : backoff_delay 100 1_000 16_000 ≡ 16_000
unfolding backoff_delay
caps = refl

abbrev steady : Output
steady = record {
  makes_dir = λ d. true;
  creates = λ d n c. true;
  writes = λ f p. true;
  finishes = λ f. true;
}

steady-Reliable : Reliable steady
steady-Reliable = record { created = λ d n c. refl; wrote = λ f p. refl; finished = λ f. refl }

abbrev stamp : String → String → ℕ → String
stamp pattern ext now = "rec.ts"

abbrev image : ℕ → Bool → RawPacket
image ticks key = record {
  index = 0;
  is_key = key;
  pts = some (pos (ticks + 3_000));
  dts = some (pos ticks);
  numerator = pos 1;
  denominator = pos 90_000;
  size = 900;
  content = ticks;
}

abbrev sound : ℕ → RawPacket
sound ticks = record {
  index = 1;
  is_key = true;
  pts = some (pos ticks);
  dts = none;
  numerator = pos 1;
  denominator = pos 8_000;
  size = 160;
  content = ticks;
}

-- A sound before the first key frame, a key frame 59 seconds later, and one 61 seconds later.
abbrev evening : List Entry
evening =
    (sound 80_000, 0)
    ∷ (image 903_000 true, 40)
    ∷ (sound 80_800, 100)
    ∷ (image 906_000 false, 120)
    ∷ (image 6_213_000 true, 59_040)
    ∷ (image 6_393_000 true, 61_040)
    ∷ (sound 568_800, 61_100)
    ∷ []

abbrev by_minute : RecorderConfig
by_minute = record {
  tracks = both;
  segment_time = 60_000_000;
  align_to_wall_clock = false;
  container = (new "rec").container;
  output_dir = "rec";
  filename_pattern = "rec_%Y%m%d_%H%M%S";
  reconnect = record { max_retries = some 2; base_delay = 1_000; max_delay = 16_000 };
}

abbrev evening_session : Session
evening_session =
    packet_loop steady stamp by_minute both_selected none (as_events evening ++ (eof ∷ []))

-- Two files, of four packets and of two, in microseconds and bytes.
two_files :
    map {B = ℕ × ℕ × ℕ × ℕ}
      (λ (f : SegmentInfo). (length f.file, f.start_wall, f.duration_us, f.size_bytes))
      evening_session.sent
    ≡ ((4, 40, 59_000_000, 2_860) ∷ (2, 61_040, 0, 1_060) ∷ [])
unfolding packet_loop as_events
two_files = refl

eof-IsEnd : IsEnd eof
unfolding IsEnd
eof-IsEnd = tt

packet_loop_lem_example :
    let s =
      packet_loop steady stamp by_minute both_selected none (as_events evening ++ (eof ∷ [])) in
    Cut both_selected by_minute s.sent (from_start both_selected (chosen both_selected evening))
    × (s.unfinished ≡ none)
    × (s.ending ≡ ending_of eof)
packet_loop_lem_example =
    packet_loop_lem steady stamp by_minute both_selected evening eof [] steady-Reliable eof-IsEnd

reset-pkt_origin_us_example :
    ((reset (pkt_origin_us (image 903_001 true)) (image 903_001 true)).dts ≡ some (pos 0))
    ⊎ ((reset (pkt_origin_us (image 903_001 true)) (image 903_001 true)).dts ≡ some (pos 1))
reset-pkt_origin_us_example =
    reset-pkt_origin_us (image 903_001 true) 903_001 1 90_000 refl refl refl (omega arith)
      (omega arith) (omega arith) (omega arith) (omega arith)

-- A camera that ends its stream, is gone, and comes back without media.
abbrev bad_night : List Turn
bad_night =
    record {
      cancelled_before = false;
      streams = some two_streams;
      received = as_events evening ++ (eof ∷ []);
      cancelled_in_sleep = false;
    }
    ∷ record { cancelled_before = false; streams = none; received = []; cancelled_in_sleep = false }
    ∷ record {
      cancelled_before = false;
      streams = some [];
      received = [];
      cancelled_in_sleep = false;
    }
    ∷ []

two_delays : doubling 1_000 16_000 0 2 ≡ (1_000 ∷ 2_000 ∷ [])
unfolding doubling
two_delays = refl
