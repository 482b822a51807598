-- ===== src/Recorder/Session/Cut.antt =====
-- recorder.rs: how the packets of a session lie in its files.
use lite_nvr.Common.{ℕ, Bool, true, false, List, [], ◌∷◌, ◌++◌, map, ◌≡◌, ◌&&◌, if◌then◌else◌, All}
use lite_nvr.Common.Int.{pos_part, sub_i64}
use lite_nvr.Recorder.Rotation.{should_rotate}
use lite_nvr.Recorder.Config.{RecorderConfig, Selected}
use lite_nvr.Bus.Muxer.{RawPacket}
use lite_nvr.Recorder.Ticks.{pkt_origin_us, reset}
use lite_nvr.Recorder.Segment.{SegmentInfo}
use lite_nvr.Recorder.Session.{is_selected, split_ok}

-- A packet and the time at which it was taken.
abbrev pub Entry : Type 0
Entry = RawPacket × ℕ

module _ (sel : Selected) where
  -- The packets of the streams that are recorded.
  unfoldable pub chosen : List Entry → List Entry
  chosen [] = []
  chosen (e ∷ es) = let rest = chosen es in if is_selected sel e.0 then e ∷ rest else rest

  -- From the first packet on at which a file may start.
  unfoldable pub from_start : List Entry → List Entry
  from_start [] = []
  from_start (e ∷ es) = let rest = from_start es in if split_ok sel e.0 then e ∷ es else rest

  module _ (config : RecorderConfig) where
    -- At `e` a file is ended that `head` started.
    unfoldable pub ends : Entry → Entry → Bool
    ends head e =
        split_ok sel e.0
        && should_rotate config.align_to_wall_clock config.segment_time head.1 e.1
            (pos_part (sub_i64 (pkt_origin_us e.0) (pkt_origin_us head.0)))

    -- The file holds these packets and no others, in their order, with their times counted from the
    -- first of them. It starts where a file may start, and no later packet of it ends it.
    pub record Holds (f : SegmentInfo) (head : Entry) (rest : List Entry) : Type 0 where
      pub held : f.file ≡ map (λ (e : Entry). reset (pkt_origin_us head.0) e.0) (head ∷ rest)
      pub started : f.start_wall ≡ head.1
      pub at_split : split_ok sel head.0 ≡ true
      pub whole : All (λ e. ends head e ≡ false) rest

    -- The packets are divided over the files, each once, and a file follows on the one before it at
    -- the first packet that ends that one.
    pub data Cut : List SegmentInfo → List Entry → Type 0 where
      no_file : Cut [] []
      last_file :
          {f : SegmentInfo} {e : Entry} {es : List Entry} → Holds f e es → Cut (f ∷ []) (e ∷ es)
      next_file :
          {f : SegmentInfo} {fs : List SegmentInfo} {e e' : Entry} {es es' all : List Entry}
          → Holds f e es
          → ends e e' ≡ true
          → Cut fs (e' ∷ es')
          → all ≡ (e ∷ es) ++ (e' ∷ es')
          → Cut (f ∷ fs) all
