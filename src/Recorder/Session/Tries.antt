-- ===== src/Recorder/Session/Tries.antt =====
-- recorder.rs: how often the recorder connects, and how long it waits in between.
use lite_nvr.Common.{
  ℕ, zero, suc, false, List, [], ◌∷◌, ◌++◌, String, ◌≡◌, ◌+◌, ◌*◌, ◌^◌, min, nat_eq,
}
use lite_nvr.Recorder.Config.{RecorderConfig, RecordError}
use lite_nvr.Recorder.Segment.{Output, SegmentInfo}
use lite_nvr.Recorder.Session.{Turn, record_once, broke}

-- The delays from the attempt `a` on: each is twice the one before, up to the limit.
unfoldable pub doubling : ℕ → ℕ → ℕ → ℕ → List ℕ
doubling base most a zero = []
doubling base most a (suc k) = min (base * 2 ^ a) most ∷ doubling base most (a + 1) k

module _ (output : Output) (format : String → String → ℕ → String) (config : RecorderConfig) where
  -- The connection fails, or it breaks off, and nobody cancels the recorder.
  unfoldable pub Breaks : Turn → Type 0
  Breaks t =
      (t.cancelled_before ≡ false)
      × (t.cancelled_in_sleep ≡ false)
      × ((e : RecordError) × ((record_once output format config t.streams t.received).ending
            ≡ broke e))

  unfoldable pub files_of : List Turn → List SegmentInfo
  files_of [] = []
  files_of (t ∷ ts) = (record_once output format config t.streams t.received).sent ++ files_of ts
