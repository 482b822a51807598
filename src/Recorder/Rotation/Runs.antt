-- ===== src/Recorder/Rotation/Runs.antt =====
-- Minutes.
use lite_nvr.Common.{◌≡◌, refl}
use lite_nvr.Recorder.Rotation.{next_boundary}

next_minute : next_boundary 90_500 60_000 ≡ 120_000
unfolding next_boundary
next_minute = refl
