-- ===== src/Recorder/Rotation.antt =====
-- crates/nvr-recorder/src/rotation.rs. Wall-clock times are whole milliseconds since 1970;
-- a boundary's period is a duration in milliseconds, the length of a segment one in microseconds.
pub mod Boundary
mod Runs
use lite_nvr.Common.{ℕ, ◌+◌, ◌*◌, ◌/◌, max, Bool, true, false, ◌&&◌, leb, if◌then◌else◌}

unfoldable pub next_boundary : ℕ → ℕ → ℕ
next_boundary start period = (start / max period 1 + 1) * max period 1

unfoldable pub is_split_point : Bool → Bool → Bool → Bool
is_split_point has_video pkt_is_video pkt_is_key =
    if has_video then pkt_is_video && pkt_is_key else true

unfoldable pub should_rotate : Bool → ℕ → ℕ → ℕ → ℕ → Bool
unfolding next_boundary
should_rotate align_to_wall_clock segment_time segment_start_wall now elapsed_media =
    if align_to_wall_clock
    then leb (next_boundary segment_start_wall (segment_time / 1_000)) now
    else leb segment_time elapsed_media
