-- ===== src/Playback/Playlist.antt =====
-- playback.rs: the HLS playlists. Times of the day are milliseconds since 1970. The conversions from an f32
-- duration are parameters: `ceiling` for `.ceil() as i32`, `millis` for `(duration * 1000.0) as i64`. So is
-- `exists`, whether a file is there.
pub mod Reads
use lite_nvr.Common.{
  ℕ, Bool, true, false, Option, none, some, List, [], ◌∷◌, ◌++◌, String, ◌*◌, ◌&&◌, leb,
  if◌then◌else◌, ◌==◌, string_eq,
}
use Prim.Native.String
use lite_nvr.Common.Int.{ℤ, pos, ltb_ℤ, leb_ℤ, add_i64, as_i64}
use lite_nvr.Storage.Segments.{RecordSegment, Table, get, list, rows_where, order_by}

pub data Line : Type 0 where
  extm3u version_3 media_sequence_0 type_vod discontinuity endlist : Line
  target_duration : ℤ → Line
  extinf : ℕ → Line
  program_date_time : ℕ → Line
  uri : String → Line

unfoldable pub uri_suffix : Option String → String
uri_suffix none = ""
uri_suffix (some token) = if token == "" then "" else String.◌++◌ "?token=" token

unfoldable pub segment_uri : Option String → RecordSegment → String
unfolding uri_suffix
segment_uri token s = String.◌++◌ "/api/playback/segment/" (String.◌++◌ s.id (uri_suffix token))

unfoldable pub max_ℤ : ℤ → ℤ → ℤ
max_ℤ a b = if leb_ℤ a b then b else a

unfoldable pub head_lines : ℤ → List Line
head_lines target = extm3u ∷ version_3 ∷ target_duration target ∷ media_sequence_0 ∷ type_vod ∷ []

unfoldable pub segment_lines : Option String → RecordSegment → List Line
unfolding segment_uri
segment_lines token s =
    extinf s.duration ∷ program_date_time s.start_time ∷ uri (segment_uri token s) ∷ []

-- All but the first segment of the day come after a discontinuity.
unfoldable pub later_lines : Option String → Table → List Line
unfolding segment_lines
later_lines token [] = endlist ∷ []
later_lines token (s ∷ t) = discontinuity ∷ (segment_lines token s ++ later_lines token t)

unfoldable pub day_lines : Option String → Table → List Line
unfolding later_lines
day_lines token [] = endlist ∷ []
day_lines token (s ∷ t) = segment_lines token s ++ later_lines token t

module _ (exists : String → Bool) where
  unfoldable pub filter_existing_records : Table → Table
  unfolding rows_where
  filter_existing_records t = rows_where (λ s. exists s.file_path) t

module _ (millis : ℕ → ℤ) where
  unfoldable pub of_day : String → ℤ → RecordSegment → Bool
  unfolding add_i64 as_i64
  of_day device_id day_start s =
      let start_ms = as_i64 (pos (s.start_time * 1_000)) in
      let end_ms = add_i64 start_ms (millis s.duration) in
      s.stream == device_id
      && (ltb_ℤ day_start end_ms && ltb_ℤ start_ms (add_i64 day_start (pos 86_400_000)))

module _ (ceiling : ℕ → ℤ) where
  -- `map`, `max` and `unwrap_or(60)`.
  unfoldable pub longest : Table → ℤ
  unfolding max_ℤ
  longest [] = pos 60
  longest (s ∷ []) = ceiling s.duration
  longest (s ∷ r ∷ t) = max_ℤ (ceiling s.duration) (longest (r ∷ t))

  unfoldable pub target_of : Table → ℤ
  unfolding longest max_ℤ
  target_of t = max_ℤ (longest t) (pos 1)

module _ (millis : ℕ → ℤ) (exists : String → Bool) where
  -- `sort_by_key` keeps the order of segments that start at one time.
  unfoldable pub day_segments : String → ℤ → Table → Table
  unfolding order_by rows_where of_day filter_existing_records list
  day_segments device_id day_start t =
      order_by (λ a b. leb a.start_time b.start_time)
        (filter_existing_records exists (rows_where (of_day millis device_id day_start) (list t)))

module _ (ceiling : ℕ → ℤ) (exists : String → Bool) where
  unfoldable pub playlist_of_segment : Option String → Option RecordSegment → Option (List Line)
  unfolding max_ℤ head_lines segment_uri
  playlist_of_segment token none = none
  playlist_of_segment token (some s) =
      if exists s.file_path
      then some (
          head_lines (max_ℤ (ceiling s.duration) (pos 1))
          ++ (extinf s.duration ∷ uri (segment_uri token s) ∷ endlist ∷ []))
      else none

  unfoldable pub segment_playlist : String → Option String → Table → Option (List Line)
  unfolding playlist_of_segment get
  segment_playlist id token t = playlist_of_segment token (get id t)

module _ (ceiling millis : ℕ → ℤ) (exists : String → Bool) where
  unfoldable pub playback_playlist :
      (String → Bool) → String → ℤ → Option String → Table → Option (List Line)
  unfolding day_lines day_segments target_of head_lines
  playback_playlist has_device device_id day_start token t =
      if has_device device_id
      then some (
          head_lines (target_of ceiling (day_segments millis exists device_id day_start t))
          ++ day_lines token (day_segments millis exists device_id day_start t))
      else none
