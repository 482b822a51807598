-- ===== src/Playback/Runs.antt =====
-- Two segments of one camera, the second of which has lost its file.
use lite_nvr.Common.{
  ◌*◌, nat_eq, ℕ, String, Bool, true, false, Option, none, some, List, [], ◌∷◌, ◌++◌, ◌≡◌, ◌⊎◌, ◌+◌,
  ◌-◌, ◌&&◌, ◌||◌, min, length, take, drop, refl, arith, ltb, leb, if◌then◌else◌, ◌==◌, string_eq,
  All,
}
use lite_nvr.Common.Int.{ℤ, pos, ◌≤ℤ◌}
use lite_nvr.Common.Digits.{decimal, all_digits}
use lite_nvr.Common.Text.{codes}
use text.Mathlib.TextEquality.{eq_iff}
use lite_nvr.Storage.Segments.{RecordSegment, Table, get, rows_where}
use lite_nvr.Storage.Segments.Rows.{UniqueIds, SameRows}
use lite_nvr.Storage.Segments.Order.{Ascending}
use lite_nvr.Playback.Range.{parse_range_header, play_segment, partial_content, not_satisfiable}
use lite_nvr.Playback.Range.Bounds.{play_segment_lem, Lies}
use lite_nvr.Playback.Range.Parse.{parse_range_header_lem, IsNumber, bytes_of}
use lite_nvr.Playback.Delete.{Archive, delete_segments}
use lite_nvr.Playback.Delete.Exact.{delete_segments_lem, Without, mem}
use lite_nvr.Playback.Playlist.{Line, playback_playlist, of_day}
use lite_nvr.Playback.Playlist.Reads.{read_playlist, playback_playlist_lem, items}

abbrev segment : String → String → ℕ → RecordSegment
segment id path start_time = record {
  id = id;
  record_type = pos 0;
  start_time = start_time;
  duration = 60;
  file_size = 1;
  file_name = id;
  file_path = path;
  folder = "";
  app = "live";
  stream = "front";
  vhost = "";
  video_codec = "h264";
  video_width = pos 1920;
  video_height = pos 1080;
  video_fps = 0;
  video_bit_rate = pos 0;
  audio_codec = "";
  audio_sample_rate = pos 0;
  audio_channels = pos 0;
  audio_bit_rate = pos 0;
  reserve_text1 = "";
  reserve_text2 = "";
  reserve_text3 = "";
  reserve_int1 = pos 0;
  reserve_int2 = pos 0;
  create_time = start_time;
  update_time = start_time;
}

abbrev two : Table
two = segment "a" "a.ts" 100 ∷ segment "b" "b.ts" 160 ∷ []

abbrev film : List ℕ
film = 7 ∷ 8 ∷ 9 ∷ 10 ∷ []

abbrev twenty : ℕ
twenty = 20

abbrev lengths : String → Option ℕ
lengths path = if path == "a.ts" then some 4 else none

abbrev bytes : String → Option (List ℕ)
bytes path = if path == "a.ts" then some film else none

found : get "a" two ≡ some (segment "a" "a.ts" 100)
unfolding get
found = refl

play_segment_lem_example :
    let r = play_segment lengths bytes (some (codes "bytes=1-2")) "a" two in
    (r ≡ not_satisfiable 4)
    ⊎ ((start : ℕ) × (end : ℕ) × Lies 4 start end
        × (r
            ≡ partial_content
                (take (end - start + 1) (drop start film))
                start
                end
                4
                (end - start + 1))
        × (length (take (end - start + 1) (drop start film)) ≡ end - start + 1))
play_segment_lem_example =
    play_segment_lem lengths bytes (codes "bytes=1-2") "a" two (segment "a" "a.ts" 100) 4 film found
      refl refl (omega arith)

plays :
    play_segment lengths bytes (some (codes "bytes= 1 - 2 ")) "a" two
    ≡ partial_content (8 ∷ 9 ∷ []) 1 2 4 2
unfolding play_segment get
plays = refl

abbrev twelve : List ℕ
twelve = b'1' ∷ b'2' ∷ []

twelve-IsNumber : IsNumber twelve
unfolding decimal all_digits
twelve-IsNumber = record { digits = refl; not_empty = λ h. no h; fits = omega arith }
  where
    no : twelve ≡ [] → ⊥
    no h = cc

parse_range_header_lem_example :
    (parse_range_header (bytes_of (twelve ++ (b'-' ∷ twelve))) twenty ≡ (
      if ltb (decimal 0 twelve) (decimal 0 twelve) || leb twenty (decimal 0 twelve)
      then none
      else some (decimal 0 twelve, min (decimal 0 twelve) (twenty - 1))))
    × (parse_range_header (bytes_of (twelve ++ (b'-' ∷ []))) twenty
        ≡ (if leb twenty (decimal 0 twelve) then none else some (decimal 0 twelve, twenty - 1)))
    × (parse_range_header (bytes_of (b'-' ∷ twelve)) twenty ≡ (
        if decimal 0 twelve == 0 || twenty == 0
        then none
        else some (twenty - decimal 0 twelve, twenty - 1)))
parse_range_header_lem_example =
    parse_range_header_lem twelve twelve twenty twelve-IsNumber twelve-IsNumber

abbrev shelf : Archive
shelf = record { table = two; files = "a.ts" ∷ "b.ts" ∷ "other.ts" ∷ [] }

two-UniqueIds : UniqueIds two
two-UniqueIds id = ground (arith, eq_iff "a" id, eq_iff "b" id, eq_iff "a" "b")

delete_segments_lem_example :
    let r = delete_segments (λ path. true) ("b" ∷ "x" ∷ "b" ∷ []) shelf in
    Without (λ path. true) (λ s. mem ("b" ∷ "x" ∷ "b" ∷ []) s.id) shelf r.0
    × (r.1 + length r.0.table ≡ length shelf.table)
delete_segments_lem_example =
    delete_segments_lem (λ path. true) ("b" ∷ "x" ∷ "b" ∷ []) shelf two-UniqueIds

deletes :
    delete_segments (λ path. true) ("b" ∷ "x" ∷ "b" ∷ []) shelf
    ≡ (record { table = segment "a" "a.ts" 100 ∷ []; files = "a.ts" ∷ "other.ts" ∷ [] }, 1)
unfolding delete_segments
deletes = refl

abbrev whole : ℕ → ℤ
whole d = pos d

abbrev thousandfold : ℕ → ℤ
thousandfold d = pos (d * 1_000)

abbrev is_a : String → Bool
is_a path = path == "a.ts"

playback_playlist_lem_example :
    (l : List Line) × (target : ℤ) × (segments : Table) × (playback_playlist whole thousandfold is_a
        (λ d. true)
        "front"
        (pos 0)
        none
        two
      ≡ some l)
    × (read_playlist l ≡ some (target, items false none segments))
    × Ascending segments
    × SameRows segments
        (rows_where (λ s. of_day thousandfold "front" (pos 0) s && is_a s.file_path) two)
    × All (λ (s : RecordSegment). whole s.duration ≤ℤ target) segments
    × (pos 1 ≤ℤ target)
playback_playlist_lem_example =
    playback_playlist_lem whole thousandfold is_a (λ d. true) "front" (pos 0) none two refl
