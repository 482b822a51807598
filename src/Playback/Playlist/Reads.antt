-- ===== src/Playback/Playlist/Reads.antt =====
-- playback.rs: what a player reads in the playlist of a day.
use lite_nvr.Storage.Segments.Order.{All-place, Ascending, All-weaken}
use lite_nvr.Common.{
  ℕ, Bool, true, false, Option, none, some, List, [], ◌∷◌, ◌++◌, String, ◌≡◌, ◌≤◌, ◌&&◌, leb, All,
  refl, ap, ◌∙◌, Bool-cases, inl, inr, arith,
}
use lite_nvr.Common.Int.{ℤ, pos, ◌≤ℤ◌, leb_ℤ}
use lite_nvr.Storage.Segments.{
  sum_rows, RecordSegment, Table, list, rows_where, order_by, place_row, newer,
}
use lite_nvr.Storage.Segments.Rows.{where-where, SameRows, order_by-SameRows, where-SameRows}
use lite_nvr.Playback.Playlist.{
  Line, extm3u, version_3, media_sequence_0, type_vod, discontinuity, endlist, target_duration,
  extinf, program_date_time, uri, segment_uri, head_lines, day_lines, later_lines, segment_lines,
  playback_playlist, day_segments, target_of, longest, max_ℤ, of_day, filter_existing_records,
}

-- One file to play: whether its times start anew, how long it is, and where it is.
pub record Item : Type 0 where
  pub anew : Bool
  pub seconds : ℕ
  pub at : String

-- What a player has read of the next item.
pub record Ahead : Type 0 where
  pub anew : Bool
  pub seconds : Option ℕ

abbrev nothing_ahead : Ahead
nothing_ahead = record { anew = false; seconds = none }

unfoldable pub item_of : Ahead → String → Option Item
item_of ahead at = by ahead.seconds
  where
    by : Option ℕ → Option Item
    by none = none
    by (some seconds) = some (record { anew = ahead.anew; seconds = seconds; at = at })

unfoldable pub and_item : Option Item → Option (List Item) → Option (List Item)
and_item none l = none
and_item (some i) none = none
and_item (some i) (some l) = some (i ∷ l)

-- The lines after the head, up to the end of the list; a file wants its length first.
unfoldable pub read_items : Ahead → List Line → Option (List Item)
unfolding item_of and_item
read_items ahead [] = none
read_items ahead (endlist ∷ l) = some []
read_items ahead (discontinuity ∷ l) = read_items (record ahead { anew = true }) l
read_items ahead (extinf d ∷ l) = read_items (record ahead { seconds = some d }) l
read_items ahead (program_date_time t ∷ l) = read_items ahead l
read_items ahead (uri u ∷ l) = and_item (item_of ahead u) (read_items nothing_ahead l)
read_items ahead (_ ∷ l) = none

with_target : ℤ → Option (List Item) → Option (ℤ × List Item)
with_target d none = none
with_target d (some items) = some (d, items)

-- The target duration and the items of a playlist that is a whole recording.
unfoldable pub read_playlist : List Line → Option (ℤ × List Item)
unfolding read_items with_target
read_playlist (extm3u ∷ version_3 ∷ target_duration d ∷ media_sequence_0 ∷ type_vod ∷ l) =
    with_target d (read_items nothing_ahead l)
read_playlist _ = none

-- The items of a day: all but the first start anew.
unfoldable pub items : Bool → Option String → Table → List Item
items anew token [] = []
items anew token (s ∷ t) =
    record { anew = anew; seconds = s.duration; at = segment_uri token s } ∷ items true token t

later-read :
    (token : Option String) (t : Table)
    → read_items nothing_ahead (later_lines token t) ≡ some (items true token t)
unfolding read_items later_lines segment_lines items
later-read token [] = refl
later-read token (s ∷ t) =
    ap (and_item (some (record { anew = true; seconds = s.duration; at = segment_uri token s })))
      (later-read token t)

day-read :
    (token : Option String) (t : Table)
    → read_items nothing_ahead (day_lines token t) ≡ some (items false token t)
unfolding read_items day_lines segment_lines items
day-read token [] = refl
day-read token (s ∷ t) =
    ap (and_item (some (record { anew = false; seconds = s.duration; at = segment_uri token s })))
      (later-read token t)

max-le : (a b : ℤ) → (a ≤ℤ max_ℤ a b) × (b ≤ℤ max_ℤ a b)
unfolding max_ℤ
max-le a b = elim (Bool-cases (leb_ℤ a b)) [
  | inl e ↦ rw e (ground (arith, e), omega arith)
  | inr e ↦ rw e (omega arith, ground (arith, e))
]

longest_holds :
    (ceiling : ℕ → ℤ) (t : Table)
    → All (λ (s : RecordSegment). ceiling s.duration ≤ℤ longest ceiling t) t
unfolding longest
longest_holds ceiling [] = tt
longest_holds ceiling (s ∷ []) = (omega arith, tt)
longest_holds ceiling (s ∷ r ∷ t) =
    let both = max-le (ceiling s.duration) (longest ceiling (r ∷ t)) in
    (both.0, All-weaken (r ∷ t) (λ x h. omega (arith, h, both.1)) (longest_holds ceiling (r ∷ t)))

-- Sorted by the start.
abbrev by_start : RecordSegment → RecordSegment → Bool
by_start a b = leb a.start_time b.start_time

place-Ascending : (s : RecordSegment) (t : Table) → Ascending t → Ascending (place_row by_start s t)
unfolding place_row
place-Ascending s [] d = (tt, tt)
place-Ascending s (r ∷ t) d = elim (Bool-cases (by_start s r)) [
  | inl e ↦
      let le : s.start_time ≤ r.start_time = ground (arith, e) in
      rw e ((le, All-weaken t (λ x h. omega (arith, le, h)) d.0), d)
  | inr e ↦ rw e (
    All-place (λ x. r.start_time ≤ x.start_time) by_start s t (ground (arith, e)) d.0,
    place-Ascending s t d.1,
  )
]

sorted-Ascending : (t : Table) → Ascending (order_by by_start t)
unfolding order_by
sorted-Ascending [] = tt
sorted-Ascending (s ∷ t) = place-Ascending s (order_by by_start t) (sorted-Ascending t)

-- A player that reads the playlist of a day gets the segments of the device that overlap the day and whose
-- files are there, each once and no others, from the earliest on. All but the first start anew. The
-- target duration is at least that of each segment, rounded up, and at least one second.
pub playback_playlist_lem :
    (ceiling millis : ℕ → ℤ) (exists has_device : String → Bool) (device_id : String)
    (day_start : ℤ) (token : Option String) (t : Table)
    → has_device device_id ≡ true
    → (l : List Line) × (target : ℤ) × (segments : Table) × (playback_playlist ceiling millis exists
          has_device device_id day_start token t
        ≡ some l)
      × (read_playlist l ≡ some (target, items false token segments))
      × Ascending segments
      × SameRows segments
          (rows_where (λ s. of_day millis device_id day_start s && exists s.file_path) t)
      × All (λ (s : RecordSegment). ceiling s.duration ≤ℤ target) segments
      × (pos 1 ≤ℤ target)
unfolding playback_playlist read_playlist head_lines target_of day_segments filter_existing_records
    list
playback_playlist_lem ceiling millis exists has_device device_id day_start token t known =
    let segments = day_segments millis exists device_id day_start t in
    let target = target_of ceiling segments in
    let bound = max-le (longest ceiling segments) (pos 1) in
    (
      head_lines target ++ day_lines token segments,
      target,
      segments,
      rw known refl,
      ap (with_target target) (day-read token segments),
      sorted-Ascending (
          filter_existing_records exists (rows_where (of_day millis device_id day_start) (list t))),
      same,
      All-weaken segments (λ s h. omega (arith, h, bound.0)) (longest_holds ceiling segments),
      bound.1,
    )
  where
    same :
        SameRows
          (day_segments millis exists device_id day_start t)
          (rows_where (λ s. of_day millis device_id day_start s && exists s.file_path) t)
    same f =
        order_by-SameRows by_start
          (filter_existing_records exists (rows_where (of_day millis device_id day_start) (list t)))
          f
        ∙ ap (sum_rows f)
            (where-where (λ s. exists s.file_path) (of_day millis device_id day_start) (list t))
        ∙ where-SameRows (λ s. of_day millis device_id day_start s && exists s.file_path) (list t) t
            (order_by-SameRows newer t) f
