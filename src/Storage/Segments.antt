-- ===== src/Storage/Segments.antt =====
-- nvr-db/src/record_segment.rs: the table of record segments and its queries. A table is the list of
-- its rows. Times are nanoseconds since 1970 in UTC: their RFC 3339 texts, which the table holds, are
-- ordered like them.
pub mod Rows
pub mod Order
use lite_nvr.Common.{
  Option, String, ℕ, Bool, ltb, leb, ◌||◌, ◌&&◌, if◌then◌else◌, ◌==◌, string_eq, nat_eq, ◌-◌, ◌*◌,
  ◌/◌, ◌+◌, get_elem?, length, take, drop, not, ◌∷◌, [], List,
}
use lite_nvr.Common.Int.{ℤ}

-- The f32 fields are bit patterns.
pub record RecordSegment : Type 0 where
  pub id : String
  pub record_type : ℤ
  pub start_time : ℕ
  pub duration : ℕ
  pub file_size : ℕ
  pub file_name : String
  pub file_path : String
  pub folder : String
  pub app : String
  pub stream : String
  pub vhost : String
  pub video_codec : String
  pub video_width : ℤ
  pub video_height : ℤ
  pub video_fps : ℕ
  pub video_bit_rate : ℤ
  pub audio_codec : String
  pub audio_sample_rate : ℤ
  pub audio_channels : ℤ
  pub audio_bit_rate : ℤ
  pub reserve_text1 : String
  pub reserve_text2 : String
  pub reserve_text3 : String
  pub reserve_int1 : ℤ
  pub reserve_int2 : ℤ
  pub create_time : ℕ
  pub update_time : ℕ

abbrev pub Table : Type 0
Table = List RecordSegment

-- WHERE.
unfoldable pub rows_where : (RecordSegment → Bool) → Table → Table
rows_where p [] = []
rows_where p (s ∷ t) = let rest = rows_where p t in if p s then s ∷ rest else rest

-- ORDER BY: `before` says that the first row comes no later than the second. Rows that tie stay in
-- the order of the table, which stands for the order that SQLite gives them in this query; it may
-- give them another one in the next.
unfoldable pub place_row : (RecordSegment → RecordSegment → Bool) → RecordSegment → Table → Table
place_row before s [] = s ∷ []
place_row before s (r ∷ t) =
    let rest = place_row before s t in if before s r then s ∷ r ∷ t else r ∷ rest

unfoldable pub order_by : (RecordSegment → RecordSegment → Bool) → Table → Table
unfolding place_row
order_by before [] = []
order_by before (s ∷ t) = place_row before s (order_by before t)

-- `start_time DESC, update_time DESC`.
abbrev pub newer : RecordSegment → RecordSegment → Bool
newer a b =
    ltb b.start_time a.start_time
    || (a.start_time == b.start_time && leb b.update_time a.update_time)

-- `start_time ASC, update_time ASC`.
abbrev pub older : RecordSegment → RecordSegment → Bool
older a b = newer b a

unfoldable pub list : Table → Table
unfolding order_by
list t = order_by newer t

unfoldable pub list_by_stream : String → Table → Table
unfolding order_by rows_where
list_by_stream stream t = order_by newer (rows_where (λ s. s.stream == stream) t)

-- `saturating_sub`, LIMIT and OFFSET. The product's wrap is left out: a page number and size of that
-- magnitude exceed i64 as well.
unfoldable pub list_by_stream_page : String → ℕ → ℕ → Table → Table
unfolding list_by_stream
list_by_stream_page stream page page_size t =
    take page_size (drop ((page - 1) * page_size) (list_by_stream stream t))

unfoldable pub list_by_stream_time_range : String → ℕ → ℕ → Table → Table
unfolding order_by rows_where
list_by_stream_time_range stream start_time end_time t = order_by older (
    rows_where
      (λ s. s.stream == stream && (leb start_time s.start_time && ltb s.start_time end_time)) t)

abbrev pub sum_rows : (RecordSegment → ℕ) → Table → ℕ
sum_rows f [] = 0
sum_rows f (s ∷ t) = f s + sum_rows f t

unfoldable pub count : Table → ℕ
count t = length t

-- SUM over i64; the sizes are taken to stay below 2^63 in all.
unfoldable pub total_size : Table → ℕ
total_size t = sum_rows (λ s. s.file_size) t

unfoldable pub count_by_stream : String → Table → ℕ
unfolding rows_where
count_by_stream stream t = length (rows_where (λ s. s.stream == stream) t)

abbrev pub day : ℕ
day = 86_400_000_000_000

-- `create_time` is an RFC 3339 text, with a `T` after the date, and `datetime` gives one with a space
-- there, which is less: the two are compared by their dates.
unfoldable pub created_before : ℕ → ℕ → RecordSegment → Bool
created_before now days s = ltb (s.create_time / day) ((now - days * day) / day)

unfoldable pub list_older_than_days : ℕ → ℕ → Table → Table
unfolding order_by rows_where created_before
list_older_than_days now days t =
    order_by (λ a b. leb a.start_time b.start_time) (rows_where (created_before now days) t)

unfoldable pub get : String → Table → Option RecordSegment
unfolding rows_where
get id t = get_elem? (rows_where (λ s. s.id == id) t) 0

unfoldable pub delete : String → Table → Table
unfolding rows_where
delete id t = rows_where (λ s. not (s.id == id)) t

unfoldable pub delete_by_stream : String → Table → Table
unfolding rows_where
delete_by_stream stream t = rows_where (λ s. not (s.stream == stream)) t
