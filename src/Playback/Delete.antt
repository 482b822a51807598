-- ===== src/Playback/Delete.antt =====
-- playback.rs: the handlers that delete segments, on the table and on the files. `removable` says which files
-- the file system lets go; one that it keeps, or that is missing already, is no error.
pub mod Exact
use lite_nvr.Common.{
  ℕ, Bool, true, false, Option, none, some, List, [], ◌∷◌, String, ◌+◌, length, ◌&&◌, not,
  if◌then◌else◌, ◌==◌, string_eq,
}
use lite_nvr.Storage.Segments.{RecordSegment, Table, get, delete, delete_by_stream, list_by_stream}

pub record Archive : Type 0 where
  pub table : Table
  pub files : List String

unfoldable pub keep_files : (String → Bool) → List String → List String
keep_files p [] = []
keep_files p (f ∷ fs) = let rest = keep_files p fs in if p f then f ∷ rest else rest

module _ (removable : String → Bool) where
  -- A path that is removed when the file of a segment is.
  unfoldable pub removes : RecordSegment → String → Bool
  removes s path = s.file_path == path && not (path == "") && removable path

  unfoldable pub remove_segment_file : RecordSegment → List String → List String
  unfolding keep_files removes
  remove_segment_file s files = keep_files (λ path. not (removes s path)) files

  -- One turn of the loop over the ids: the segment's files and row, and one more in the count.
  unfoldable pub delete_row : Option RecordSegment → String → Archive → Archive × ℕ
  unfolding remove_segment_file delete
  delete_row none id a = (a, 0)
  delete_row (some s) id a =
      (record { table = delete id a.table; files = remove_segment_file s a.files }, 1)

  unfoldable pub delete_segment : String → Archive → Archive × ℕ
  unfolding delete_row get
  delete_segment id a = delete_row (get id a.table) id a

  unfoldable pub delete_segments : List String → Archive → Archive × ℕ
  unfolding delete_segment
  delete_segments [] a = (a, 0)
  delete_segments (id ∷ ids) a =
      let (b, n) = delete_segment id a in let (c, m) = delete_segments ids b in (c, n + m)

  unfoldable pub remove_files : Table → List String → List String
  unfolding remove_segment_file
  remove_files [] files = files
  remove_files (s ∷ t) files = remove_files t (remove_segment_file s files)

  unfoldable pub delete_device_segments : String → Archive → Archive × ℕ
  unfolding remove_files list_by_stream delete_by_stream
  delete_device_segments device_id a =
      let records = list_by_stream device_id a.table in
      (
        record { table = delete_by_stream device_id a.table; files = remove_files records a.files },
        length records,
      )
