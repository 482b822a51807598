-- ===== src/Playback/Range.antt =====
-- playback.rs: the bytes of a segment that a player asks for. A header is the list of its bytes.
pub mod Bounds
pub mod Parse
use lite_nvr.Common.{
  ℕ, Bool, true, false, Option, none, some, List, [], ◌∷◌, String, ◌+◌, ◌-◌, ◌^◌, ◌&&◌, ◌||◌, min,
  length, take, drop, reverse, ltb, leb, if◌then◌else◌, ◌==◌, nat_eq,
}
use lite_nvr.Common.Digits.{all_digits, decimal}
use lite_nvr.Common.Text.{codes}
use lite_nvr.Storage.Segments.{RecordSegment, Table, get}

-- `str::parse` into usize: an optional plus sign, and digits whose number is below 2^64.
unfoldable pub digits_usize : List ℕ → Option ℕ
unfolding all_digits decimal
digits_usize [] = none
digits_usize (b ∷ bs) =
    if all_digits (b ∷ bs) && ltb (decimal 0 (b ∷ bs)) (2 ^ 64)
    then some (decimal 0 (b ∷ bs))
    else none

unfoldable pub parse_usize : List ℕ → Option ℕ
unfolding digits_usize
parse_usize [] = none
parse_usize (b ∷ bs) = if b == b'+' then digits_usize bs else digits_usize (b ∷ bs)

-- A header that reads as text has no other white space than these.
unfoldable pub is_space : ℕ → Bool
is_space b = b == b' ' || b == 9

unfoldable pub trim_start : List ℕ → List ℕ
unfolding is_space
trim_start [] = []
trim_start (b ∷ bs) = let rest = trim_start bs in if is_space b then rest else b ∷ bs

unfoldable pub trim : List ℕ → List ℕ
unfolding trim_start
trim bs = reverse (trim_start (reverse (trim_start bs)))

unfoldable pub strip_prefix : List ℕ → List ℕ → Option (List ℕ)
strip_prefix [] bs = some bs
strip_prefix (p ∷ ps) [] = none
strip_prefix (p ∷ ps) (b ∷ bs) = let rest = strip_prefix ps bs in if b == p then rest else none

unfoldable pub before_dash : ℕ → Option (List ℕ × List ℕ) → Option (List ℕ × List ℕ)
before_dash b none = none
before_dash b (some (s, e)) = some (b ∷ s, e)

-- `split_once('-')`.
unfoldable pub split_dash : List ℕ → Option (List ℕ × List ℕ)
unfolding before_dash
split_dash [] = none
split_dash (b ∷ bs) =
    let rest = split_dash bs in if b == b'-' then some ([], bs) else before_dash b rest

unfoldable pub suffix_range : ℕ → Option ℕ → Option (ℕ × ℕ)
suffix_range content_len none = none
suffix_range content_len (some n) = if n == 0 then none else some (content_len - n, content_len - 1)

unfoldable pub open_range : ℕ → Option ℕ → Option (ℕ × ℕ)
open_range content_len none = none
open_range content_len (some start) =
    if leb content_len start then none else some (start, content_len - 1)

unfoldable pub closed_range : ℕ → Option ℕ → Option ℕ → Option (ℕ × ℕ)
closed_range content_len none e = none
closed_range content_len (some start) none = none
closed_range content_len (some start) (some end) =
    if ltb end start || leb content_len start then none else some (start, min end (content_len - 1))

unfoldable pub range_of : ℕ → List ℕ → List ℕ → Option (ℕ × ℕ)
unfolding suffix_range open_range closed_range parse_usize
range_of content_len [] [] = none
range_of content_len [] (b ∷ bs) = suffix_range content_len (parse_usize (b ∷ bs))
range_of content_len (b ∷ bs) [] = open_range content_len (parse_usize (b ∷ bs))
range_of content_len (b ∷ bs) (c ∷ cs) =
    closed_range content_len (parse_usize (b ∷ bs)) (parse_usize (c ∷ cs))

unfoldable pub split_range : ℕ → Option (List ℕ × List ℕ) → Option (ℕ × ℕ)
unfolding range_of trim
split_range content_len none = none
split_range content_len (some (s, e)) = range_of content_len (trim s) (trim e)

unfoldable pub after_prefix : ℕ → Option (List ℕ) → Option (ℕ × ℕ)
unfolding split_range split_dash
after_prefix content_len none = none
after_prefix content_len (some bs) = split_range content_len (split_dash bs)

unfoldable pub parse_range_header : List ℕ → ℕ → Option (ℕ × ℕ)
unfolding after_prefix strip_prefix
parse_range_header range content_len =
    if content_len == 0
    then none
    else after_prefix content_len (strip_prefix (codes "bytes=") range)

-- `seek` and `read_exact`: an error where the file ends before.
unfoldable pub read_file_range : List ℕ → ℕ → ℕ → Option (List ℕ)
read_file_range content start len =
    if leb (start + len) (length content) then some (take len (drop start content)) else none

-- The answer to a player: what it holds, and the range that it names.
pub data Response : Type 0 where
  whole_file : List ℕ → ℕ → Response
  partial_content : List ℕ → ℕ → ℕ → ℕ → ℕ → Response
  not_satisfiable : ℕ → Response
  not_found failed : Response

unfoldable pub partial : List ℕ → ℕ → Option (ℕ × ℕ) → Response
unfolding read_file_range
partial content content_len none = not_satisfiable content_len
partial content content_len (some (start, end)) =
    read (read_file_range content start (end - start + 1))
  where
    read : Option (List ℕ) → Response
    read none = failed
    read (some body) = partial_content body start end content_len (end - start + 1)

unfoldable pub ranged : Option (List ℕ) → List ℕ → ℕ → Response
unfolding partial parse_range_header
ranged none content content_len = whole_file content (length content)
ranged (some range) content content_len =
    partial content content_len (parse_range_header range content_len)

-- `metadata` and `contents` are the file system's: the length of a file, and its bytes when they are read,
-- a little later.
module _ (metadata : String → Option ℕ) (contents : String → Option (List ℕ)) where
  unfoldable pub read_segment : Option (List ℕ) → Option ℕ → Option (List ℕ) → Response
  unfolding ranged
  read_segment range none content = not_found
  read_segment range (some content_len) none = failed
  read_segment range (some content_len) (some content) = ranged range content content_len

  unfoldable pub play_row : Option (List ℕ) → Option RecordSegment → Response
  unfolding read_segment
  play_row range none = not_found
  play_row range (some s) = read_segment range (metadata s.file_path) (contents s.file_path)

  -- A Range header that is not text counts as none. The segment's file name is taken to fit into a
  -- header.
  unfoldable pub play_segment : Option (List ℕ) → String → Table → Response
  unfolding play_row
  play_segment range id t = play_row range (get id t)
