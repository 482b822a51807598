-- ===== src/Gb/Catalog.antt =====
-- crates/gb28181/src/manscdp.rs and server.rs: a query's answers in chunks, and what is sent again.
pub mod Chunks
mod Runs
use lite_nvr.Common.{
  ℕ, ◌%◌, ◌^◌, String, Bool, true, false, not, ◌&&◌, Option, none, some, List, [], ◌∷◌, ◌++◌,
  if◌then◌else◌, ◌==◌, nat_eq, ltb, leb, length, Result, ok, err,
}
use lite_nvr.Gb.Server.{CatalogItem, CatalogResponse}

pub record CatalogAccumulator : Type 0 where
  pub sn : ℕ
  pub sum_num : ℕ
  pub items : List CatalogItem

abbrev pub new : ℕ → CatalogAccumulator
new sn = record { sn = sn; sum_num = 0; items = [] }

unfoldable pub push : CatalogAccumulator → CatalogResponse → Bool × CatalogAccumulator
push acc chunk = if not (chunk.sn == acc.sn) then (false, acc) else (
  true,
  record acc {
    sum_num = if ltb acc.sum_num chunk.sum_num then chunk.sum_num else acc.sum_num;
    items = acc.items ++ chunk.items;
  },
)

-- `items.len() as u32`.
abbrev pub count : CatalogAccumulator → ℕ
count acc = length acc.items % 2 ^ 32

unfoldable pub is_complete : CatalogAccumulator → Bool
is_complete acc = ltb 0 acc.sum_num && leb acc.sum_num (count acc)

pub record Catalog : Type 0 where
  pub sum_num : ℕ
  pub items : List CatalogItem
  pub incomplete : Bool

unfoldable pub finish : CatalogAccumulator → Catalog
finish acc = record {
  sum_num = acc.sum_num;
  items = acc.items;
  incomplete = ltb 0 acc.sum_num && ltb (count acc) acc.sum_num;
}

-- The chunks that arrive before the time is out.
unfoldable pub collect : CatalogAccumulator → List CatalogResponse → CatalogAccumulator
unfolding push is_complete
collect acc [] = acc
collect acc (chunk ∷ chunks) =
    let acc' = (push acc chunk).1 in
    let rest = collect acc' chunks in if is_complete acc' then acc' else rest

pub data QueryError : Type 0 where
  device_offline : QueryError
  not_sent : QueryError

-- What a send gives the first and the second time.
unfoldable pub send_twice : Bool → Bool → ℕ × Bool
send_twice true second = (1, true)
send_twice false second = (2, second)

-- `catalog_query` for its number: none when the device has no destination.
unfoldable pub catalog_query :
    Option ℕ → Bool → Bool → List CatalogResponse → Result QueryError Catalog
unfolding send_twice collect finish
catalog_query none first second chunks = err device_offline
catalog_query (some sn) first second chunks =
    if (send_twice first second).1 then ok (finish (collect (new sn) chunks)) else err not_sent

-- `device_control`: how often the command is sent, and whether that succeeds in the end.
unfoldable pub device_control : Bool → Bool → Bool → ℕ × Bool
unfolding send_twice
device_control is_motion first second = if is_motion then (1, first) else send_twice first second
