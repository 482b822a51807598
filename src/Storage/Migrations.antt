-- ===== src/Storage/Migrations.antt =====
-- nvr-db/src/migrations.rs. The database is seen as the rows of its table of migrations and the batches
-- of SQL that were committed; `works` says whether a batch succeeds after these. A file name is the
-- list of its bytes.
pub mod Once
mod Runs
use lite_nvr.Common.{
  ℕ, zero, suc, Bool, true, false, Option, none, some, List, [], ◌∷◌, ◌++◌, String, ◌≡◌, ◌^◌, ◌-◌,
  ◌&&◌, ◌||◌, ltb, leb, length, drop, take, map, if◌then◌else◌, ◌==◌, nat_eq,
}
use lite_nvr.Common.Int.{ℤ, pos, negsuc, sub_ℕ, leb_ℤ, ◌==ℤ◌}
use lite_nvr.Common.Digits.{all_digits, decimal}
use lite_nvr.Common.Text.{codes, same_codes}

pub record Migration : Type 0 where
  pub version : ℤ
  pub description : List ℕ
  pub sql : String

pub record Db : Type 0 where
  pub rows : List (ℤ × List ℕ)
  pub batches : List String

-- `str::parse` into i64.
unfoldable pub natural : List ℕ → Option ℕ
unfolding all_digits decimal
natural [] = none
natural (b ∷ bs) = if all_digits (b ∷ bs) then some (decimal 0 (b ∷ bs)) else none

unfoldable pub up_to : Bool → ℕ → Option ℕ → Option ℤ
up_to minus most none = none
up_to minus most (some n) = if leb n most then some (if minus then sub_ℕ 0 n else pos n) else none

unfoldable pub parse_i64 : List ℕ → Option ℤ
unfolding natural up_to
parse_i64 [] = none
parse_i64 (b ∷ bs) =
    if b == b'-'
    then up_to true (2 ^ 63) (natural bs)
    else up_to false (2 ^ 63 - 1) (natural (if b == b'+' then bs else b ∷ bs))

unfoldable pub before_bar : ℕ → Option (List ℕ × List ℕ) → Option (List ℕ × List ℕ)
before_bar b none = none
before_bar b (some (s, e)) = some (b ∷ s, e)

-- `splitn(2, '_')`, where it gives two parts.
unfoldable pub split_bar : List ℕ → Option (List ℕ × List ℕ)
unfolding before_bar
split_bar [] = none
split_bar (b ∷ bs) =
    let rest = split_bar bs in if b == b'_' then some ([], bs) else before_bar b rest

unfoldable pub ends_with_sql : List ℕ → Bool
ends_with_sql bs = leb 4 (length bs) && same_codes (drop (length bs - 4) bs) (codes ".sql")

-- `trim_end_matches(".sql")`, as often as it matches; there are no more matches than bytes.
unfoldable pub trim_sql : ℕ → List ℕ → List ℕ
unfolding ends_with_sql
trim_sql zero bs = bs
trim_sql (suc n) bs =
    let rest = trim_sql n (take (length bs - 4) bs) in if ends_with_sql bs then rest else bs

unfoldable pub spaced : ℕ → ℕ
spaced b = if b == b'_' then b' ' else b

unfoldable pub migration_of : Option ℤ → List ℕ → String → Option Migration
unfolding trim_sql spaced
migration_of none name sql = none
migration_of (some v) name sql =
    some (record { version = v; description = map spaced (trim_sql (length name) name); sql = sql })

unfoldable pub and_migration : Option Migration → Option (List Migration) → Option (List Migration)
and_migration none l = none
and_migration (some m) none = none
and_migration (some m) (some l) = some (m ∷ l)

-- A file of another name is ignored, and a version that is no number makes the loading fail.
unfoldable pub load_file :
    Option (List ℕ × List ℕ) → String → Option (List Migration) → Option (List Migration)
unfolding migration_of parse_i64 ends_with_sql and_migration
load_file none sql rest = rest
load_file (some (v, name)) sql rest =
    if ends_with_sql name then and_migration (migration_of (parse_i64 v) name sql) rest else rest

unfoldable pub load_migrations : List (List ℕ × String) → Option (List Migration)
unfolding load_file split_bar
load_migrations [] = some []
load_migrations ((name, sql) ∷ files) = load_file (split_bar name) sql (load_migrations files)

-- `sort_by_key`, which keeps the order of equal versions.
unfoldable pub place : Migration → List Migration → List Migration
place m [] = m ∷ []
place m (n ∷ ms) =
    let rest = place m ms in if leb_ℤ m.version n.version then m ∷ n ∷ ms else n ∷ rest

unfoldable pub sort_by_version : List Migration → List Migration
unfolding place
sort_by_version [] = []
sort_by_version (m ∷ ms) = place m (sort_by_version ms)

unfoldable pub is_migration_applied : ℤ → List (ℤ × List ℕ) → Bool
is_migration_applied v [] = false
is_migration_applied v ((w, d) ∷ rows) = w ==ℤ v || is_migration_applied v rows

module _ (works : List String → String → Bool) where
  -- A transaction that is not committed leaves nothing behind.
  unfoldable pub apply_one : Migration → Db → Db × Bool
  apply_one m db =
      if works db.batches m.sql
      then (
        record {
          rows = db.rows ++ ((m.version, m.description) ∷ []);
          batches = db.batches ++ (m.sql ∷ []);
        },
        true,
      )
      else (db, false)

  -- The loop goes on after a success, and leaves with the first failure.
  unfoldable pub go_on : Db × Bool → (Db → Db × Bool) → Db × Bool
  go_on (db, true) next = next db
  go_on (db, false) next = (db, false)

  unfoldable pub apply_all : List Migration → Db → Db × Bool
  unfolding apply_one go_on is_migration_applied
  apply_all [] db = (db, true)
  apply_all (m ∷ ms) db =
      go_on (if is_migration_applied m.version db.rows then (db, true) else apply_one m db)
        (apply_all ms)

  unfoldable pub apply_loaded : Option (List Migration) → Db → Db × Bool
  unfolding apply_all sort_by_version
  apply_loaded none db = (db, false)
  apply_loaded (some ms) db = apply_all (sort_by_version ms) db

  unfoldable pub migrate : List (List ℕ × String) → Db → Db × Bool
  unfolding apply_loaded load_migrations
  migrate files db = apply_loaded (load_migrations files) db
