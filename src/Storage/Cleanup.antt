-- ===== src/Storage/Cleanup.antt =====
-- nvr/src/cleanup.rs: the retention pass over the record segments. A query that fails ends the pass
-- before its next rule; that is left out. `delete_fails` says for which ids the database refuses the
-- deletion, which the pass logs and passes over.
pub mod Size
pub mod Age
mod Runs
use lite_nvr.Storage.Segments.{delete, list, list_older_than_days, RecordSegment, total_size, Table}
use lite_nvr.Common.{
  Bool, String, ℕ, false, ltb, leb, max, ◌||◌, ◌&&◌, if◌then◌else◌, ◌==◌, string_eq, nat_eq, ◌-◌,
  ◌*◌, ◌/◌, ◌+◌, ◌∷◌, [], List, ◌++◌, reverse,
}

-- The numbers are u32.
pub record CleanupConfig : Type 0 where
  pub enabled : Bool
  pub max_age_days : ℕ
  pub max_total_gb : ℕ
  pub interval_minutes : ℕ

pub default_interval : ℕ
default_interval = 60

pub default_config : CleanupConfig
unfolding default_interval
default_config = record {
  enabled = false;
  max_age_days = 0;
  max_total_gb = 0;
  interval_minutes = default_interval;
}

pub sanitized : CleanupConfig → CleanupConfig
sanitized c = record c { interval_minutes = max c.interval_minutes 1 }

-- The table, the paths whose files were removed, and the two counters of the pass.
pub record Pass : Type 0 where
  pub rows : Table
  pub files : List String
  pub removed : ℕ
  pub freed : ℕ

abbrev pub remove_file : String → List String → List String
remove_file path files = if path == "" then files else path ∷ files

module _ (delete_fails : String → Bool) where
  pub remove_segment : RecordSegment → Pass → Pass
  remove_segment s p = record {
    rows = if delete_fails s.id then p.rows else delete s.id p.rows;
    files = remove_file s.file_path p.files;
    removed = p.removed + 1;
    freed = p.freed + s.file_size;
  }

  pub remove_all : Table → Pass → Pass
  unfolding remove_segment
  remove_all [] p = p
  remove_all (s ∷ t) p = remove_all t (remove_segment s p)

  pub age_rule : CleanupConfig → ℕ → Pass → Pass
  unfolding remove_all
  age_rule c now p =
      if ltb 0 c.max_age_days
      then remove_all (list_older_than_days now c.max_age_days p.rows) p
      else p

  -- The loop over the segments, the oldest first.
  pub prune : ℕ → ℕ → Table → Pass → Pass
  unfolding remove_segment
  prune cap total [] p = p
  prune cap total (s ∷ t) p =
      let rest = prune cap (total - s.file_size) t (remove_segment s p) in
      if leb total cap then p else rest

  abbrev pub cap_of : CleanupConfig → ℕ
  cap_of c = c.max_total_gb * 1024 * 1024 * 1024

  pub size_rule : CleanupConfig → Pass → Pass
  unfolding prune
  size_rule c p =
      let total = total_size p.rows in
      if ltb 0 c.max_total_gb && ltb (cap_of c) total
      then prune (cap_of c) total (reverse (list p.rows)) p
      else p

  pub run_once : CleanupConfig → ℕ → Table → Pass
  unfolding age_rule size_rule
  run_once c now t =
      let start : Pass = record { rows = t; files = []; removed = 0; freed = 0 } in
      if c.enabled then size_rule c (age_rule c now start) else start
