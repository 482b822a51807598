-- ===== src/Storage/Targets.antt =====
-- nvr-db/src/transport_target.rs: the remote targets, keyed by their id, and what deleting one does to
-- the jobs.
pub mod Delete
mod Runs
use lite_nvr.Common.{
  String, string_eq, Bool, Option, none, some, ◌==◌, not, List, [], ◌∷◌, if◌then◌else◌,
}
use lite_nvr.Common.Dict.{Dict, lookup, insert, remove, keep_where}
use lite_nvr.Storage.Transport.{Jobs, pair_eq, TransportJob}

pub record TransportTarget : Type 0 where
  pub id : String
  pub name : String
  pub kind : String
  pub enabled : Bool
  pub config : String
  pub remark : String
  pub create_time : String
  pub update_time : String

-- ON CONFLICT(id) DO UPDATE: the creation time stays.
abbrev pub merged : Option TransportTarget → TransportTarget → TransportTarget
merged none t = t
merged (some old) t = record t { create_time = old.create_time }

pub record Store : Type 0 where
  pub targets : Dict String TransportTarget
  pub jobs : Jobs

pub get : String → Store → Option TransportTarget
get id s = lookup id s.targets

pub upsert : TransportTarget → Store → Store
upsert t s = record s { targets = insert t.id (merged (lookup t.id s.targets) t) s.targets }

-- WHERE target_id = ?1, turned round.
abbrev pub of_other : String → String × String → TransportJob → Bool
of_other id k job = not (k.1 == id)

-- The target, then its jobs.
pub delete : String → Store → Store
delete id s = record { targets = remove id s.targets; jobs = keep_where (of_other id) s.jobs }

-- WHERE enabled = 1, of the targets in the order of their creation.
pub list_enabled : List TransportTarget → List TransportTarget
list_enabled [] = []
list_enabled (t ∷ ts) = let rest = list_enabled ts in if t.enabled then t ∷ rest else rest
