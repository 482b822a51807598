-- ===== src/Storage/Transport.antt =====
-- nvr-db/src/transport_job.rs, the query of record_segment.rs for what is still to copy, and the
-- sweep of nvr/src/transport/worker.rs. The jobs are keyed by segment and target, which a unique
-- index of the table says. The backends, the clock and the source of new ids are fields of a round.
pub mod Attempts
mod Runs
use lite_nvr.Common.{
  if◌then◌else◌, arith, ℕ, ◌+◌, ◌≡◌, refl, ap, true, false, none, some, ◌&&◌, ◌==◌, ◌↔◌, string_eq,
  [], ◌∷◌, ltb, leb, take, String, Bool, Option, List, MapKey,
}
use lite_nvr.Common.Dict.{Dict, lookup, insert}
use lite_nvr.Storage.Segments.{rows_where, order_by, Table, RecordSegment}

pub data Status : Type 0 where
  pending : Status
  done : Status
  failed : Status

pub record TransportJob : Type 0 where
  pub id : String
  pub segment_id : String
  pub target_id : String
  pub status : Status
  pub attempts : ℕ
  pub remote_key : String
  pub file_size : ℕ
  pub error : String
  pub create_time : ℕ
  pub update_time : ℕ

pub pair_hits_iff : (a b : String × String) → ((a.0 == b.0 && a.1 == b.1) ≡ true) ↔ (a ≡ b)
pair_hits_iff a b = (
  (λ h.
      let both = and_true (a.0 == b.0) (a.1 == b.1) h in
      λ i. ((string_eq.hits_iff a.0 b.0).0 both.0 i, (string_eq.hits_iff a.1 b.1).0 both.1 i)),
  (λ e.
      rw
        (
          (string_eq.hits_iff a.0 b.0).1 (ap (λ p. p.0) e),
          (string_eq.hits_iff a.1 b.1).1 (ap (λ p. p.1) e),
        )
        refl),
)
  where
    and_true : (x y : Bool) → (x && y) ≡ true → (x ≡ true) × (y ≡ true)
    and_true x y h = ground arith

instance abbrev pub pair_eq : MapKey (String × String)
pair_eq = record { hits = λ a b. a.0 == b.0 && a.1 == b.1; hits_iff = λ a b. pair_hits_iff a b }

abbrev pub Jobs : Type 0
Jobs = Dict (String × String) TransportJob

unfoldable pub get : String → String → Jobs → Option TransportJob
get segment_id target_id jobs = lookup (segment_id, target_id) jobs

-- ON CONFLICT(segment_id, target_id) DO UPDATE: the id and the creation time stay.
abbrev pub merged : Option TransportJob → TransportJob → TransportJob
merged none job = job
merged (some old) job = record job { id = old.id; create_time = old.create_time }

unfoldable pub upsert : TransportJob → Jobs → Jobs
unfolding get
upsert job jobs =
    insert (job.segment_id, job.target_id) (merged (get job.segment_id job.target_id jobs) job) jobs

abbrev pub has_failed : Status → Bool
has_failed failed = true
has_failed _ = false

abbrev pub needs : ℕ → Option TransportJob → Bool
needs max_attempts none = true
needs max_attempts (some job) = has_failed job.status && ltb job.attempts max_attempts

unfoldable pub list_needing_transport : String → ℕ → ℕ → Jobs → Table → Table
unfolding order_by rows_where
list_needing_transport target_id max_attempts limit jobs segments = take limit (
    order_by (λ a b. leb a.start_time b.start_time)
      (rows_where (λ s. needs max_attempts (lookup (s.id, target_id) jobs)) segments))

pub max_attempts : ℕ
max_attempts = 5

pub batch_per_target : ℕ
batch_per_target = 20

-- What a backend and the surroundings give in one sweep of a target: `upload` the error, if any, and
-- whether the database `records` the segment's job.
pub record Round : Type 0 where
  pub target_id : String
  pub segments : Table
  pub remote_key_for : RecordSegment → String
  pub upload : RecordSegment → String → Option String
  pub records : RecordSegment → Bool
  pub fresh_id : RecordSegment → String
  pub now : ℕ

-- The jobs, the uploads so far, and those of them whose job could not be recorded.
pub record Transport : Type 0 where
  pub jobs : Jobs
  pub uploads : List (String × String)
  pub unrecorded : List (String × String)

abbrev pub attempts_of : Option TransportJob → ℕ
attempts_of none = 0
attempts_of (some job) = job.attempts

abbrev pub status_of : Option String → Status
status_of none = done
status_of (some e) = failed

abbrev pub error_of : Option String → String
error_of none = ""
error_of (some e) = e

abbrev pub id_of : Option TransportJob → String → String
id_of none new_id = new_id
id_of (some job) new_id = job.id

abbrev pub created_of : Option TransportJob → ℕ → ℕ
created_of none now = now
created_of (some job) now = job.create_time

unfoldable pub job_for : Round → RecordSegment → Option TransportJob → TransportJob
job_for r s existing =
    let key = r.remote_key_for s in
    let result = r.upload s key in
    record {
      id = id_of existing (r.fresh_id s);
      segment_id = s.id;
      target_id = r.target_id;
      status = status_of result;
      attempts = attempts_of existing + 1;
      remote_key = key;
      file_size = s.file_size;
      error = error_of result;
      create_time = created_of existing r.now;
      update_time = r.now;
    }

-- The upsert of a job, by whether it succeeds.
abbrev pub upsert_if : Bool → TransportJob → Transport → Transport
upsert_if true job t = record t { jobs = upsert job t.jobs }
upsert_if false job t = record t { unrecorded = (job.segment_id, job.target_id) ∷ t.unrecorded }

unfoldable pub upload_one : Round → RecordSegment → Transport → Transport
unfolding job_for upsert get
upload_one r s t =
    upsert_if (r.records s) (job_for r s (get s.id r.target_id t.jobs))
      (record t { uploads = (s.id, r.target_id) ∷ t.uploads })

-- An upsert that fails ends the whole sweep.
unfoldable pub upload_batch : Round → Table → Transport → Transport
unfolding upload_one
upload_batch r [] t = t
upload_batch r (s ∷ ss) t =
    let one = upload_one r s t in
    let rest = upload_batch r ss one in if r.records s then rest else one

unfoldable pub sweep_target : Round → Transport → Transport
unfolding upload_batch list_needing_transport max_attempts batch_per_target
sweep_target r t =
    upload_batch r
      (list_needing_transport r.target_id max_attempts batch_per_target t.jobs r.segments) t

-- The targets of a sweep one after the other, and the sweeps one after the other. A sweep that a
-- failed upsert has ended has no rounds for its further targets.
unfoldable pub sweep_all : List Round → Transport → Transport
unfolding sweep_target
sweep_all [] t = t
sweep_all (r ∷ rs) t = sweep_all rs (sweep_target r t)
