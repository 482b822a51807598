-- ===== src/Storage/Transport/Attempts.antt =====
-- How often a segment is copied to a target.
use lite_nvr.Storage.Transport.{Status, sweep_all, has_failed, done, failed, pending}
use lite_nvr.Storage.Segments.Rows.{sum_rows-le}
use lite_nvr.Storage.Segments.Rows.{sum_rows-where, order_by-SameRows, has_id, UniqueIds}
use lite_nvr.Storage.Segments.{order_by, rows_where, sum_rows, Table, RecordSegment}
use lite_nvr.Common.{
  ℕ, ◌+◌, ◌≡◌, ◌≤◌, ◌<◌, refl, ap, ◌∙◌, true, false, none, some, ◌&&◌, inl, inr, string_eq, [], ◌∷◌,
  ltb, leb, take, String, Bool, Option, List, Bool-cases, if◌then◌else◌, arith, zero, suc,
}
use lite_nvr.Common.Dict.{lookup-insert, lookup}
use lite_nvr.Storage.Transport.{
  upsert_if, sweep_target, job_for, upsert, needs, attempts_of, merged, list_needing_transport,
  upload_batch, upload_one, Jobs, Transport, TransportJob, Round, get, pair_eq, max_attempts,
  batch_per_target,
}

abbrev pub same_key : String × String → String × String → Bool
same_key a b = pair_eq.hits a b

abbrev pub tally : String → String → List (String × String) → ℕ
tally s t [] = 0
tally s t (u ∷ us) = (if same_key u (s, t) then 1 else 0) + tally s t us

abbrev pub hit : Round → String → String → RecordSegment → ℕ
hit r s t x = if same_key (x.id, r.target_id) (s, t) then 1 else 0

abbrev recorded : String → String → Transport → ℕ
recorded s t st = attempts_of (lookup (s, t) st.jobs)

attempts-merged :
    (o : Option TransportJob) (job : TransportJob) → (merged o job).attempts ≡ job.attempts
attempts-merged none job = refl
attempts-merged (some old) job = refl

recorded-upsert :
    (r : Round) (x : RecordSegment) (jobs : Jobs) (s t : String)
    → let job = job_for r x (lookup (x.id, r.target_id) jobs) in
      attempts_of (lookup (s, t) (upsert job jobs)) ≡ attempts_of (lookup (s, t) jobs) + hit r s t x
unfolding upsert get job_for
recorded-upsert r x jobs s t =
    let o = lookup (x.id, r.target_id) jobs in
    let job = merged o (job_for r x o) in
    ap attempts_of (lookup-insert (s, t) (x.id, r.target_id) job jobs)
    ∙ elim (Bool-cases (same_key (x.id, r.target_id) (s, t))) [
      | inr e ↦ rw e (omega arith)
      | inl e ↦ rw e (
          attempts-merged o (job_for r x o)
          ∙ ap (λ k. attempts_of (lookup k jobs) + 1)
              ((pair_eq.hits_iff (x.id, r.target_id) (s, t)).0 e))
    ]

kept-upsert :
    (r : Round) (x : RecordSegment) (jobs : Jobs) (s t : String)
    → hit r s t x ≡ 0
    → let job = job_for r x (lookup (x.id, r.target_id) jobs) in
      lookup (s, t) (upsert job jobs) ≡ lookup (s, t) jobs
unfolding upsert get job_for
kept-upsert r x jobs s t h =
    let o = lookup (x.id, r.target_id) jobs in
    lookup-insert (s, t) (x.id, r.target_id) (merged o (job_for r x o)) jobs
    ∙ elim (Bool-cases (same_key (x.id, r.target_id) (s, t))) [
      | inr e ↦ rw e refl
      | inl e ↦ absurd (omega (arith, h, ap {B = ℕ} (λ b. if b then 1 else 0) e))
    ]

-- Every upload of the segment to the target is counted by the job, or could not be recorded.
abbrev Counted : String → String → Transport → Type 0
Counted s t st = tally s t st.uploads ≡ recorded s t st + tally s t st.unrecorded

-- From one state to a later one, with `n` uploads of the segment to the target at most.
abbrev Grown : String → String → ℕ → Transport → Transport → Type 0
Grown s t n st st' =
    Counted s t st'
    × (recorded s t st' ≤ recorded s t st + n)
    × (n ≡ 0
        → (tally s t st'.uploads ≡ tally s t st.uploads)
          × (lookup (s, t) st'.jobs ≡ lookup (s, t) st.jobs))

one_lem :
    (r : Round) (x : RecordSegment) (st : Transport) (s t : String)
    → Counted s t st
    → Grown s t (hit r s t x) st (upload_one r x st)
unfolding upload_one get
one_lem r x st s t c = at (r.records x)
  where
    job : TransportJob
    job = job_for r x (lookup (x.id, r.target_id) st.jobs)

    uploaded : Transport
    uploaded = record st { uploads = (x.id, r.target_id) ∷ st.uploads }

    ids : (job.segment_id ≡ x.id) × (job.target_id ≡ r.target_id)
    ids = (refl, refl)

    at : (b : Bool) → Grown s t (hit r s t x) st (upsert_if b job uploaded)
    at true =
        let more = recorded-upsert r x st.jobs s t in
        (
          omega (arith, c, more),
          omega (arith, more),
          (λ h. (omega (arith, h), kept-upsert r x st.jobs s t h)),
        )
    at false = (omega (arith, c), omega arith, (λ h. (omega (arith, h), refl)))

batch_lem :
    (r : Round) (ss : Table) (st : Transport) (s t : String)
    → Counted s t st
    → Grown s t (sum_rows (hit r s t) ss) st (upload_batch r ss st)
unfolding upload_batch
batch_lem r [] st s t c = (c, omega arith, (λ h. (refl, refl)))
batch_lem r (x ∷ ss) st s t c =
    let one = upload_one r x st in
    let first = one_lem r x st s t c in
    let rest = batch_lem r ss one s t first.0 in
    at (r.records x) one first (upload_batch r ss one) rest
  where
    n : ℕ
    n = sum_rows (hit r s t) ss

    at :
        (b : Bool) (one : Transport)
        → Grown s t (hit r s t x) st one
        → (last : Transport) → Grown s t n one last
        → Grown s t (hit r s t x + n) st (if b then last else one)
    at true one first last rest = (
      rest.0,
      omega (arith, first.1, rest.1),
      (λ h.
          let a = first.2 (omega (arith, h)) in
          let b = rest.2 (omega (arith, h)) in (b.0 ∙ a.0, b.1 ∙ a.1)),
    )
    at false one first last rest =
        (first.0, omega (arith, first.1), (λ h. first.2 (omega (arith, h))))

sum_rows-take : (f : RecordSegment → ℕ) (n : ℕ) (t : Table) → sum_rows f (take n t) ≤ sum_rows f t
sum_rows-take f zero t = omega arith
sum_rows-take f (suc n) [] = omega arith
sum_rows-take f (suc n) (s ∷ t) = omega (arith, sum_rows-take f n t)

abbrev due : Jobs → String → String → Bool
due jobs s t = needs max_attempts (lookup (s, t) jobs)

nothing : (b : Bool) (m : ℕ) {n : ℕ} → m ≡ 0 → (if b then m else 0) ≤ n
nothing true m e = omega (arith, e)
nothing false m e = omega arith

le_if : (b c : Bool) (m n : ℕ) → b ≡ c → m ≤ n → (if b then m else 0) ≤ (if c then n else 0)
le_if true true m n e h = h
le_if false c m n e h = omega arith
le_if true false m n e h = absurd (ground (arith, e))

hit_le :
    (r : Round) (jobs : Jobs) (s t : String) (x : RecordSegment)
    → (if due jobs x.id r.target_id then hit r s t x else 0)
      ≤ (if due jobs s t then has_id s x else 0)
hit_le r jobs s t x = elim (Bool-cases (same_key (x.id, r.target_id) (s, t))) [
  | inr e ↦
      nothing (due jobs x.id r.target_id) (hit r s t x) (ap {B = ℕ} (λ b. if b then 1 else 0) e)
  | inl e ↦
      let k = (pair_eq.hits_iff (x.id, r.target_id) (s, t)).0 e in
      let same : due jobs x.id r.target_id ≡ due jobs s t =
        ap (λ p. needs max_attempts (lookup p jobs)) k in
      let found : has_id s x ≡ 1 =
        ap {B = ℕ} (λ b. if b then 1 else 0) ((string_eq.hits_iff x.id s).1 (ap (λ p. p.0) k)) in
      le_if (due jobs x.id r.target_id) (due jobs s t) (hit r s t x) (has_id s x) same
        (omega (arith, found, ap {B = ℕ} (λ b. if b then 1 else 0) e))
]

sum_if :
    (b : Bool) (f : RecordSegment → ℕ) (t : Table)
    → sum_rows f t ≤ 1
    → sum_rows (λ x. if b then f x else 0) t ≤ (if b then 1 else 0)
sum_if true f t h = h
sum_if false f [] h = omega arith
sum_if false f (x ∷ t) h = omega (arith, sum_if false f t (omega (arith, h)))

needing_hits :
    (r : Round) (jobs : Jobs) (s t : String)
    → UniqueIds r.segments
    → sum_rows
        (hit r s t)
        (list_needing_transport r.target_id max_attempts batch_per_target jobs r.segments)
      ≤ (if due jobs s t then 1 else 0)
unfolding list_needing_transport
needing_hits r jobs s t u =
    let before : RecordSegment → RecordSegment → Bool = λ a b. leb a.start_time b.start_time in
    let is_due : RecordSegment → Bool = λ x. due jobs x.id r.target_id in
    let found = rows_where is_due r.segments in
    omega (
      arith,
      sum_rows-take (hit r s t) batch_per_target (order_by before found),
      order_by-SameRows before found (hit r s t),
      sum_rows-where is_due (hit r s t) r.segments,
      sum_rows-le (λ x. if is_due x then hit r s t x else 0)
          (λ x. if due jobs s t then has_id s x else 0) r.segments (hit_le r jobs s t),
      sum_if (due jobs s t) (has_id s) r.segments (u s),
    )

and_right : (x y : Bool) → (x && y) ≡ true → y ≡ true
and_right true y h = h
and_right false y h = absurd (ground (arith, h))

lt_of_ltb : (a b : ℕ) → ltb a b ≡ true → a < b
lt_of_ltb a b h = ground arith

bound :
    (o : Option TransportJob) (n : ℕ) {m : ℕ}
    → n ≤ (if needs max_attempts o then 1 else 0)
    → attempts_of o ≤ max_attempts
    → m ≤ attempts_of o + n
    → m ≤ max_attempts
unfolding max_attempts
bound none n h k e = omega (arith, h, e)
bound (some job) n h k e = elim (Bool-cases (needs max_attempts (some job))) [
  | inl d ↦
      let under =
        lt_of_ltb job.attempts max_attempts
          (and_right (has_failed job.status) (ltb job.attempts max_attempts) d) in
      omega (arith, h, e, under, ap {B = ℕ} (λ b. if b then 1 else 0) d)
  | inr d ↦ omega (arith, h, e, k, ap {B = ℕ} (λ b. if b then 1 else 0) d)
]

-- One sweep of a target, on segments with distinct ids.
sweep_target_lem :
    (r : Round) (st : Transport) (s t : String)
    → UniqueIds r.segments
    → Counted s t st
    → recorded s t st ≤ max_attempts
    → let st' = sweep_target r st in
      Counted s t st'
      × (recorded s t st' ≤ max_attempts)
      × (due st.jobs s t ≡ false
          → (tally s t st'.uploads ≡ tally s t st.uploads)
            × (lookup (s, t) st'.jobs ≡ lookup (s, t) st.jobs))
unfolding sweep_target
sweep_target_lem r st s t u same le =
    let found =
      list_needing_transport r.target_id max_attempts batch_per_target st.jobs r.segments in
    let b = batch_lem r found st s t same in
    let few = needing_hits r st.jobs s t u in
    let nothing_due : due st.jobs s t ≡ false → sum_rows (hit r s t) found ≡ 0 =
      λ no. omega (arith, few, ap {B = ℕ} (λ b. if b then 1 else 0) no) in
    (
      b.0,
      bound (lookup (s, t) st.jobs) (sum_rows (hit r s t) found) few le b.1,
      (λ no. b.2 (nothing_due no)),
    )

abbrev pub DistinctSegments : List Round → Type 0
DistinctSegments [] = Unit
DistinctSegments (r ∷ rs) = UniqueIds r.segments × DistinctSegments rs

-- The last attempt succeeded.
abbrev pub is_done : Option TransportJob → Bool
is_done none = false
is_done (some job) = elim job.status [ done ↦ true | _ ↦ false ]

done_not_due : (m : ℕ) (o : Option TransportJob) → is_done o ≡ true → needs m o ≡ false
done_not_due m none h = absurd (ground (arith, h))
done_not_due m (some job) h = by_status job.status (ltb job.attempts m) h
  where
    by_status :
        (q : Status) (b : Bool)
        → elim q [ done ↦ true | _ ↦ false ] ≡ true
        → (has_failed q && b) ≡ false
    by_status done b h = refl
    by_status pending b h = refl
    by_status failed b h = absurd (ground (arith, h))

sweep_all_from :
    (rs : List Round) (st : Transport) (s t : String)
    → DistinctSegments rs
    → Counted s t st
    → recorded s t st ≤ max_attempts
    → let st' = sweep_all rs st in
      Counted s t st'
      × (recorded s t st' ≤ max_attempts)
      × (is_done (lookup (s, t) st.jobs) ≡ true
          → (tally s t st'.uploads ≡ tally s t st.uploads)
            × (lookup (s, t) st'.jobs ≡ lookup (s, t) st.jobs))
unfolding sweep_all
sweep_all_from [] st s t u e le = (e, le, (λ d. (refl, refl)))
sweep_all_from (r ∷ rs) st s t u e le =
    let one = sweep_target_lem r st s t u.0 e le in
    let rest = sweep_all_from rs (sweep_target r st) s t u.1 one.0 one.1 in
    (
      rest.0,
      rest.1,
      (λ d.
          let still = one.2 (done_not_due max_attempts (lookup (s, t) st.jobs) d) in
          let more = rest.2 (ap is_done still.1 ∙ d) in (more.0 ∙ still.0, more.1 ∙ still.1)),
    )

abbrev pub idle : Transport
idle = record { jobs = []; uploads = []; unrecorded = [] }

-- In any history of sweeps on segments with distinct ids, started without jobs, in which no target is
-- deleted, which would delete its jobs, whatever the uploads give and whatever segments each sweep
-- finds: a segment has been uploaded to a target as often as its job records and the database has
-- failed to record it, and the job records five times at most. Once its job says that a copy has
-- succeeded, further sweeps copy it to that target no more and leave the job as it is.
pub sweep_all_lem :
    (rs later : List Round) (s t : String)
    → DistinctSegments rs
    → DistinctSegments later
    → let st = sweep_all rs idle in
      let st' = sweep_all later st in
      (tally s t st.uploads ≡ attempts_of (lookup (s, t) st.jobs) + tally s t st.unrecorded)
      × (attempts_of (lookup (s, t) st.jobs) ≤ 5)
      × (is_done (lookup (s, t) st.jobs) ≡ true
          → (tally s t st'.uploads ≡ tally s t st.uploads)
            × (lookup (s, t) st'.jobs ≡ lookup (s, t) st.jobs))
unfolding max_attempts lookup
sweep_all_lem rs later s t u v =
    let st = sweep_all rs idle in
    let first = sweep_all_from rs idle s t u refl (omega arith) in
    let then_on = sweep_all_from later st s t v first.0 first.1 in (first.0, first.1, then_on.2)
