-- ===== src/Storage/Targets/Delete.antt =====
-- What is left when a target goes.
use lite_nvr.Common.{String, string_eq, Option, none, some, ◌==◌, ◌≡◌, ◌∙◌, refl, false, ==_refl}
use lite_nvr.Common.Dict.{lookup, kept_if, lookup-remove, lookup-keep_where, UniqueKeys}
use lite_nvr.Storage.Transport.{pair_eq, TransportJob}
use lite_nvr.Storage.Targets.{Store, get, delete, of_other}

kept_job :
    (id t segment : String)
    → (t == id) ≡ false
    → (o : Option TransportJob) → kept_if (of_other id) (segment, t) o ≡ o
unfolding kept_if
kept_job id t segment n none = refl
kept_job id t segment n (some job) = rw n refl

lost_job :
    (id segment : String) (o : Option TransportJob) → kept_if (of_other id) (segment, id) o ≡ none
unfolding kept_if
lost_job id segment none = refl
lost_job id segment (some job) = rw (==_refl id) refl

-- Deleting a target leaves neither it nor a job of it, and leaves every other target and its jobs as
-- they were, if no pair of segment and target has two jobs.
pub delete_lem :
    (id : String) (s : Store)
    → UniqueKeys s.jobs
    → (get id (delete id s) ≡ none)
      × ((segment : String) → lookup (segment, id) (delete id s).jobs ≡ none)
      × ((t segment : String)
          → (t == id) ≡ false
          → (id == t) ≡ false
          → (get t (delete id s) ≡ get t s)
            × (lookup (segment, t) (delete id s).jobs ≡ lookup (segment, t) s.jobs))
unfolding get delete
delete_lem id s u = (
  lookup-remove id id s.targets ∙ rw (==_refl id) refl,
  (λ segment.
      lookup-keep_where (of_other id) (segment, id) s.jobs u
      ∙ lost_job id segment (lookup (segment, id) s.jobs)),
  (λ t segment n m. (
    lookup-remove t id s.targets ∙ rw m refl,
    lookup-keep_where (of_other id) (segment, t) s.jobs u
        ∙ kept_job id t segment n (lookup (segment, t) s.jobs),
  )),
)
