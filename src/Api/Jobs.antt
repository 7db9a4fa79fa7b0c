-- ===== src/Api/Jobs.antt =====
-- The bulk handlers of api/jobs.rs; the others pass on one call of the service.
use serverust_less.Prelude.{◌-◌, String, List, [], ◌∷◌, length, ltb, if◌then◌else◌}
use serverust_less.Action.{Action, AppError, validation, bad_request, pure, throw, ◌>>=◌}
use serverust_less.Model.Bulk.{BulkOperationResponse}
use serverust_less.Model.Clock.{Clock}
use serverust_less.Model.Job.{CreateJobRequest}
use serverust_less.Db.{System}
use serverust_less.Jobs

abbrev create_some :
    (AppError → String)
    → (CreateJobRequest → String)
    → Clock
    → List (String × CreateJobRequest)
    → Action System BulkOperationResponse
create_some message invalid clock requests =
    Jobs.bulk_create_jobs message invalid clock requests >>= λ made.
    pure (record { success_count = length made.0; failure_count = length made.1; errors = made.1 })

-- Between 1 and 100 requests.
unfoldable pub bulk_create_jobs :
    (AppError → String)
    → (CreateJobRequest → String)
    → Clock
    → List (String × CreateJobRequest)
    → Action System BulkOperationResponse
unfolding Jobs.bulk_create_jobs
bulk_create_jobs message invalid clock [] = throw (validation "No jobs provided")
bulk_create_jobs message invalid clock (r ∷ requests) =
    if ltb 100 (length (r ∷ requests))
    then throw (validation "Cannot create more than 100 jobs at once")
    else create_some message invalid clock (r ∷ requests)

-- `total - deleted` is a u64; the two sides differ from it only if more rows go than there are ids.
unfoldable pub bulk_delete_jobs : List String → Action System BulkOperationResponse
unfolding Jobs.bulk_delete_jobs
bulk_delete_jobs [] = throw (bad_request "No IDs provided")
bulk_delete_jobs (id ∷ ids) = Jobs.bulk_delete_jobs (id ∷ ids) >>= λ deleted.
    pure
      (record { success_count = deleted; failure_count = length (id ∷ ids) - deleted; errors = [] })
