-- ===== src/Jobs/Unique.antt =====
-- Requests to the job service, and what they keep.
use serverust_less.Prelude.{true, false, String, Option, List, [], ◌∷◌}
use serverust_less.Model.Clock.{Clock}
use serverust_less.Model.Job.{CreateJobRequest, UpdateJobRequest}
use serverust_less.Db.{System}
use serverust_less.Jobs.{
  create_job, update_job, delete_job, enable_job, disable_job, clone_job, bulk_delete_jobs,
  only_enabled,
}
use serverust_less.Jobs.Names.{WellNamed, ids, Appended-WellNamed, create_job-Appended}
use serverust_less.Action.{AppError, pure, ◌>>=◌}
use serverust_less.Action.Keeps.{bind-Keeps, try_or-Keeps}
use serverust_less.Jobs.{bulk_create_jobs, and_job, and_error}
use serverust_less.Jobs.Changes.{
  update_job-WellNamed, clone_job-WellNamed, delete_job-WellNamed, bulk_delete_jobs-WellNamed,
}

-- What the service is asked to do, with the texts and the fresh ids that it needs.
pub data Request : Type 0 where
  creates : String → Clock → String → CreateJobRequest → Request
  updates : String → Clock → String → UpdateJobRequest → Request
  enables : String → Clock → String → Request
  disables : String → Clock → String → Request
  clones : Clock → String → String → Option String → Request
  deletes : String → Request
  bulk_deletes : List String → Request
  bulk_creates :
      (AppError → String)
      → (CreateJobRequest → String)
      → Clock
      → List (String × CreateJobRequest)
      → Request

unfoldable pub serve : Request → System → System
unfolding create_job update_job enable_job disable_job clone_job delete_job bulk_delete_jobs
    bulk_create_jobs
serve (creates invalid clock id req) s = (create_job invalid clock id req s).1
serve (updates invalid clock id req) s = (update_job invalid clock id req s).1
serve (enables invalid clock id) s = (enable_job invalid clock id s).1
serve (disables invalid clock id) s = (disable_job invalid clock id s).1
serve (clones clock new_id id name) s = (clone_job clock new_id id name s).1
serve (deletes id) s = (delete_job id s).1
serve (bulk_deletes ids) s = (bulk_delete_jobs ids s).1
serve (bulk_creates message invalid clock requests) s =
    (bulk_create_jobs message invalid clock requests s).1

bulk_create_jobs-WellNamed :
    (message : AppError → String) (invalid : CreateJobRequest → String) (clock : Clock)
    (requests : List (String × CreateJobRequest)) (s : System)
    → WellNamed s.jobs
    → WellNamed (bulk_create_jobs message invalid clock requests s).1.jobs
unfolding bulk_create_jobs
bulk_create_jobs-WellNamed message invalid clock [] s w = w
bulk_create_jobs-WellNamed message invalid clock (r ∷ requests) s w =
    let Named : System → Type 0 = λ t. WellNamed t.jobs in
    let rest = bulk_create_jobs message invalid clock requests in
    let keeps = bulk_create_jobs-WellNamed message invalid clock requests in
    try_or-Keeps Named (create_job (invalid r.1) clock r.0 r.1)
      (λ job. rest >>= λ made. pure (and_job job made))
      (λ e. rest >>= λ made. pure (and_error (message e) made))
      (λ t v. Appended-WellNamed _ t.jobs _ (create_job-Appended (invalid r.1) clock r.0 r.1 t) v)
      (λ job. bind-Keeps Named rest (λ made. pure (and_job job made)) keeps (λ made t v. v))
      (λ e. bind-Keeps Named rest (λ made. pure (and_error (message e) made)) keeps (λ made t v. v))
      s w

-- Whatever the job service is asked to do, one request after the other, no two jobs have one name, and
-- no two have one id.
pub serve-WellNamed : (r : Request) (s : System) → WellNamed s.jobs → WellNamed (serve r s).jobs
unfolding serve enable_job disable_job
serve-WellNamed (creates invalid clock id req) s w =
    Appended-WellNamed _ s.jobs _ (create_job-Appended invalid clock id req s) w
serve-WellNamed (updates invalid clock id req) s w = update_job-WellNamed invalid clock id req s w
serve-WellNamed (enables invalid clock id) s w =
    update_job-WellNamed invalid clock id (only_enabled true) s w
serve-WellNamed (disables invalid clock id) s w =
    update_job-WellNamed invalid clock id (only_enabled false) s w
serve-WellNamed (clones clock new_id id name) s w = clone_job-WellNamed clock new_id id name s w
serve-WellNamed (deletes id) s w = delete_job-WellNamed id s w
serve-WellNamed (bulk_deletes ids) s w = bulk_delete_jobs-WellNamed ids s w
serve-WellNamed (bulk_creates message invalid clock requests) s w =
    bulk_create_jobs-WellNamed message invalid clock requests s w
