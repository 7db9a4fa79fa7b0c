-- ===== src/Api/Venvs/Invariant.antt =====
-- What the service, its handlers and the deletion of jobs keep of the table of environments.
use serverust_less.Prelude.{
  List, ◌≡◌, refl, ◌∙◌, String, Bool, true, Option, any, find, inl, inr, not, Option-cases, arith,
}
use serverust_less.Action.{Result-cases, ◌>>=◌}
use serverust_less.Action.Keeps.{bind-Keeps}
use serverust_less.Model.Clock.{Clock}
use serverust_less.Model.Text.{trim}
use serverust_less.Model.Venv.{Venv, new_standalone}
use serverust_less.Model.Venv
use serverust_less.Db.{System}
use serverust_less.Db.JobRepository
use serverust_less.Db.JobRepository.{job_named}
use serverust_less.Db.VenvRepository.{is_main, venv_for}
use serverust_less.Jobs.{update_job, only_custom_venv}
use serverust_less.Venvs.{
  ensure_main_venv, create_custom_venv, mark_ready, mark_failed, record_usage, delete_venv,
  create_standalone_venv,
}
use serverust_less.Venvs.Rows.{IsSound, Next, same, Next-IsSound, Next-main}
use serverust_less.Venvs.Invariant.{
  create-Next, ensure_main_venv-Next, create_custom_venv-Next, change_venv-Next, record_usage-Next,
  delete_venv-Next, delete-Next, delete_bulk-Next,
}
use serverust_less.Api.Venvs.{
  Disk, CreateVenvRequest, create_venv, delete_job_venv, toggle_job_venv, refuse_name,
  choose_python, created_on, detected, venv_info,
}

create_venv-Next :
    (disk : Disk) (clock : Clock) (id : String) (req : CreateVenvRequest) (s : System)
    → Next s.venvs (create_venv disk clock id req s).1.venvs
unfolding create_venv create_standalone_venv
create_venv-Next disk clock id req s =
    let name = trim req.name in
    let path = disk.named_venv_path name in
    elim (Result-cases (refuse_name disk name)) [
      | inr (e, refused) ↦ rw refused (same refl)
      | inl (_, allowed) ↦ elim (Result-cases (choose_python disk req.python_version)) [
        | inr (e, missing) ↦ rw (allowed, missing) (same refl)
        | inl (executable, chosen) ↦ elim (Result-cases (created_on disk name executable)) [
          | inr (e, failed) ↦ rw (allowed, chosen, failed) (same refl)
          | inl (_, made) ↦
              rw (allowed, chosen, made)
                (create-Next
                  (Venv.mark_ready clock (
                    new_standalone clock id name path
                      (detected (disk.get_python_version path) req.python_version)))
                  s refl (λ j. refl) refl)
        ]
      ]
    ]

delete_job_venv-Next :
    (job_id : String) (s : System)
    → IsSound s.venvs
    → Next s.venvs (delete_job_venv job_id s).1.venvs
unfolding delete_job_venv
delete_job_venv-Next job_id s h = elim (Option-cases (find (job_named job_id) s.jobs)) [
  | inl missing ↦ rw missing (same refl)
  | inr (job, known) ↦ elim (Option-cases (find (venv_for job_id) s.venvs)) [
    | inl no_venv ↦ rw (known, no_venv) (same refl)
    | inr (venv, found) ↦ rw (known, found) (delete_venv-Next venv.id s h)
  ]
]

-- The flag of a job, whatever it was.
update_job-venvs :
    (invalid : String) (clock : Clock) (job_id : String) (chosen : Bool) (s : System)
    → (update_job invalid clock job_id (only_custom_venv chosen) s).1.venvs ≡ s.venvs
unfolding update_job
update_job-venvs invalid clock job_id chosen s = ground arith

toggle_job_venv-venvs :
    (invalid : String) (clock : Clock) (job_id : String) (s : System)
    → (toggle_job_venv invalid clock job_id s).1.venvs ≡ s.venvs
unfolding toggle_job_venv
toggle_job_venv-venvs invalid clock job_id s =
    let Same : System → Type 0 = λ t. t.venvs ≡ s.venvs in
    bind-Keeps Same (JobRepository.get_by_id job_id)
      (λ job.
        update_job invalid clock job_id (only_custom_venv (not job.use_custom_venv)) >>= λ updated.
        venv_info updated job_id)
      (λ t h. h)
      (λ job.
        bind-Keeps Same
          (update_job invalid clock job_id (only_custom_venv (not job.use_custom_venv)))
          (λ updated. venv_info updated job_id)
          (λ t h. update_job-venvs invalid clock job_id (not job.use_custom_venv) t ∙ h)
          (λ updated t h. h))
      s refl

-- What changes the table, with the fresh ids and what the disk tells.
pub data Event : Type 0 where
  ensures_main : Clock → String → Option String → Event
  creates_custom : Clock → String → String → String → Option String → Event
  creates_standalone : Clock → String → String → String → Option String → Event
  readies : Clock → String → Event
  fails : Clock → String → String → Event
  uses_venv : Clock → String → Event
  deletes : String → Event
  job_deletes : String → Event
  jobs_delete : List String → Event
  creates_named : Disk → Clock → String → CreateVenvRequest → Event
  toggles : String → Clock → String → Event
  deletes_of_job : String → Event

unfoldable pub apply : Event → System → System
unfolding ensure_main_venv create_custom_venv create_standalone_venv mark_ready mark_failed
    record_usage delete_venv JobRepository.delete
apply (ensures_main clock path version) s = (ensure_main_venv clock path version s).1
apply (creates_custom clock id job_id path version) s =
    (create_custom_venv clock id job_id path version s).1
apply (creates_standalone clock id name path version) s =
    (create_standalone_venv (Venv.mark_ready clock (new_standalone clock id name path version)) s).1
apply (readies clock id) s = (mark_ready clock id s).1
apply (fails clock id error) s = (mark_failed clock id error s).1
apply (uses_venv clock id) s = (record_usage clock id s).1
apply (deletes id) s = (delete_venv id s).1
apply (job_deletes id) s = (JobRepository.delete id s).1
apply (jobs_delete ids) s = (JobRepository.delete_bulk ids s).1
apply (creates_named disk clock id req) s = (create_venv disk clock id req s).1
apply (toggles invalid clock job_id) s = (toggle_job_venv invalid clock job_id s).1
apply (deletes_of_job job_id) s = (delete_job_venv job_id s).1

apply-Next : (e : Event) (s : System) → IsSound s.venvs → Next s.venvs (apply e s).venvs
unfolding apply create_standalone_venv mark_ready mark_failed
apply-Next (ensures_main clock path version) s h = ensure_main_venv-Next clock path version s
apply-Next (creates_custom clock id job_id path version) s h =
    create_custom_venv-Next clock id job_id path version s
apply-Next (creates_standalone clock id name path version) s h =
    create-Next (Venv.mark_ready clock (new_standalone clock id name path version)) s refl
      (λ j. refl) refl
apply-Next (readies clock id) s h = change_venv-Next (Venv.mark_ready clock) id s
apply-Next (fails clock id error) s h = change_venv-Next (Venv.mark_failed clock error) id s
apply-Next (uses_venv clock id) s h = record_usage-Next clock id s
apply-Next (deletes id) s h = delete_venv-Next id s h
apply-Next (job_deletes id) s h = delete-Next id s h.unowned
apply-Next (jobs_delete ids) s h = delete_bulk-Next ids s h.unowned
apply-Next (creates_named disk clock id req) s h = create_venv-Next disk clock id req s
apply-Next (toggles invalid clock job_id) s h = same (toggle_job_venv-venvs invalid clock job_id s)
apply-Next (deletes_of_job job_id) s h = delete_job_venv-Next job_id s h

pub apply-IsSound : (e : Event) (s : System) → IsSound s.venvs → IsSound (apply e s).venvs
apply-IsSound e s h = Next-IsSound s.venvs (apply e s).venvs (apply-Next e s h) h

-- If there is a main environment in such a table, then there still is one after any of these
-- operations, the deletion of an environment by its id and of jobs included.
pub apply-main :
    (e : Event) (s : System)
    → IsSound s.venvs
    → any is_main s.venvs ≡ true
    → any is_main (apply e s).venvs ≡ true
apply-main e s h there = Next-main s.venvs (apply e s).venvs (apply-Next e s h) there
