-- ===== src/Venvs/Invariant.antt =====
-- What the environment service and the deletion of jobs do to the table of environments.
use serverust_less.Prelude.{
  ◌≡◌, refl, sym, subst, ap, true, false, not, ◌&&◌, ◌||◌, String, Option, List, any, find, All,
  All-weaken, AtMostOne-apart, find-missing, ◌==◌, eq_iff, arith, Bool-cases, Option-cases, inl,
  inr, Bool, ◌∷◌, filter, [],
}
use serverust_less.Action.Keeps.{pure-state}
use serverust_less.Model.Clock.{Clock}
use serverust_less.Model.Venv.{Venv, new_main, new_custom, new_standalone}
use serverust_less.Model.Venv
use serverust_less.Db.{System}
use serverust_less.Db.JobRepository
use serverust_less.Db.JobRepository.{job_named, belongs}
use serverust_less.Db.ExecutionRepository.{contains_id}
use serverust_less.Db.VenvRepository.{job_known, venv_named, is_main, venv_for, write_venv}
use serverust_less.Db.VenvRepository
use serverust_less.Venvs.{
  ensure_main_venv, create_custom_venv, record_usage, delete_venv, change_venv,
}
use serverust_less.Venvs.Rows.{IsSound, Unowned, Next, same, written, added, removed}

-- The id of a new row is unused.
fresh_id :
    (v : Venv) (rows : List Venv)
    → any (venv_named v.id) rows ≡ false
    → (id : String) → (venv_named id v && any (venv_named id) rows) ≡ false
fresh_id v rows unused id = elim (Bool-cases (v.id == id)) [
  | inl here ↦
      ground (arith, here, ap (λ t. any (venv_named t) rows) ((eq_iff v.id id).0 here), unused)
  | inr other ↦ ground (arith, other)
]

-- `create` puts a row last, or leaves the rows.
pub create-Next :
    (v : Venv) (s : System)
    → (is_main v && any is_main s.venvs) ≡ false
    → ((j : String) → (venv_for j v && any (venv_for j) s.venvs) ≡ false)
    → Unowned v
    → Next s.venvs (VenvRepository.create v s).1.venvs
unfolding VenvRepository.create
create-Next v s main jobs unowned = elim (Bool-cases (any (venv_named v.id) s.venvs)) [
  | inl taken ↦ same (ground (arith, taken))
  | inr unused ↦ elim (Bool-cases (job_known v.job_id s)) [
    | inl known ↦
        added v (fresh_id v s.venvs unused) main jobs unowned (ground (arith, unused, known))
    | inr unknown ↦ same (ground (arith, unused, unknown))
  ]
]

pub ensure_main_venv-Next :
    (clock : Clock) (path : String) (python_version : Option String) (s : System)
    → Next s.venvs (ensure_main_venv clock path python_version s).1.venvs
unfolding ensure_main_venv VenvRepository.get_main
ensure_main_venv-Next clock path python_version s = elim (Option-cases (find is_main s.venvs)) [
  | inl missing ↦ rw missing (
      create-Next (Venv.mark_ready clock (new_main clock path python_version)) s
        (find-missing is_main s.venvs missing) (λ j. refl) refl)
  | inr (v, there) ↦ same (ground (arith, there))
]

fresh_job :
    (job_id : String) (rows : List Venv)
    → any (venv_for job_id) rows ≡ false
    → (j : String) → (job_id == j && any (venv_for j) rows) ≡ false
fresh_job job_id rows unused j = elim (Bool-cases (job_id == j)) [
  | inl here ↦
      ground (arith, here, ap (λ t. any (venv_for t) rows) ((eq_iff job_id j).0 here), unused)
  | inr other ↦ ground (arith, other)
]

pub create_custom_venv-Next :
    (clock : Clock) (id job_id path : String) (python_version : Option String) (s : System)
    → Next s.venvs (create_custom_venv clock id job_id path python_version s).1.venvs
unfolding create_custom_venv VenvRepository.get_by_job
create_custom_venv-Next clock id job_id path python_version s =
    elim (Option-cases (find (venv_for job_id) s.venvs)) [
      | inl missing ↦ rw missing (
          create-Next (new_custom clock id job_id path python_version) s refl
            (fresh_job job_id s.venvs (find-missing (venv_for job_id) s.venvs missing)) refl)
      | inr (v, there) ↦ same (ground (arith, there))
    ]

pub change_venv-Next :
    (f : Venv → Venv) (id : String) (s : System) → Next s.venvs (change_venv f id s).1.venvs
unfolding change_venv VenvRepository.get_by_id VenvRepository.update
change_venv-Next f id s = elim (Option-cases (find (venv_named id) s.venvs)) [
  | inl missing ↦ same (ground (arith, missing))
  | inr (v, there) ↦ elim (Bool-cases (any (venv_named (f v).id) s.venvs)) [
    | inl listed ↦ written (f v) (ground (arith, there, listed))
    | inr unlisted ↦ same (ground (arith, there, unlisted))
  ]
]

pub record_usage-Next :
    (clock : Clock) (id : String) (s : System) → Next s.venvs (record_usage clock id s).1.venvs
unfolding record_usage
record_usage-Next clock id s =
    subst (λ t. Next s.venvs t.venvs)
      (sym (pure-state (change_venv (Venv.record_usage clock) id) s))
      (change_venv-Next (Venv.record_usage clock) id s)

-- The environment deleted is not the main one, and no other has its id.
pub delete_venv-Next :
    (id : String) (s : System) → IsSound s.venvs → Next s.venvs (delete_venv id s).1.venvs
unfolding delete_venv VenvRepository.get_by_id VenvRepository.delete
delete_venv-Next id s h = elim (Option-cases (find (venv_named id) s.venvs)) [
  | inl missing ↦ same (ground (arith, missing))
  | inr (v, found) ↦ elim (Bool-cases (is_main v)) [
    | inl main ↦ same (ground (arith, found, main))
    | inr custom ↦ elim (Bool-cases (any (venv_named id) s.venvs)) [
      | inl listed ↦
          removed (λ w. not (w.id == id))
            (AtMostOne-apart (venv_named id) is_main s.venvs (h.ids id) found custom)
            (ground (arith, found, custom, listed))
      | inr unlisted ↦ same (ground (arith, found, custom, unlisted))
    ]
  ]
]

-- The environments of jobs that go are removed, and a main one is no job's.
removes_owned :
    (gone : String → Bool) (rows : List Venv)
    → All Unowned rows
    → Next rows (filter (λ v. not (belongs gone v.job_id)) rows)
removes_owned gone rows unowned =
    removed (λ v. not (belongs gone v.job_id))
      (All-weaken Unowned (λ v. (not (is_main v) || not (belongs gone v.job_id)) ≡ true)
        (λ v u. ground (arith, u)) rows unowned)
      refl

pub delete-Next :
    (id : String) (s : System)
    → All Unowned s.venvs
    → Next s.venvs (JobRepository.delete id s).1.venvs
unfolding JobRepository.delete
delete-Next id s unowned = elim (Bool-cases (any (job_named id) s.jobs)) [
  | inl there ↦ rw there (removes_owned (λ j. j == id) s.venvs unowned)
  | inr gone ↦ same (ground (arith, gone))
]

pub delete_bulk-Next :
    (ids : List String) (s : System)
    → All Unowned s.venvs
    → Next s.venvs (JobRepository.delete_bulk ids s).1.venvs
unfolding JobRepository.delete_bulk
delete_bulk-Next [] s unowned = same refl
delete_bulk-Next (id ∷ ids) s unowned = removes_owned (contains_id (id ∷ ids)) s.venvs unowned
