-- ===== src/Samples/Venvs.antt =====
-- The theorems on environments, at the main one and one of the job.
use serverust_less.Prelude.{String, Bool, ◌≡◌, refl, none, some, true, any, inr, ◌==◌}
use serverust_less.Model.Text.{trim_start, trim_end}
use serverust_less.Db.{System}
use serverust_less.Db.VenvRepository.{is_main}
use serverust_less.Venvs.Rows.{IsSound}
use serverust_less.Api.Venvs.Invariant.{
  ensures_main, creates_custom, deletes, apply, apply-IsSound, apply-main,
}
use serverust_less.Venvs.Python.{resolve_python_for_version, resolve_python_for_version-Specific}
use serverust_less.Samples.{noon, waiting}

waiting-IsSound : IsSound waiting.venvs
waiting-IsSound = record { ids = λ id. tt; mains = tt; jobs = λ job_id. tt; unowned = tt }

-- The main environment, and one of the job.
abbrev equipped : System
equipped =
    apply (creates_custom noon "v1" "j1" "venvs/job-j1" none)
      (apply (ensures_main noon "venvs/main" none) waiting)

equipped-IsSound : IsSound equipped.venvs
equipped-IsSound =
    apply-IsSound (creates_custom noon "v1" "j1" "venvs/job-j1" none)
      (apply (ensures_main noon "venvs/main" none) waiting)
      (apply-IsSound (ensures_main noon "venvs/main" none) waiting waiting-IsSound)

apply-main_example : any is_main (apply (deletes "main-venv") equipped).venvs ≡ true
unfolding apply
apply-main_example = apply-main (deletes "main-venv") equipped equipped-IsSound refl

-- Only this executable answers.
abbrev runs : String → Bool
runs executable = executable == "python3.12"

resolve_python_for_version-Specific_example :
    resolve_python_for_version runs "3.12.4" ≡ some "python3.12"
unfolding trim_start trim_end
resolve_python_for_version-Specific_example =
    resolve_python_for_version-Specific runs "3" "12" ".4" (refl, tt) (refl, (refl, tt))
      (inr ("4", refl)) refl
