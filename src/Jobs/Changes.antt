-- ===== src/Jobs/Changes.antt =====
-- What each change of a job keeps of the ids and names.
use serverust_less.Prelude.{
  ◌≡◌, refl, sym, subst, ap, ◌∙◌, ◌⊎◌, inl, inr, Bool, true, false, not, String, Option, none, some,
  List, [], ◌∷◌, map, any, find, filter, length, ltb, ◌==◌, eq_iff, eq_refl, elem, Nodup, differs,
  map-keeps, arith, Bool-cases, Option-cases,
}
use serverust_less.Model.Clock.{Clock}
use serverust_less.Model.Job.{Job, UpdateJobRequest, apply_update}
use serverust_less.Db.{System}
use serverust_less.Db.JobRepository.{job_named, clashes, write_job, unset_venv}
use serverust_less.Executions.Create.{job-id}
use serverust_less.Jobs.{update_job, delete_job, clone_job, bulk_delete_jobs}
use serverust_less.Jobs.Names.{
  WellNamed, ids, names, Appended-WellNamed, clone_job-Appended, clone_job-missing, write-WellNamed,
  none_clash,
}

unnamed :
    (n id : String) (rows : List Job)
    → elem n (names rows) ≡ false
    → any (clashes n (some id)) rows ≡ false
unnamed n id [] h = refl
unnamed n id (r ∷ rows) h = ground (arith, unnamed n id rows, differs n r.name)

found-name :
    (id : String) (rows : List Job) {old : Job}
    → find (job_named id) rows ≡ some old
    → elem old.name (names rows) ≡ true
found-name id [] found = cc
found-name id (r ∷ rows) {old} found = elim (Bool-cases (r.id == id)) [
  | inl here ↦ ground (arith, found, here, eq_refl r.name)
  | inr later ↦ ground (arith, found, later, found-name id rows {old = old})
]

-- A job keeps its name without a clash.
keep_name :
    (id : String) (rows : List Job) {old : Job}
    → find (job_named id) rows ≡ some old
    → WellNamed rows
    → any (clashes old.name (some id)) rows ≡ false
keep_name id [] found w = refl
keep_name id (r ∷ rows) {old} found w = elim (Bool-cases (r.id == id)) [
  | inl here ↦ ground (arith, found, here, unnamed r.name id rows w.names_nodup.0)
  | inr later ↦
      let there : find (job_named id) rows ≡ some old = ground (arith, found, later) in
      let apart : (r.name == old.name) ≡ false = elim (Bool-cases (r.name == old.name)) [
        | inl same ↦ ground (
          arith,
          w.names_nodup.0,
          ap (λ t. elem t (names rows)) ((eq_iff r.name old.name).0 same),
          found-name id rows there,
        )
        | inr different ↦ different
      ] in
      ground (
        arith,
        apart,
        keep_name id rows there
            (record { ids_nodup = w.ids_nodup.1; names_nodup = w.names_nodup.1 }),
      )
]

filter-keys :
    (key : Job → String) (p : Job → Bool) (k : String) (rows : List Job)
    → elem k (map key rows) ≡ false
    → elem k (map key (filter p rows)) ≡ false
filter-keys key p k [] h = refl
filter-keys key p k (j ∷ rows) h = ground (arith, filter-keys key p k rows)

filter-Nodup :
    (key : Job → String) (p : Job → Bool) (rows : List Job)
    → Nodup (map key rows)
    → Nodup (map key (filter p rows))
filter-Nodup key p [] h = tt
filter-Nodup key p (j ∷ rows) h = elim (Bool-cases (p j)) [
  | inl stays ↦ rw stays (filter-keys key p (key j) rows h.0, filter-Nodup key p rows h.1)
  | inr goes ↦ rw goes (filter-Nodup key p rows h.1)
]

filter-WellNamed : (p : Job → Bool) (rows : List Job) → WellNamed rows → WellNamed (filter p rows)
filter-WellNamed p rows w = record {
  ids_nodup = filter-Nodup (λ j. j.id) p rows w.ids_nodup;
  names_nodup = filter-Nodup (λ j. j.name) p rows w.names_nodup;
}

-- An update leaves the rows as they are, or writes the changed job over its row; then the name is
-- the old one, or no other job has it.
update_job-rows :
    (invalid : String) (clock : Clock) (id : String) (req : UpdateJobRequest) (s : System)
    {old : Job}
    → find (job_named id) s.jobs ≡ some old
    → ((update_job invalid clock id req s).1.jobs ≡ s.jobs)
      ⊎ (((update_job invalid clock id req s).1.jobs
            ≡ map (write_job (apply_update clock req old)) s.jobs)
          × (((apply_update clock req old).name ≡ old.name)
              ⊎ (ltb 0
                    (length (filter (clashes (apply_update clock req old).name (some id)) s.jobs))
                  ≡ false)))
unfolding update_job apply_update
update_job-rows invalid clock id req s {old} found = elim (Option-cases req.name) [
  | inl none_given ↦ ground (arith, found, none_given)
  | inr (name, given) ↦ elim (Bool-cases (name == old.name)) [
    | inl same ↦ ground (arith, found, given, same, (eq_iff name old.name).0 same)
    | inr changed ↦ ground (arith, found, given, changed)
  ]
]

update_job-missing :
    (invalid : String) (clock : Clock) (id : String) (req : UpdateJobRequest) (s : System)
    → find (job_named id) s.jobs ≡ none
    → (update_job invalid clock id req s).1.jobs ≡ s.jobs
unfolding update_job
update_job-missing invalid clock id req s missing = ground (arith, missing)

pub update_job-WellNamed :
    (invalid : String) (clock : Clock) (id : String) (req : UpdateJobRequest) (s : System)
    → WellNamed s.jobs
    → WellNamed (update_job invalid clock id req s).1.jobs
unfolding apply_update
update_job-WellNamed invalid clock id req s w = elim (Option-cases (find (job_named id) s.jobs)) [
  | inl missing ↦ subst WellNamed (sym (update_job-missing invalid clock id req s missing)) w
  | inr (old, found) ↦ elim (update_job-rows invalid clock id req s found) [
    | inl same ↦ subst WellNamed (sym same) w
    | inr (written, name) ↦
        let j = apply_update clock req old in
        let free : any (clashes j.name (some id)) s.jobs ≡ false = elim name [
          | inl kept ↦ ap (λ t. any (clashes t (some id)) s.jobs) kept ∙ keep_name id s.jobs found w
          | inr unused ↦ none_clash (clashes j.name (some id)) s.jobs unused
        ] in
        subst WellNamed (sym written) (
          write-WellNamed j s.jobs
            (ap (λ t. any (clashes j.name (some t)) s.jobs) (job-id id s.jobs found) ∙ free) w)
  ]
]

pub clone_job-WellNamed :
    (clock : Clock) (new_id id : String) (name : Option String) (s : System)
    → WellNamed s.jobs
    → WellNamed (clone_job clock new_id id name s).1.jobs
clone_job-WellNamed clock new_id id name s w = elim (Option-cases (find (job_named id) s.jobs)) [
  | inl missing ↦ subst WellNamed (sym (clone_job-missing clock new_id id name s missing)) w
  | inr (source, found) ↦
      Appended-WellNamed _ s.jobs _ (clone_job-Appended clock new_id id name s found) w
]

-- A deletion filters the jobs, and may clear references of the others to environments.
unset_venv-WellNamed :
    (gone : String → Bool) (rows : List Job)
    → WellNamed rows
    → WellNamed (map (unset_venv gone) rows)
unset_venv-WellNamed gone rows w = record {
  ids_nodup =
      subst Nodup (sym (map-keeps (λ j. j.id) (unset_venv gone) (λ j. refl) rows)) w.ids_nodup;
  names_nodup =
      subst Nodup (sym (map-keeps (λ j. j.name) (unset_venv gone) (λ j. refl) rows)) w.names_nodup;
}

pub delete_job-WellNamed :
    (id : String) (s : System) → WellNamed s.jobs → WellNamed (delete_job id s).1.jobs
unfolding delete_job
delete_job-WellNamed id s w = elim (Bool-cases (any (job_named id) s.jobs)) [
  | inl there ↦
      rw there (unset_venv-WellNamed _ _ (filter-WellNamed (λ j. not (j.id == id)) s.jobs w))
  | inr missing ↦ rw missing w
]

pub bulk_delete_jobs-WellNamed :
    (ids : List String) (s : System) → WellNamed s.jobs → WellNamed (bulk_delete_jobs ids s).1.jobs
unfolding bulk_delete_jobs
bulk_delete_jobs-WellNamed [] s w = w
bulk_delete_jobs-WellNamed (i ∷ ids) s w = unset_venv-WellNamed _ _ (filter-WellNamed _ s.jobs w)
