-- ===== src/Jobs/Names.antt =====
-- The names of jobs stay different, and so do their ids, whatever the service is asked to do.
use serverust_less.Prelude.{
  ◌≡◌, refl, sym, subst, ap, ◌⊎◌, inl, inr, Bool, true, false, ◌||◌, String, Option, none, some,
  List, [], ◌∷◌, ◌++◌, map, any, find, filter, length, ltb, ◌==◌, eq_iff, elem, Nodup, Nodup-snoc,
  differs, arith, Bool-cases,
}
use serverust_less.Model.Clock.{Clock}
use serverust_less.Model.Job.{Job, CreateJobRequest, UpdateJobRequest, apply_update}
use serverust_less.Model.Job
use serverust_less.Db.{System}
use serverust_less.Db.JobRepository
use serverust_less.Db.JobRepository.{job_named, clashes, write_job}
use serverust_less.Jobs.{create_job, clone_job, clone_request, clone_name}

abbrev pub ids : List Job → List String
ids rows = map (λ j. j.id) rows

abbrev pub names : List Job → List String
names rows = map (λ j. j.name) rows

pub record WellNamed (rows : List Job) : Type 0 where
  pub ids_nodup : Nodup (ids rows)
  pub names_nodup : Nodup (names rows)

elem-keys :
    (key : Job → String) (k : String) (rows : List Job)
    → any (λ j. key j == k) rows ≡ false
    → elem k (map key rows) ≡ false
elem-keys key k [] h = refl
elem-keys key k (j ∷ rows) h = ground (arith, elem-keys key k rows, differs (key j) k)

pub none_clash :
    (p : Job → Bool) (rows : List Job) → ltb 0 (length (filter p rows)) ≡ false → any p rows ≡ false
none_clash p [] h = refl
none_clash p (j ∷ rows) h = ground (arith, none_clash p rows)

map-append :
    (key : Job → String) (rows : List Job) (j : Job)
    → map key (rows ++ j ∷ []) ≡ map key rows ++ key j ∷ []
map-append key [] j = refl
map-append key (r ∷ rows) j = ap (λ t. key r ∷ t) (map-append key rows j)

-- A new row whose id and name are not used.
append-WellNamed :
    (rows : List Job) (j : Job)
    → any (job_named j.id) rows ≡ false
    → ltb 0 (length (filter (clashes j.name none) rows)) ≡ false
    → WellNamed rows
    → WellNamed (rows ++ j ∷ [])
append-WellNamed rows j new_id new_name w = record {
  ids_nodup =
      subst Nodup (sym (map-append (λ x. x.id) rows j))
        (Nodup-snoc (ids rows) j.id w.ids_nodup (elem-keys (λ x. x.id) j.id rows new_id));
  names_nodup = subst Nodup (sym (map-append (λ x. x.name) rows j)) (
      Nodup-snoc (names rows) j.name w.names_nodup
        (elem-keys (λ x. x.name) j.name rows (none_clash (clashes j.name none) rows new_name)));
}

abbrev pub Appended : Job → List Job → List Job → Type 0
Appended j rows after =
    (after ≡ rows)
    ⊎ ((after ≡ rows ++ j ∷ [])
        × ((any (job_named j.id) rows ≡ false)
            × (ltb 0 (length (filter (clashes j.name none) rows)) ≡ false)))

pub Appended-WellNamed :
    (j : Job) (rows after : List Job) → Appended j rows after → WellNamed rows → WellNamed after
Appended-WellNamed j rows after (inl same) w = subst WellNamed (sym same) w
Appended-WellNamed j rows after (inr (more, (new_id, new_name))) w =
    subst WellNamed (sym more) (append-WellNamed rows j new_id new_name w)

pub create_job-Appended :
    (invalid : String) (clock : Clock) (id : String) (req : CreateJobRequest) (s : System)
    → Appended (Job.new clock id req) s.jobs (create_job invalid clock id req s).1.jobs
unfolding create_job JobRepository.create
create_job-Appended invalid clock id req s = ground arith

pub clone_job-Appended :
    (clock : Clock) (new_id id : String) (name : Option String) (s : System) {source : Job}
    → find (job_named id) s.jobs ≡ some source
    → Appended
        (Job.new clock new_id (clone_request (clone_name name source) source))
        s.jobs
        (clone_job clock new_id id name s).1.jobs
unfolding clone_job JobRepository.create
clone_job-Appended clock new_id id name s found = ground (arith, found)

pub clone_job-missing :
    (clock : Clock) (new_id id : String) (name : Option String) (s : System)
    → find (job_named id) s.jobs ≡ none
    → (clone_job clock new_id id name s).1.jobs ≡ s.jobs
unfolding clone_job
clone_job-missing clock new_id id name s missing = ground (arith, missing)

-- The update statement, row by row.
write-same :
    (j r : Job)
    → (r.id == j.id) ≡ true
    → write_job j r ≡ record j { id = r.id; created_at = r.created_at }
write-same j r same = ground arith

write-other : (j r : Job) → (r.id == j.id) ≡ false → write_job j r ≡ r
write-other j r other = ground arith

ids-write : (j : Job) (rows : List Job) → ids (map (write_job j) rows) ≡ ids rows
ids-write j [] = refl
ids-write j (r ∷ rows) = elim (Bool-cases (r.id == j.id)) [
  | inl same ↦ ground (arith, ids-write j rows, write-same j r same)
  | inr other ↦ ground (arith, ids-write j rows, write-other j r other)
]

write-absent :
    (j : Job) (rows : List Job) → elem j.id (ids rows) ≡ false → map (write_job j) rows ≡ rows
write-absent j [] h = refl
write-absent j (r ∷ rows) h =
    ground (arith, write-absent j rows, write-other j r (differs j.id r.id (ground (arith, h))))

elem-write :
    (n : String) (j : Job) (rows : List Job)
    → elem n (names (map (write_job j) rows)) ≡ true
    → (n == j.name || elem n (names rows)) ≡ true
elem-write n j [] h = ground (arith, h)
elem-write n j (r ∷ rows) h = elim (Bool-cases (r.id == j.id)) [
  | inl same ↦ ground (arith, h, ap (λ x. n == x.name) (write-same j r same), elem-write n j rows)
  | inr other ↦
      ground (arith, h, ap (λ x. n == x.name) (write-other j r other), elem-write n j rows)
]

unclashed :
    (j : Job) (rows : List Job)
    → any (clashes j.name (some j.id)) rows ≡ false
    → elem j.id (ids rows) ≡ false
    → elem j.name (names rows) ≡ false
unclashed j [] h absent = refl
unclashed j (r ∷ rows) h absent =
    ground (arith, h, absent, unclashed j rows, differs j.id r.id, differs r.name j.name)

names-write :
    (j : Job) (rows : List Job)
    → WellNamed rows
    → any (clashes j.name (some j.id)) rows ≡ false
    → Nodup (names (map (write_job j) rows))
names-write j [] w h = tt
names-write j (r ∷ rows) w h = elim (Bool-cases (r.id == j.id)) [
  | inl same ↦
      let absent : elem j.id (ids rows) ≡ false =
        ground (arith, w.ids_nodup, ap (λ t. elem t (ids rows)) ((eq_iff r.id j.id).0 same)) in
      (
        ground (
          arith,
          ap (λ x. elem x.name (names (map (write_job j) rows))) (write-same j r same),
          ap (λ t. elem j.name (names t)) (write-absent j rows absent),
          unclashed j rows (ground (arith, h)) absent,
        ),
        subst (λ t. Nodup (names t)) (sym (write-absent j rows absent)) w.names_nodup.1,
      )
  | inr other ↦ (
    ground (
      arith,
      ap (λ x. elem x.name (names (map (write_job j) rows))) (write-other j r other),
      elem-write r.name j rows,
      h,
      other,
      w.names_nodup.0,
    ),
    names-write j rows (record { ids_nodup = w.ids_nodup.1; names_nodup = w.names_nodup.1 })
        (ground (arith, h)),
  )
]

pub write-WellNamed :
    (j : Job) (rows : List Job)
    → any (clashes j.name (some j.id)) rows ≡ false
    → WellNamed rows
    → WellNamed (map (write_job j) rows)
write-WellNamed j rows h w = record {
  ids_nodup = subst Nodup (sym (ids-write j rows)) w.ids_nodup;
  names_nodup = names-write j rows w h;
}
