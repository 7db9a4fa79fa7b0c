-- ===== src/Venvs/Rows.antt =====
-- The table of environments under the statements of db/venvs.rs.
use serverust_less.Prelude.{
  ◌≡◌, sym, subst, ap, ◌∙◌, Bool, true, false, not, ◌&&◌, ◌||◌, String, none, some, List, [], ◌∷◌,
  ◌++◌, map, any, filter, All, All-append, All-map, All-filter, AtMostOne, AtMostOne-filter,
  AtMostOne-map, AtMostOne-snoc, any-append, any-map, any-filter_kept, arith,
}
use serverust_less.Model.Venv.{Venv}
use serverust_less.Db.VenvRepository.{venv_named, is_main, venv_for, write_venv}

abbrev pub has_job : Venv → Bool
has_job v = elim v.job_id [ none ↦ false | some j ↦ true ]

-- A main environment belongs to no job.
abbrev pub Unowned : Venv → Type 0
Unowned v = (not (is_main v) || not (has_job v)) ≡ true

-- Ids are unique, at most one environment is the main one, and no job has two.
pub record IsSound (rows : List Venv) : Type 0 where
  pub ids : (id : String) → AtMostOne (venv_named id) rows
  pub mains : AtMostOne is_main rows
  pub jobs : (job_id : String) → AtMostOne (venv_for job_id) rows
  pub unowned : All Unowned rows

-- What one operation does to the rows.
pub data Next (rows rows' : List Venv) : Type 0 where
  same : rows' ≡ rows → Next rows rows'
  written : (x : Venv) → rows' ≡ map (write_venv x) rows → Next rows rows'
  added :
      (v : Venv)
      → ((id : String) → (venv_named id v && any (venv_named id) rows) ≡ false)
      → (is_main v && any is_main rows) ≡ false
      → ((j : String) → (venv_for j v && any (venv_for j) rows) ≡ false)
      → Unowned v
      → rows' ≡ rows ++ v ∷ []
      → Next rows rows'
  removed :
      (p : Venv → Bool)
      → All (λ v. (not (is_main v) || p v) ≡ true) rows
      → rows' ≡ filter p rows
      → Next rows rows'

write_venv-IsSound :
    (x : Venv) (rows : List Venv) → IsSound rows → IsSound (map (write_venv x) rows)
write_venv-IsSound x rows h = record {
  ids = λ id. AtMostOne-map (venv_named id) (write_venv x) (λ v. ground arith) rows (h.ids id);
  mains = AtMostOne-map is_main (write_venv x) (λ v. ground arith) rows h.mains;
  jobs = λ j. AtMostOne-map (venv_for j) (write_venv x) (λ v. ground arith) rows (h.jobs j);
  unowned = All-map Unowned Unowned (write_venv x) (λ v u. ground arith) rows h.unowned;
}

filter-IsSound : (p : Venv → Bool) (rows : List Venv) → IsSound rows → IsSound (filter p rows)
filter-IsSound p rows h = record {
  ids = λ id. AtMostOne-filter (venv_named id) p rows (h.ids id);
  mains = AtMostOne-filter is_main p rows h.mains;
  jobs = λ j. AtMostOne-filter (venv_for j) p rows (h.jobs j);
  unowned = All-filter Unowned p rows h.unowned;
}

pub Next-IsSound : (rows rows' : List Venv) → Next rows rows' → IsSound rows → IsSound rows'
Next-IsSound rows rows' (same e) h = subst IsSound (sym e) h
Next-IsSound rows rows' (written x e) h = subst IsSound (sym e) (write_venv-IsSound x rows h)
Next-IsSound rows rows' (added v ids main jobs unowned e) h = subst IsSound (sym e) (record {
  ids = λ id. AtMostOne-snoc (venv_named id) rows v (h.ids id) (ids id);
  mains = AtMostOne-snoc is_main rows v h.mains main;
  jobs = λ j. AtMostOne-snoc (venv_for j) rows v (h.jobs j) (jobs j);
  unowned = All-append Unowned rows (v ∷ []) h.unowned (unowned, tt);
})
Next-IsSound rows rows' (removed p keeps e) h = subst IsSound (sym e) (filter-IsSound p rows h)

-- The main environment stays.
pub Next-main :
    (rows rows' : List Venv) → Next rows rows' → any is_main rows ≡ true → any is_main rows' ≡ true
Next-main rows rows' (same e) there = ap (any is_main) e ∙ there
Next-main rows rows' (written x e) there =
    ap (any is_main) e ∙ any-map is_main (write_venv x) (λ v. ground arith) rows ∙ there
Next-main rows rows' (added v ids main jobs unowned e) there =
    ap (any is_main) e ∙ ground (arith, any-append is_main rows (v ∷ []), there)
Next-main rows rows' (removed p keeps e) there =
    ap (any is_main) e ∙ any-filter_kept is_main p rows keeps ∙ there
