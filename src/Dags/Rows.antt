-- ===== src/Dags/Rows.antt =====
-- The table of DAGs under the statements of db/dags.rs.
use serverust_less.Prelude.{
  ◌≡◌, sym, subst, ap, ◌∙◌, inl, inr, Bool, true, false, not, ◌&&◌, ◌||◌, String, pos, leb_ℤ, List,
  [], ◌∷◌, ◌++◌, map, any, filter, ◌==◌, eq_iff, All, All-append, All-map, All-filter, AtMostOne,
  AtMostOne-filter, AtMostOne-map, AtMostOne-snoc, AtMostOne-rewritten, arith, Bool-cases,
}
use serverust_less.Model.Text.{is_blank}
use serverust_less.Model.Dag.{Dag}
use serverust_less.Db.DagTable.{dag_named, titled, write_dag, name_clash}
use serverust_less.Dags.Requests.{is_on_failure}

-- The name is not blank, at least one node may run at a time, and the mode is one of the three.
pub record IsDag (d : Dag) : Type 0 where
  pub name : is_blank d.name ≡ false
  pub max_concurrent_nodes : leb_ℤ (pos 1) d.max_concurrent_nodes ≡ true
  pub on_failure : is_on_failure d.on_failure ≡ true

-- Every DAG is well-formed, and no two share an id or a name.
pub record IsSound (rows : List Dag) : Type 0 where
  pub dags : All IsDag rows
  pub ids : (id : String) → AtMostOne (dag_named id) rows
  pub names : (name : String) → AtMostOne (titled name) rows

-- What a request does to the rows.
pub data Next (rows rows' : List Dag) : Type 0 where
  same : rows' ≡ rows → Next rows rows'
  added :
      (d : Dag)
      → IsDag d
      → (any (dag_named d.id) rows || any (titled d.name) rows) ≡ false
      → rows' ≡ rows ++ d ∷ []
      → Next rows rows'
  written :
      (d : Dag)
      → IsDag d
      → any (name_clash d) rows ≡ false
      → rows' ≡ map (write_dag d) rows
      → Next rows rows'
  removed : (p : Dag → Bool) → rows' ≡ filter p rows → Next rows rows'

-- A test by a text of the row, of a new row that shares it with none.
fresh :
    (key : Dag → String) (d : Dag) (rows : List Dag)
    → any (λ r. key r == key d) rows ≡ false
    → (k : String) → ((key d == k) && any (λ r. key r == k) rows) ≡ false
fresh key d rows unused k = elim (Bool-cases (key d == k)) [
  | inl here ↦
      ground (arith, here, ap (λ t. any (λ r. key r == t) rows) ((eq_iff (key d) k).0 here), unused)
  | inr other ↦ ground (arith, other)
]

renamed_only :
    (d : Dag) (n : String) (rows : List Dag)
    → any (λ r. r.name == n && not (r.id == d.id)) rows ≡ false
    → All (λ r. (not (titled n (write_dag d r)) || dag_named d.id r) ≡ true) rows
renamed_only d n [] unclashed = tt
renamed_only d n (r ∷ rows) unclashed =
    (ground (arith, unclashed), renamed_only d n rows (ground (arith, unclashed)))

named_before :
    (d : Dag) (n : String)
    → (d.name == n) ≡ false
    → (rows : List Dag) → All (λ r. (not (titled n (write_dag d r)) || titled n r) ≡ true) rows
named_before d n other [] = tt
named_before d n other (r ∷ rows) = (ground (arith, other), named_before d n other rows)

-- The names after a change: only the changed row has the new one.
written-names :
    (d : Dag) (rows : List Dag)
    → any (name_clash d) rows ≡ false
    → IsSound rows
    → (n : String) → AtMostOne (titled n) (map (write_dag d) rows)
written-names d rows unclashed h n = elim (Bool-cases (d.name == n)) [
  | inl here ↦
      AtMostOne-rewritten (dag_named d.id) (titled n) (write_dag d) rows
        (renamed_only d n rows (
          ap (λ t. any (λ r. r.name == t && not (r.id == d.id)) rows)
            (sym ((eq_iff d.name n).0 here))
          ∙ unclashed))
        (h.ids d.id)
  | inr other ↦
      AtMostOne-rewritten (titled n) (titled n) (write_dag d) rows (named_before d n other rows)
        (h.names n)
]

written-IsDag : (d row : Dag) → IsDag d → IsDag row → IsDag (write_dag d row)
written-IsDag d row h k = elim (Bool-cases (row.id == d.id)) [
  | inl here ↦ rw here (record {
    name = h.name;
    max_concurrent_nodes = h.max_concurrent_nodes;
    on_failure = h.on_failure;
  })
  | inr other ↦ rw other k
]

pub Next-IsSound : (rows rows' : List Dag) → Next rows rows' → IsSound rows → IsSound rows'
Next-IsSound rows rows' (same e) h = subst IsSound (sym e) h
Next-IsSound rows rows' (added d ok_dag unused e) h = subst IsSound (sym e) (record {
  dags = All-append IsDag rows (d ∷ []) h.dags (ok_dag, tt);
  ids = λ id.
      AtMostOne-snoc (dag_named id) rows d (h.ids id)
        (fresh (λ r. r.id) d rows (ground (arith, unused)) id);
  names = λ n.
      AtMostOne-snoc (titled n) rows d (h.names n)
        (fresh (λ r. r.name) d rows (ground (arith, unused)) n);
})
Next-IsSound rows rows' (written d ok_dag unclashed e) h = subst IsSound (sym e) (record {
  dags = All-map IsDag IsDag (write_dag d) (λ r. written-IsDag d r ok_dag) rows h.dags;
  ids = λ id. AtMostOne-map (dag_named id) (write_dag d) (λ r. ground arith) rows (h.ids id);
  names = written-names d rows unclashed h;
})
Next-IsSound rows rows' (removed p e) h = subst IsSound (sym e) (record {
  dags = All-filter IsDag p rows h.dags;
  ids = λ id. AtMostOne-filter (dag_named id) p rows (h.ids id);
  names = λ n. AtMostOne-filter (titled n) p rows (h.names n);
})
