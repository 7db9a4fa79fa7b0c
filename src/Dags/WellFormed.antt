-- ===== src/Dags/WellFormed.antt =====
-- What requests to the DAG service keep of the table of DAGs.
use serverust_less.Prelude.{
  ◌≡◌, refl, sym, subst, ◌∙◌, inl, inr, true, not, ◌||◌, String, Option, none, some, ℤ, pos, leb_ℤ,
  max_ℤ, any, find, ◌==◌, eq_iff, find-All, find-eq-some, any_of_find, arith, Bool-cases,
  Option-cases,
}
use serverust_less.Action.{Result, ok, err, Result-cases}
use serverust_less.Model.Clock.{Clock}
use serverust_less.Model.Text.{trim}
use serverust_less.Model.Trimmed.{is_blank-trim}
use serverust_less.Model.Dag.{Dag, new_dag}
use serverust_less.Db.{System}
use serverust_less.Db.DagTable
use serverust_less.Db.DagTable.{dag_named, titled, write_dag, name_clash}
use serverust_less.Dags.Requests.{
  CreateDagRequest, UpdateDagRequest, create_dag, update_dag, delete_dag, is_on_failure, rename,
  settle_failures, apply_settings,
}
use serverust_less.Dags.Rows.{IsDag, IsSound, Next, same, added, written, removed, Next-IsSound}

max_ℤ-one : (n : ℤ) → leb_ℤ (pos 1) (max_ℤ n (pos 1)) ≡ true
max_ℤ-one n = ground arith

create_dag-Next :
    (clock : Clock) (id : String) (req : CreateDagRequest) (s : System)
    → Next s.dags (create_dag clock id req s).1.dags
unfolding create_dag
create_dag-Next clock id req s = elim (Bool-cases (trim req.name == "")) [
  | inl empty ↦ same (ground (arith, empty))
  | inr named ↦ elim (Bool-cases (is_on_failure req.on_failure)) [
    | inr bad ↦ same (ground (arith, named, bad))
    | inl mode ↦
        let d =
          new_dag clock id (trim req.name) req.description (max_ℤ req.max_concurrent_nodes (pos 1))
            req.on_failure in
        elim (Bool-cases (any (dag_named id) s.dags || any (titled (trim req.name)) s.dags)) [
          | inl taken ↦ same (ground (arith, named, mode, taken))
          | inr unused ↦
              added d
                (record {
                  name = is_blank-trim req.name named;
                  max_concurrent_nodes = max_ℤ-one req.max_concurrent_nodes;
                  on_failure = mode;
                })
                unused (ground (arith, named, mode, unused))
        ]
  ]
]

-- The result, where there is one, is a well-formed version of the DAG.
abbrev Version : Dag → Result Dag → Type 0
Version d (ok d') = IsDag d' × (d'.id ≡ d.id)
Version d (err e) = Unit

rename-Version : (name : Option String) (d : Dag) → IsDag d → Version d (rename name d)
rename-Version none d h = (h, refl)
rename-Version (some name) d h = elim (Bool-cases (trim name == "")) [
  | inl empty ↦ rw empty tt
  | inr named ↦ rw named (
    record {
      name = is_blank-trim name named;
      max_concurrent_nodes = h.max_concurrent_nodes;
      on_failure = h.on_failure;
    },
    refl,
  )
]

settle_failures-Version :
    (mode : Option String) (d : Dag) → IsDag d → Version d (settle_failures mode d)
settle_failures-Version none d h = (h, refl)
settle_failures-Version (some mode) d h = elim (Bool-cases (is_on_failure mode)) [
  | inl known ↦ rw known (
    record { name = h.name; max_concurrent_nodes = h.max_concurrent_nodes; on_failure = known },
    refl,
  )
  | inr unknown ↦ rw unknown tt
]

apply_settings-IsDag : (req : UpdateDagRequest) (d : Dag) → IsDag d → IsDag (apply_settings req d)
apply_settings-IsDag req d h = record {
  name = h.name;
  max_concurrent_nodes = elim (Option-cases req.max_concurrent_nodes) [
    | inl kept ↦ rw kept h.max_concurrent_nodes
    | inr (n, changed) ↦ rw changed (max_ℤ-one n)
  ];
  on_failure = h.on_failure;
}

-- The row is there, and the statement writes it or is refused.
update-Next :
    (d : Dag) (s : System)
    → IsDag d
    → any (dag_named d.id) s.dags ≡ true
    → Next s.dags (DagTable.update d s).1.dags
unfolding DagTable.update
update-Next d s h there = elim (Bool-cases (any (name_clash d) s.dags)) [
  | inl clash ↦ same (ground (arith, there, clash))
  | inr unclashed ↦ written d h unclashed (ground (arith, there, unclashed))
]

update_dag-Next :
    (clock : Clock) (id : String) (req : UpdateDagRequest) (s : System)
    → IsSound s.dags
    → Next s.dags (update_dag clock id req s).1.dags
unfolding update_dag
update_dag-Next clock id req s h = elim (Option-cases (find (dag_named id) s.dags)) [
  | inl missing ↦ same (ground (arith, missing))
  | inr (d, found) ↦ elim (Result-cases (rename req.name d)) [
    | inr (e, refused) ↦ same (ground (arith, found, refused))
    | inl (renamed, named) ↦
        elim (Result-cases (settle_failures req.on_failure (apply_settings req renamed))) [
          | inr (e, refused) ↦ same (ground (arith, found, named, refused))
          | inl (settled, known) ↦
              let one =
                subst (Version d) named
                  (rename-Version req.name d (find-All IsDag (dag_named id) s.dags h.dags found)) in
              let two = subst (Version (apply_settings req renamed)) known (
                settle_failures-Version req.on_failure (apply_settings req renamed)
                  (apply_settings-IsDag req renamed one.0)) in
              let written_id = two.1 ∙ one.1 in
              let there =
                subst (λ t. any (dag_named t) s.dags ≡ true)
                  (sym (written_id ∙ (eq_iff d.id id).0 (find-eq-some (dag_named id) s.dags found)))
                  (any_of_find (dag_named id) s.dags found) in
              rw (found, named, known)
                (update-Next (record settled { updated_at = clock.rfc3339 }) s
                  (record {
                    name = two.0.name;
                    max_concurrent_nodes = two.0.max_concurrent_nodes;
                    on_failure = two.0.on_failure;
                  })
                  there)
        ]
  ]
]

delete_dag-Next : (id : String) (s : System) → Next s.dags (delete_dag id s).1.dags
unfolding delete_dag DagTable.delete
delete_dag-Next id s = elim (Bool-cases (any (dag_named id) s.dags)) [
  | inl there ↦ removed (λ d. not (d.id == id)) (ground (arith, there))
  | inr gone ↦ same (ground (arith, gone))
]

pub data Request : Type 0 where
  creates : Clock → String → CreateDagRequest → Request
  updates : Clock → String → UpdateDagRequest → Request
  deletes : String → Request

unfoldable pub serve : Request → System → System
unfolding create_dag update_dag delete_dag
serve (creates clock id req) s = (create_dag clock id req s).1
serve (updates clock id req) s = (update_dag clock id req s).1
serve (deletes id) s = (delete_dag id s).1

-- Any request to create, change or delete a DAG, whether it succeeds or fails, keeps the table sound:
-- every DAG has a name that is not blank, lets at least one node run at a time and has one of the
-- three modes on a failure, and no two DAGs share an id or a name.
pub serve-IsSound : (r : Request) (s : System) → IsSound s.dags → IsSound (serve r s).dags
unfolding serve
serve-IsSound (creates clock id req) s h = Next-IsSound s.dags _ (create_dag-Next clock id req s) h
serve-IsSound (updates clock id req) s h =
    Next-IsSound s.dags _ (update_dag-Next clock id req s h) h
serve-IsSound (deletes id) s h = Next-IsSound s.dags _ (delete_dag-Next id s) h
