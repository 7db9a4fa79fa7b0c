-- ===== src/Dags/Edges.antt =====
-- The edges of every DAG stay free of cycles.
use serverust_less.Prelude.{
  ◌≡◌, sym, ◌∙◌, subst, ℕ, ◌⊎◌, inl, inr, true, false, String, List, [], ◌∷◌, ◌++◌, ◌==◌, arith,
  eq_iff, Bool-cases, All, order_by-All, filter-All, All-append, differs, index, compare_text,
}
use mathlib.Core.Bool.{false≢true}
use serverust_less.Action.{AppError, ok, err, Result-cases}
use serverust_less.Model.Clock.{Clock}
use serverust_less.Model.Dag.{DagEdge, new_edge}
use serverust_less.Db.{System}
use serverust_less.Db.DagRepository.{edges_of, create_edge}
use serverust_less.Dags.{add_edge, validate_no_cycles}
use serverust_less.Dags.Acyclic.{Iterates, Rises, validate_no_cycles-Topological}

-- A rank that rises along each edge of the DAG.
abbrev pub DagIsAcyclic : String → List DagEdge → Type 0
DagIsAcyclic dag_id rows =
    (rank : String → ℕ) × All (λ e. (e.dag_id == dag_id) ≡ true → Rises rank e) rows

All-left : {A : Type 0} (P : A → Type 0) (xs ys : List A) → All P (xs ++ ys) → All P xs × All P ys
All-left P [] ys h = (tt, h)
All-left P (x ∷ xs) ys h = let rest = All-left P xs ys h.1 in ((h.0, rest.0), rest.1)

module _ (order : List String → List String) (iterates : Iterates order) (clock : Clock)
    (id dag_id upstream downstream condition : String) (s : System) where
  abbrev added : DagEdge
  added = new_edge clock id dag_id upstream downstream condition

  abbrev checked : List DagEdge
  checked = edges_of dag_id s.dag_edges ++ added ∷ []

  abbrev after : System
  after = (add_edge order clock id dag_id upstream downstream condition s).1

  add_edge-refused :
      {e : AppError} → validate_no_cycles order checked ≡ err e → after.dag_edges ≡ s.dag_edges
  unfolding add_edge create_edge
  add_edge-refused refused = ground (arith, refused)

  add_edge-rows : (after.dag_edges ≡ s.dag_edges) ⊎ (after.dag_edges ≡ s.dag_edges ++ added ∷ [])
  unfolding add_edge create_edge
  add_edge-rows = ground arith

  -- The rows of the DAG and the new one, ranked by the check.
  ranked-checked :
      {sorted : List String}
      → validate_no_cycles order checked ≡ ok sorted
      → DagIsAcyclic dag_id (s.dag_edges ++ added ∷ [])
  ranked-checked {sorted} accepted =
      let topo = validate_no_cycles-Topological order iterates checked sorted accepted in
      let rank : String → ℕ = λ w. index w sorted in
      let parts = All-left (Rises rank) (edges_of dag_id s.dag_edges) (added ∷ []) topo.rises in
      let old =
        filter-All (Rises rank) (λ e. e.dag_id == dag_id) s.dag_edges
          (order_by-All (λ a b. compare_text a.created_at b.created_at) (Rises rank) _ parts.0) in
      (
        rank,
        All-append (λ e. (e.dag_id == dag_id) ≡ true → Rises rank e) s.dag_edges (added ∷ []) old
            ((λ _. parts.1.0), tt),
      )

  appended-other :
      (other : String)
      → (other == dag_id) ≡ false
      → DagIsAcyclic other s.dag_edges
      → DagIsAcyclic other (s.dag_edges ++ added ∷ [])
  appended-other other apart (rank, h) = (
    rank,
    All-append (λ e. (e.dag_id == other) ≡ true → Rises rank e) s.dag_edges (added ∷ []) h
        ((λ same. absurd (false≢true (sym (differs other dag_id apart) ∙ same))), tt),
  )

  -- Adding an edge, whether it succeeds or is refused, leaves each DAG that was free of cycles free of
  -- cycles: some rank rises along all of its edges in the table.
  pub add_edge-DagIsAcyclic :
      (other : String)
      → DagIsAcyclic other s.dag_edges
      → DagIsAcyclic other
          (add_edge order clock id dag_id upstream downstream condition s).1.dag_edges
  add_edge-DagIsAcyclic other h = elim add_edge-rows [
    | inl same ↦ subst (DagIsAcyclic other) (sym same) h
    | inr appended ↦ elim (Result-cases (validate_no_cycles order checked)) [
      | inr (e, refused) ↦ subst (DagIsAcyclic other) (sym (add_edge-refused refused)) h
      | inl (sorted, accepted) ↦ elim (Bool-cases (other == dag_id)) [
        | inl same ↦ subst (DagIsAcyclic other) (sym appended) (
            subst (λ d. DagIsAcyclic d (s.dag_edges ++ added ∷ []))
              (sym ((eq_iff other dag_id).0 same)) (ranked-checked accepted))
        | inr apart ↦ subst (DagIsAcyclic other) (sym appended) (appended-other other apart h)
      ]
    ]
  ]
