-- ===== src/Dags/Acyclic.antt =====
-- Kahn's algorithm decides whether edges have a cycle: it succeeds just where a rank rises along every
-- edge, and then its result is a topological order of the nodes.
use serverust_less.Prelude.{
  ◌≡◌, refl, sym, ap, subst, ℕ, zero, suc, ◌<◌, ◌≤◌, true, String, List, [], ◌∷◌, ◌==◌, arith,
  eq_iff, eq_refl, elem, elem-filter, Nodup, Nodup-filter, Bool-cases, inl, inr, index, length, All,
  Subset, Subset-full, length-Subset,
}
use serverust_less.Action.{ok}
use serverust_less.Model.Dag.{DagEdge}
use serverust_less.Dags.{graph_of, initial, finished, validate_no_cycles, is_root}
use serverust_less.Dags.Counts.{
  endpoint, incoming, graph-elem, graph-Nodup, graph-degree, graph-adj,
}
use serverust_less.Dags.Invariant.{waiting, Ranked, Invariant}
use serverust_less.Dags.Sweep.{sweep-ends}

-- What the order of a HashMap's keys is known to be: each key once.
pub record Iterates (order : List String → List String) : Type 0 where
  pub nodup : (xs : List String) → Nodup xs → Nodup (order xs)
  pub same : (x : String) (xs : List String) → elem x (order xs) ≡ elem x xs

-- A rank that rises along every edge: there is no cycle.
abbrev pub Rises : (String → ℕ) → DagEdge → Type 0
Rises rank e = rank e.upstream_job_id < rank e.downstream_job_id

abbrev pub IsAcyclic : List DagEdge → Type 0
IsAcyclic es = (rank : String → ℕ) × All (Rises rank) es

-- Each end of an edge once, and the start of an edge before its end.
pub record Topological (es : List DagEdge) (sorted : List String) : Type 0 where
  pub nodup : Nodup sorted
  pub nodes : (w : String) → elem w sorted ≡ endpoint w es
  pub rises : All (Rises (λ w. index w sorted)) es

waiting-nil : (w : String) (es : List DagEdge) → waiting [] w es ≡ incoming w es
waiting-nil w [] = refl
waiting-nil w (e ∷ es) = ground (arith, waiting-nil w es)

Ranked-nil : (es : List DagEdge) → All (Ranked []) es
Ranked-nil [] = tt
Ranked-nil (e ∷ es) = (λ inside. ground (arith, inside), Ranked-nil es)

-- Where the ends of all edges are sorted, the ranking holds of all edges.
edge_order_lem :
    (sorted : List String) (es : List DagEdge)
    → ((w : String) → endpoint w es ≡ true → elem w sorted ≡ true)
    → All (Ranked sorted) es
    → All (Rises (λ w. index w sorted)) es
edge_order_lem sorted [] inside h = tt
edge_order_lem sorted (e ∷ es) inside h = (
  h.0 (inside e.downstream_job_id (ground (arith, eq_refl e.downstream_job_id))),
  edge_order_lem sorted es (λ w there. inside w (ground (arith, there))) h.1,
)

-- Nothing is waited for, where every lower start is sorted.
waiting-zero :
    (rank : String → ℕ) (sorted : List String) (w : String) (es : List DagEdge)
    → ((u : String) → endpoint u es ≡ true → rank u < rank w → elem u sorted ≡ true)
    → All (Rises rank) es
    → waiting sorted w es ≡ 0
waiting-zero rank sorted w [] below h = refl
waiting-zero rank sorted w (e ∷ es) below h =
    let rest = waiting-zero rank sorted w es (λ u there. below u (ground (arith, there))) h.1 in
    elim (Bool-cases (w == e.downstream_job_id)) [
      | inl into ↦
          let lower : rank e.upstream_job_id < rank w =
            subst (λ t. rank e.upstream_job_id < rank t)
              (sym ((eq_iff w e.downstream_job_id).0 into)) h.0 in
          ground
            (arith, rest, below e.upstream_job_id (ground (arith, eq_refl e.upstream_job_id)) lower)
      | inr other ↦ ground (arith, rest, other)
    ]

module _ (order : List String → List String) (iterates : Iterates order) (es : List DagEdge) where
  abbrev nodes : List String
  nodes = (graph_of es).all_nodes

  initial-Invariant : Invariant es nodes [] (initial order (graph_of es))
  initial-Invariant = record {
    degree = λ w. ground (arith, graph-degree es w, waiting-nil w es);
    exact = λ w. ground (
      arith,
      elem-filter (is_root (graph_of es).in_degree) w (order nodes),
      iterates.same w nodes,
      graph-degree es w,
      waiting-nil w es,
    );
    apart = λ w. ground arith;
    queue_nodup =
        Nodup-filter (is_root (graph_of es).in_degree) (order nodes)
          (iterates.nodup nodes (graph-Nodup es));
    sorted_nodup = tt;
    ranked = Ranked-nil es;
  }

  ends : Invariant es nodes [] (finished order es) × ((finished order es).queue ≡ [])
  ends =
      sweep-ends es nodes (graph_of es).adj (graph-adj es) (graph-elem es) (length nodes)
        (initial order (graph_of es)) _ refl initial-Invariant (omega arith)

  sorted_lem : (w : String) → elem w (finished order es).sorted ≡ true → elem w nodes ≡ true
  sorted_lem w h = ground (arith, ends.0.exact w, h)

  complete_lem :
      (rank : String → ℕ)
      → All (Rises rank) es
      → (bound : ℕ) (w : String) → rank w < bound
      → endpoint w es ≡ true
      → elem w (finished order es).sorted ≡ true
  complete_lem rank h zero w below inside = absurd (omega (arith, below))
  complete_lem rank h (suc bound) w below inside = ground (
    arith,
    ends.0.exact w,
    ap (elem w) ends.1,
    graph-elem es w,
    inside,
    waiting-zero rank (finished order es).sorted w es
        (λ u there lower. complete_lem rank h bound u (omega (arith, lower, below)) there) h,
  )

  Subset-sorted : Subset (finished order es).sorted nodes
  Subset-sorted w h = sorted_lem w h

  -- The loop has ended after as many turns as there are nodes: its queue is empty, in whatever order
  -- the map gives its keys.
  pub finished-ends : (finished order es).queue ≡ []
  finished-ends = ends.1

  -- In whatever order the map gives its keys: when the check returns a list, the list holds each end of an edge once and nothing else, and the
  -- start of every edge stands before its end.
  pub validate_no_cycles-Topological :
      (sorted : List String) → validate_no_cycles order es ≡ ok sorted → Topological es sorted
  unfolding validate_no_cycles
  validate_no_cycles-Topological sorted accepted =
      let k = finished order es in
      let it : k.sorted ≡ sorted = ground (arith, accepted) in
      let full : length nodes ≤ length k.sorted = ground (arith, accepted) in
      let all = Subset-full k.sorted nodes ends.0.sorted_nodup Subset-sorted full in
      subst (Topological es) it (record {
        nodup = ends.0.sorted_nodup;
        nodes = λ w. elim (Bool-cases (endpoint w es)) [
          | inl there ↦ ground (arith, there, all w, graph-elem es w)
          | inr absent ↦ ground (arith, absent, sorted_lem w, graph-elem es w)
        ];
        rises =
            edge_order_lem k.sorted es (λ w there. all w (ground (arith, graph-elem es w, there)))
              ends.0.ranked;
      })

  -- In whatever order the map gives its keys: the check refuses edges only if they have a cycle. Where
  -- some rank rises along every edge, it returns a list.
  pub validate_no_cycles-IsAcyclic :
      IsAcyclic es → (sorted : List String) × (validate_no_cycles order es ≡ ok sorted)
  unfolding validate_no_cycles
  validate_no_cycles-IsAcyclic (rank, h) =
      let k = finished order es in
      let longer : length nodes ≤ length k.sorted =
        length-Subset nodes k.sorted (graph-Nodup es) (λ w there.
          complete_lem rank h (suc (rank w)) w (omega arith)
            (ground (arith, graph-elem es w, there))) in
      let shorter = length-Subset k.sorted nodes ends.0.sorted_nodup Subset-sorted in
      (k.sorted, ground (arith, longer, shorter))
