-- ===== src/Dags/Counts.antt =====
-- What the maps of the algorithm hold: the nodes are the ends of the edges, a node's count is that of
-- the edges into it, and its neighbours stand in the order of the edges.
use serverust_less.Prelude.{
  ◌≡◌, refl, sym, ◌∙◌, ap, ℕ, suc, ◌+◌, Bool, true, false, ◌||◌, String, Option, none, some, List,
  [], ◌∷◌, ◌++◌, ◌==◌, if◌then◌else◌, arith, eq_iff, eq_refl, elem, Nodup, Nodup-snoc, elem-append,
  Bool-cases, inl, inr,
}
use mathlib.Core.Option.{get_or}
use serverust_less.Model.Dag.{DagEdge}
use serverust_less.Dags.{Graph, insert, insert_edge, build, empty, graph_of}

abbrev pub endpoint : String → List DagEdge → Bool
endpoint w [] = false
endpoint w (e ∷ es) = (w == e.upstream_job_id || w == e.downstream_job_id) || endpoint w es

abbrev pub incoming : String → List DagEdge → ℕ
incoming w [] = 0
incoming w (e ∷ es) =
    let rest = incoming w es in if w == e.downstream_job_id then suc rest else rest

abbrev pub neighbours : String → List DagEdge → List String
neighbours v [] = []
neighbours v (e ∷ es) =
    let rest = neighbours v es in
    if v == e.upstream_job_id then e.downstream_job_id ∷ rest else rest

elem-insert :
    (w v : String) (nodes : List String) → elem w (insert v nodes) ≡ (w == v || elem w nodes)
elem-insert w v nodes = elim (Bool-cases (elem v nodes)) [
  | inl there ↦ elim (Bool-cases (w == v)) [
    | inl same ↦ ground (arith, there, same, ap (λ t. elem t nodes) ((eq_iff w v).0 same))
    | inr other ↦ ground (arith, there, other)
  ]
  | inr missing ↦ ground (arith, missing, elem-append w nodes (v ∷ []))
]

Nodup-insert : (v : String) (nodes : List String) → Nodup nodes → Nodup (insert v nodes)
Nodup-insert v nodes h = elim (Bool-cases (elem v nodes)) [
  | inl there ↦ rw there h
  | inr missing ↦ rw missing (Nodup-snoc nodes v h missing)
]

insert_edge-degree :
    (e : DagEdge) (g : Graph) (w : String)
    → (insert_edge e g).in_degree w ≡ (
        if w == e.upstream_job_id || w == e.downstream_job_id
        then some (get_or (g.in_degree w) 0 + incoming w (e ∷ []))
        else g.in_degree w)
insert_edge-degree e g w = elim (Bool-cases (w == e.upstream_job_id)) [
  | inl up ↦ elim (Bool-cases (w == e.downstream_job_id)) [
    | inl down ↦ ground (
      arith,
      up,
      down,
      (eq_iff w e.upstream_job_id).0 up,
      (eq_iff w e.downstream_job_id).0 down,
      ap g.in_degree ((eq_iff w e.downstream_job_id).0 down),
      eq_refl w,
    )
    | inr no_down ↦ ground (
      arith,
      up,
      no_down,
      (eq_iff w e.upstream_job_id).0 up,
      ap g.in_degree ((eq_iff w e.upstream_job_id).0 up),
      ap (λ t. t == e.downstream_job_id) ((eq_iff w e.upstream_job_id).0 up),
    )
  ]
  | inr no_up ↦ elim (Bool-cases (w == e.downstream_job_id)) [
    | inl down ↦ ground (arith, no_up, down, ap g.in_degree ((eq_iff w e.downstream_job_id).0 down))
    | inr no_down ↦ ground (arith, no_up, no_down)
  ]
]

incoming-none : (w : String) (es : List DagEdge) → endpoint w es ≡ false → incoming w es ≡ 0
incoming-none w [] h = refl
incoming-none w (e ∷ es) h = ground (arith, incoming-none w es)

-- The count after one edge and then the others.
count_step :
    (d : Option ℕ) (up down rest : Bool) (r : ℕ)
    → (rest ≡ false → r ≡ 0)
    → (if rest
        then some
            (get_or (if up || down then some (get_or d 0 + (if down then 1 else 0)) else d) 0 + r)
        else if up || down
        then some (get_or d 0 + (if down then 1 else 0))
        else d)
      ≡ (if (up || down) || rest then some (get_or d 0 + (if down then suc r else r)) else d)
count_step d up down true r h = ground arith
count_step d up down false r h = ground (arith, h refl)

build-degree :
    (es : List DagEdge) (g : Graph) (w : String)
    → (build es g).in_degree w
      ≡ (if endpoint w es then some (get_or (g.in_degree w) 0 + incoming w es) else g.in_degree w)
unfolding build
build-degree [] g w = refl
build-degree (e ∷ es) g w =
    build-degree es (insert_edge e g) w
    ∙ ap (λ d. if endpoint w es then some (get_or d 0 + incoming w es) else d)
        (insert_edge-degree e g w)
    ∙ count_step (g.in_degree w) (w == e.upstream_job_id) (w == e.downstream_job_id) (endpoint w es)
        (incoming w es) (incoming-none w es)

append-snoc : {A : Type 0} (xs : List A) (y : A) (zs : List A) → (xs ++ y ∷ []) ++ zs ≡ xs ++ y ∷ zs
append-snoc [] y zs = refl
append-snoc (x ∷ xs) y zs = ap (λ t. x ∷ t) (append-snoc xs y zs)

pub append_nil : {A : Type 0} (xs : List A) → xs ++ [] ≡ xs
append_nil [] = refl
append_nil (x ∷ xs) = ap (λ t. x ∷ t) (append_nil xs)

build-adj :
    (es : List DagEdge) (g : Graph) (v : String)
    → get_or ((build es g).adj v) [] ≡ get_or (g.adj v) [] ++ neighbours v es
unfolding build
build-adj [] g v = sym (append_nil _)
build-adj (e ∷ es) g v = elim (Bool-cases (v == e.upstream_job_id)) [
  | inl up ↦ ground (
    arith,
    build-adj es (insert_edge e g) v,
    up,
    ap g.adj ((eq_iff v e.upstream_job_id).0 up),
    append-snoc (get_or (g.adj v) []) e.downstream_job_id (neighbours v es),
  )
  | inr other ↦ ground (arith, build-adj es (insert_edge e g) v, other)
]

build-elem :
    (es : List DagEdge) (g : Graph) (w : String)
    → elem w (build es g).all_nodes ≡ (elem w g.all_nodes || endpoint w es)
unfolding build
build-elem [] g w = ground arith
build-elem (e ∷ es) g w = ground (
  arith,
  build-elem es (insert_edge e g) w,
  elem-insert w e.downstream_job_id (insert e.upstream_job_id g.all_nodes),
  elem-insert w e.upstream_job_id g.all_nodes,
)

build-Nodup : (es : List DagEdge) (g : Graph) → Nodup g.all_nodes → Nodup (build es g).all_nodes
unfolding build
build-Nodup [] g h = h
build-Nodup (e ∷ es) g h =
    build-Nodup es (insert_edge e g)
      (Nodup-insert e.downstream_job_id _ (Nodup-insert e.upstream_job_id g.all_nodes h))

-- The graph of a list of edges.
module _ (es : List DagEdge) where
  pub graph-elem : (w : String) → elem w (graph_of es).all_nodes ≡ endpoint w es
  graph-elem w = build-elem es empty w

  pub graph-Nodup : Nodup (graph_of es).all_nodes
  graph-Nodup = build-Nodup es empty tt

  pub graph-degree :
      (w : String)
      → (graph_of es).in_degree w
        ≡ (if elem w (graph_of es).all_nodes then some (incoming w es) else none)
  graph-degree w = ground (arith, build-degree es empty w, graph-elem w)

  pub graph-adj : (v : String) → get_or ((graph_of es).adj v) [] ≡ neighbours v es
  graph-adj v = build-adj es empty v
