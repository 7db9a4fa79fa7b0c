-- ===== src/Dags/Sweep.antt =====
-- The turns of Kahn's algorithm keep its invariant, and a turn for each node empties the queue.
use serverust_less.Prelude.{
  ◌≡◌, refl, sym, ◌∙◌, ap, subst, ℕ, zero, suc, ◌+◌, ◌≤◌, true, false, ◌||◌, ◌&&◌, String, Option,
  List, [], ◌∷◌, ◌++◌, ◌==◌, arith, eq_iff, eq_refl, elem, Nodup, Nodup-snoc, elem-append, differs,
  Bool-cases, inl, inr, index, index-append, index-lt, index-snoc, index-missing, length, All,
  Subset, length-Subset, length-append,
}
use mathlib.Core.Option.{get_or}
use serverust_less.Model.Dag.{DagEdge}
use serverust_less.Dags.{Progress, lower_one, lower_all, turn_at, sweep}
use serverust_less.Dags.Counts.{neighbours, endpoint}
use serverust_less.Dags.Invariant.{waiting, occurrences, Ranked, Invariant, lower-Invariant}

-- Sorting `v` takes its edges off the counts.
waiting-snoc :
    (v w : String) (sorted : List String) (es : List DagEdge)
    → elem v sorted ≡ false
    → waiting sorted w es ≡ waiting (sorted ++ v ∷ []) w es + occurrences w (neighbours v es)
waiting-snoc v w sorted [] fresh = refl
waiting-snoc v w sorted (e ∷ es) fresh = elim (Bool-cases (v == e.upstream_job_id)) [
  | inl same ↦ ground (
    arith,
    waiting-snoc v w sorted es fresh,
    elem-append e.upstream_job_id sorted (v ∷ []),
    same,
    ap (λ t. elem t sorted) ((eq_iff v e.upstream_job_id).0 same),
    fresh,
    ap (λ t. t == v) ((eq_iff v e.upstream_job_id).0 same),
    eq_refl v,
  )
  | inr other ↦ ground (
    arith,
    waiting-snoc v w sorted es fresh,
    elem-append e.upstream_job_id sorted (v ∷ []),
    other,
    differs v e.upstream_job_id other,
  )
]

-- Where nothing is waited for, every edge into `v` starts at a sorted node.
Ranked-snoc :
    (v : String) (sorted : List String) (e : DagEdge)
    → elem v sorted ≡ false
    → ((v == e.downstream_job_id) ≡ true → elem e.upstream_job_id sorted ≡ true)
    → Ranked sorted e
    → Ranked (sorted ++ v ∷ []) e
Ranked-snoc v sorted e fresh ready ranked inside =
    elim (Bool-cases (elem e.downstream_job_id sorted)) [
      | inl before ↦ elim (Bool-cases (elem e.upstream_job_id sorted)) [
        | inl both ↦ ground (
          arith,
          ranked before,
          index-append e.upstream_job_id sorted (v ∷ []) both,
          index-append e.downstream_job_id sorted (v ∷ []) before,
        )
        | inr absent ↦ absurd (
            omega (
              arith,
              ranked before,
              index-missing e.upstream_job_id sorted absent,
              index-lt e.downstream_job_id sorted before,
            ))
      ]
      | inr last ↦
          let ends : (e.downstream_job_id == v) ≡ true =
            ground (arith, elem-append e.downstream_job_id sorted (v ∷ []), last, inside) in
          let it : e.downstream_job_id ≡ v = (eq_iff _ _).0 ends in
          let up = ready (ground (arith, it, eq_refl v)) in
          ground (
            arith,
            ap (λ t. index t (sorted ++ v ∷ [])) it,
            index-snoc v sorted fresh,
            index-append e.upstream_job_id sorted (v ∷ []) up,
            index-lt e.upstream_job_id sorted up,
          )
    ]

snoc_keeps_order :
    (v : String) (sorted : List String) (es : List DagEdge)
    → elem v sorted ≡ false
    → waiting sorted v es ≡ 0
    → All (Ranked sorted) es
    → All (Ranked (sorted ++ v ∷ [])) es
snoc_keeps_order v sorted [] fresh zero_left h = tt
snoc_keeps_order v sorted (e ∷ es) fresh zero_left h = (
  Ranked-snoc v sorted e fresh (λ into. ground (arith, zero_left, into)) h.0,
  snoc_keeps_order v sorted es fresh (ground (arith, zero_left)) h.1,
)

pop_apart :
    (v : String) (queue sorted : List String)
    → elem v queue ≡ false
    → ((w : String) → (elem w (v ∷ queue) && elem w sorted) ≡ false)
    → (w : String) → (elem w queue && elem w (sorted ++ v ∷ [])) ≡ false
pop_apart v queue sorted once h w = elim (Bool-cases (w == v)) [
  | inl same ↦ ground (arith, ap (λ t. elem t queue) ((eq_iff w v).0 same), once)
  | inr other ↦ ground (arith, h w, elem-append w sorted (v ∷ []), other)
]

neighbours-endpoint :
    (v w : String) (es : List DagEdge) → elem w (neighbours v es) ≡ true → endpoint w es ≡ true
neighbours-endpoint v w [] h = ground (arith, h)
neighbours-endpoint v w (e ∷ es) h = ground (arith, neighbours-endpoint v w es)

lower_all-sorted : (ns : List String) (k : Progress) → (lower_all ns k).sorted ≡ k.sorted
unfolding lower_all
lower_all-sorted [] k = refl
lower_all-sorted (n ∷ ns) k = lower_all-sorted ns (lower_one n k) ∙ ground arith

pub sweep-idle :
    (adj : String → Option (List String)) (n : ℕ) (k : Progress) → k.queue ≡ [] → sweep adj n k ≡ k
unfolding sweep
sweep-idle adj zero k none_left = refl
sweep-idle adj (suc n) k none_left = ground (arith, none_left, sweep-idle adj n k none_left)

module _ (es : List DagEdge) (nodes : List String) where
  lower_all-Invariant :
      (ns : List String) (k : Progress)
      → ((w : String) → elem w ns ≡ true → elem w nodes ≡ true)
      → Invariant es nodes ns k
      → Invariant es nodes [] (lower_all ns k)
  unfolding lower_all
  lower_all-Invariant [] k known inv = inv
  lower_all-Invariant (n ∷ ns) k known inv =
      lower_all-Invariant ns (lower_one n k) (λ w inside. known w (ground (arith, inside)))
        (lower-Invariant es nodes n ns k inv (known n (ground (arith, eq_refl n))))

  -- A node leaves the queue.
  pop-Invariant :
      (v : String) (queue : List String) (k : Progress)
      → k.queue ≡ v ∷ queue
      → Invariant es nodes [] k
      → Invariant es nodes
          (neighbours v es)
          (record k { queue = queue; sorted = k.sorted ++ v ∷ [] })
  pop-Invariant v queue k at inv =
      let here : elem v k.queue ≡ true = ground (arith, ap (elem v) at, eq_refl v) in
      let fresh : elem v k.sorted ≡ false = ground (arith, inv.apart v, here) in
      let nodup : Nodup (v ∷ queue) = subst Nodup at inv.queue_nodup in
      record {
        degree = λ w. ground (arith, inv.degree w, waiting-snoc v w k.sorted es fresh);
        exact = λ w. ground (
          arith,
          inv.exact w,
          ap (elem w) at,
          elem-append w k.sorted (v ∷ []),
          waiting-snoc v w k.sorted es fresh,
        );
        apart =
            pop_apart v queue k.sorted nodup.0 (λ w. ground (arith, inv.apart w, ap (elem w) at));
        queue_nodup = nodup.1;
        sorted_nodup = Nodup-snoc k.sorted v inv.sorted_nodup fresh;
        ranked =
            snoc_keeps_order v k.sorted es fresh (ground (arith, inv.exact v, here)) inv.ranked;
      }

  -- Every sorted or queued node is a node.
  inside_lem :
      (k : Progress)
      → Invariant es nodes [] k
      → (w : String) → (elem w k.queue || elem w k.sorted) ≡ true
      → elem w nodes ≡ true
  inside_lem k inv w h = ground (arith, inv.exact w, h)

  -- With as many nodes sorted as there are, nothing is queued.
  full-empty :
      (k : Progress)
      → Invariant es nodes [] k
      → length nodes ≤ length k.sorted
      → (q : List String) → k.queue ≡ q
      → q ≡ []
  full-empty k inv full [] at = refl
  full-empty k inv full (v ∷ q) at =
      let here : elem v k.queue ≡ true = ground (arith, ap (elem v) at, eq_refl v) in
      let fresh : elem v k.sorted ≡ false = ground (arith, inv.apart v, here) in
      let all : Subset (v ∷ k.sorted) nodes = λ w h. elim (Bool-cases (w == v)) [
        | inl same ↦
            ground (arith, ap (λ t. elem t nodes) ((eq_iff w v).0 same), inside_lem k inv v, here)
        | inr other ↦ ground (arith, inside_lem k inv w, h, other)
      ] in
      absurd (omega (arith, full, length-Subset (v ∷ k.sorted) nodes (fresh, inv.sorted_nodup) all))

  module _ (adj : String → Option (List String))
      (lists : (v : String) → get_or (adj v) [] ≡ neighbours v es)
      (known : (w : String) → elem w nodes ≡ endpoint w es) where
    -- A turn that takes a node.
    turn-Invariant :
        (k : Progress) (v : String) (queue : List String)
        → k.queue ≡ v ∷ queue
        → Invariant es nodes [] k
        → Invariant es nodes [] (turn_at adj (v ∷ queue) k)
    turn-Invariant k v queue at inv = rw (lists v) (
        lower_all-Invariant (neighbours v es) _
          (λ w inside. known w ∙ neighbours-endpoint v w es inside)
          (pop-Invariant v queue k at inv))

    -- As many turns as there are nodes left keep the invariant and empty the queue.
    pub sweep-ends :
        (n : ℕ) (k : Progress) (q : List String)
        → k.queue ≡ q
        → Invariant es nodes [] k
        → length nodes ≤ length k.sorted + n
        → Invariant es nodes [] (sweep adj n k) × ((sweep adj n k).queue ≡ [])
    unfolding sweep
    sweep-ends zero k q at inv enough = (inv, full-empty k inv (omega (arith, enough)) k.queue refl)
    sweep-ends (suc n) k [] at inv enough =
        subst (λ t. Invariant es nodes [] t × (t.queue ≡ [])) (sym (sweep-idle adj (suc n) k at))
          (inv, at)
    sweep-ends (suc n) k (v ∷ q) at inv enough =
        subst
          (λ t.
            Invariant es nodes [] (sweep adj n (turn_at adj t k))
            × ((sweep adj n (turn_at adj t k)).queue ≡ []))
          (sym at)
          (sweep-ends n (turn_at adj (v ∷ q) k) _ refl (turn-Invariant k v q at inv) (
            omega (
              arith,
              enough,
              ap length (
                  lower_all-sorted (get_or (adj v) [])
                    (record k { queue = q; sorted = k.sorted ++ v ∷ [] })),
              length-append k.sorted (v ∷ []),
            )))
