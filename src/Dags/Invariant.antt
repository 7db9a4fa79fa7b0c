-- ===== src/Dags/Invariant.antt =====
-- The invariant of Kahn's algorithm. `ns` are the neighbours of the last sorted node that are still to be
-- lowered: between turns there are none.
use serverust_less.Prelude.{
  ◌≡◌, sym, ap, ℕ, suc, ◌+◌, ◌<◌, nat_eq, true, false, not, ◌||◌, ◌&&◌, String, none, some, List,
  [], ◌∷◌, ◌++◌, ◌==◌, if◌then◌else◌, arith, eq_iff, eq_refl, elem, Nodup, Nodup-snoc, elem-append,
  Bool-cases, inl, inr, subst, index, All,
}
use serverust_less.Model.Dag.{DagEdge}
use serverust_less.Dags.{Progress, lower_one, put}

-- The edges into `w` that start at a node not sorted yet.
abbrev pub waiting : List String → String → List DagEdge → ℕ
waiting sorted w [] = 0
waiting sorted w (e ∷ es) =
    let rest = waiting sorted w es in
    if w == e.downstream_job_id && not (elem e.upstream_job_id sorted) then suc rest else rest

abbrev pub occurrences : String → List String → ℕ
occurrences w [] = 0
occurrences w (n ∷ ns) = let rest = occurrences w ns in if w == n then suc rest else rest

-- An edge whose end is sorted starts earlier.
abbrev pub Ranked : List String → DagEdge → Type 0
Ranked sorted e =
    elem e.downstream_job_id sorted ≡ true
    → index e.upstream_job_id sorted < index e.downstream_job_id sorted

module _ (es : List DagEdge) (nodes : List String) where
  abbrev pub left : List String → List String → String → ℕ
  left ns sorted w = waiting sorted w es + occurrences w ns

  pub record Invariant (ns : List String) (k : Progress) : Type 0 where
    pub degree :
        (w : String) → k.degrees w ≡ (if elem w nodes then some (left ns k.sorted w) else none)
    pub exact :
        (w : String)
        → (elem w k.queue || elem w k.sorted) ≡ (elem w nodes && nat_eq (left ns k.sorted w) 0)
    pub apart : (w : String) → (elem w k.queue && elem w k.sorted) ≡ false
    pub queue_nodup : Nodup k.queue
    pub sorted_nodup : Nodup k.sorted
    pub ranked : All (Ranked k.sorted) es

  module _ (n : String) (ns : List String) (k : Progress) (inv : Invariant (n ∷ ns) k)
      (node : elem n nodes ≡ true) where
    abbrev now : ℕ
    now = left ns k.sorted n

    lower-run : lower_one n k ≡ record k {
      degrees = put n now k.degrees;
      queue = if nat_eq now 0 then k.queue ++ n ∷ [] else k.queue;
    }
    lower-run = ground (arith, inv.degree n, node, eq_refl n)

    not_queued : elem n k.queue ≡ false
    not_queued = ground (arith, inv.exact n, node, eq_refl n)

    not_sorted : elem n k.sorted ≡ false
    not_sorted = ground (arith, inv.exact n, node, eq_refl n)

    lower-exact :
        (w : String)
        → (elem w (if nat_eq now 0 then k.queue ++ n ∷ [] else k.queue) || elem w k.sorted)
          ≡ (elem w nodes && nat_eq (left ns k.sorted w) 0)
    lower-exact w = elim (Bool-cases (w == n)) [
      | inl same ↦
          subst
            (λ t.
              (elem t (if nat_eq now 0 then k.queue ++ n ∷ [] else k.queue) || elem t k.sorted)
              ≡ (elem t nodes && nat_eq (left ns k.sorted t) 0))
            (sym ((eq_iff w n).0 same))
            (ground
              (arith, elem-append n k.queue (n ∷ []), not_queued, not_sorted, node, eq_refl n))
      | inr other ↦ ground (arith, elem-append w k.queue (n ∷ []), inv.exact w, other)
    ]

    lower-degree :
        (w : String)
        → put n now k.degrees w ≡ (if elem w nodes then some (left ns k.sorted w) else none)
    lower-degree w = elim (Bool-cases (w == n)) [
      | inl same ↦
          subst
            (λ t.
              put n now k.degrees t ≡ (if elem t nodes then some (left ns k.sorted t) else none))
            (sym ((eq_iff w n).0 same)) (ground (arith, node, eq_refl n))
      | inr other ↦ ground (arith, inv.degree w, other)
    ]

    lower-apart :
        (w : String)
        → (elem w (if nat_eq now 0 then k.queue ++ n ∷ [] else k.queue) && elem w k.sorted) ≡ false
    lower-apart w = elim (Bool-cases (w == n)) [
      | inl same ↦ ground (arith, ap (λ t. elem t k.sorted) ((eq_iff w n).0 same), not_sorted)
      | inr other ↦ ground (arith, elem-append w k.queue (n ∷ []), inv.apart w, other)
    ]

    lower-queue : Nodup (if nat_eq now 0 then k.queue ++ n ∷ [] else k.queue)
    lower-queue = elim (Bool-cases (nat_eq now 0)) [
      | inl ends ↦ rw ends (Nodup-snoc k.queue n inv.queue_nodup not_queued)
      | inr more ↦ rw more inv.queue_nodup
    ]

    pub lower-Invariant : Invariant ns (lower_one n k)
    lower-Invariant = subst (Invariant ns) (sym lower-run) (record {
      degree = lower-degree;
      exact = lower-exact;
      apart = lower-apart;
      queue_nodup = lower-queue;
      sorted_nodup = inv.sorted_nodup;
      ranked = inv.ranked;
    })
