-- ===== src/Queue/Recovery.antt =====
-- The queue after a restart.
use serverust_less.Prelude.{
  ◌≡◌, refl, sym, subst, ap, ℕ, zero, suc, ◌-◌, false, none, some, List, [], ◌∷◌, map, length, All,
  arith, leb, Option-cases, Bool-cases, inl, inr,
}
use serverust_less.Action.{ok}
use serverust_less.Model.QueueItem.{QueueItem}
use serverust_less.Model.QueueEntry.{QueueEntry}
use serverust_less.Db.{System}
use serverust_less.Db.QueueRepository.{has_status, queued_rows, reset_processing, with_queue}
use serverust_less.Queue.{QueueManager, recover, refill, reconstruct_item}

-- The items of the entries that still have an execution and a job.
abbrev pub recoverable : System → List QueueEntry → List QueueItem
recoverable s [] = []
recoverable s (e ∷ entries) = elim (reconstruct_item e s) [
  | none ↦ recoverable s entries
  | some i ↦ i ∷ recoverable s entries
]

abbrev pub take : ℕ → List QueueItem → List QueueItem
take zero items = []
take (suc n) [] = []
take (suc n) (i ∷ items) = i ∷ take n items

-- Items pushed one after the other.
abbrev pub pushed : List QueueItem → List QueueItem → List QueueItem
pushed [] heap = heap
pushed (i ∷ items) heap = pushed items (i ∷ heap)

take-nil : (n : ℕ) → take n [] ≡ []
take-nil zero = refl
take-nil (suc n) = refl

recoverable-memory :
    (items : List QueueItem) (s : System) (entries : List QueueEntry)
    → recoverable (record s { memory_queue = items }) entries ≡ recoverable s entries
unfolding reconstruct_item
recoverable-memory items s [] = refl
recoverable-memory items s (e ∷ entries) = ground (arith, recoverable-memory items s entries)

recoverable-queue :
    (rows : List QueueEntry) (s : System) (entries : List QueueEntry)
    → recoverable (with_queue rows s) entries ≡ recoverable s entries
unfolding reconstruct_item
recoverable-queue rows s [] = refl
recoverable-queue rows s (e ∷ entries) = ground (arith, recoverable-queue rows s entries)

module _ (qm : QueueManager) where
  refill-memory :
      (entries : List QueueEntry) (s : System)
      → (refill qm entries s).1.memory_queue
        ≡ pushed
            (take (qm.max_memory_size - length s.memory_queue) (recoverable s entries))
            s.memory_queue
  unfolding refill
  refill-memory [] s = ground (arith, take-nil (qm.max_memory_size - length s.memory_queue))
  refill-memory (e ∷ entries) s =
      elim (Bool-cases (leb qm.max_memory_size (length s.memory_queue))) [
        | inl full ↦
            let none_free : qm.max_memory_size - length s.memory_queue ≡ 0 = ground (arith, full) in
            ground (
              arith,
              full,
              ap (λ n. pushed (take n (recoverable s (e ∷ entries))) s.memory_queue) none_free,
            )
        | inr room ↦ elim (Option-cases (reconstruct_item e s)) [
          | inl missing ↦ ground (arith, room, missing, refill-memory entries s)
          | inr (i, made) ↦
              let more : qm.max_memory_size - length s.memory_queue
                  ≡ suc (qm.max_memory_size - suc (length s.memory_queue)) =
                ground (arith, room) in
              ground (
                arith,
                room,
                made,
                refill-memory entries (record s { memory_queue = i ∷ s.memory_queue }),
                recoverable-memory (i ∷ s.memory_queue) s entries,
                ap (λ n. pushed (take n (i ∷ recoverable s entries)) s.memory_queue) more,
              )
        ]
      ]

  refill-rows :
      (entries : List QueueEntry) (s : System) → (refill qm entries s).1.job_queue ≡ s.job_queue
  unfolding refill
  refill-rows [] s = refl
  refill-rows (e ∷ entries) s = elim (Option-cases (reconstruct_item e s)) [
    | inl missing ↦ ground (arith, missing, refill-rows entries s)
    | inr (i, made) ↦
        ground (arith, made, refill-rows entries (record s { memory_queue = i ∷ s.memory_queue }))
  ]

-- No row is processing once reset.
reset_lem :
    (rows : List QueueEntry)
    → All (λ e. has_status "processing" e ≡ false) (map reset_processing rows)
reset_lem [] = tt
reset_lem (e ∷ rows) = (
  elim (Bool-cases (has_status "processing" e)) [
    | inl stuck ↦ rw stuck refl
    | inr other ↦ rw other other
  ],
  reset_lem rows,
)

abbrev pub reset_rows : System → List QueueEntry
reset_rows s = map reset_processing s.job_queue

-- After a restart, with nothing in memory, recovery succeeds with the number of queued entries. No
-- entry is processing any more: each is queued again. The in-memory queue holds the items of the
-- entries in the table's order, of those that still have an execution and a job, up to
-- max_memory_size.
pub recover-restores :
    (qm : QueueManager) (s : System)
    → s.memory_queue ≡ []
    → ((recover qm s).0 ≡ ok (length (queued_rows (reset_rows s))))
      × ((recover qm s).1.job_queue ≡ reset_rows s)
      × All (λ e. has_status "processing" e ≡ false) (recover qm s).1.job_queue
      × ((recover qm s).1.memory_queue
          ≡ pushed (take qm.max_memory_size (recoverable s (queued_rows (reset_rows s)))) [])
unfolding recover
recover-restores qm s empty =
    let t = with_queue (reset_rows s) s in
    let entries = queued_rows (reset_rows s) in
    let rows : (refill qm entries t).1.job_queue ≡ reset_rows s = refill-rows qm entries t in
    (
      refl,
      rows,
      subst (All (λ e. has_status "processing" e ≡ false)) (sym rows) (reset_lem s.job_queue),
      ground (
        arith,
        refill-memory qm entries t,
        ap (λ m. pushed (take (qm.max_memory_size - length m) (recoverable s entries)) m) empty,
        recoverable-queue (reset_rows s) s entries,
      ),
    )
