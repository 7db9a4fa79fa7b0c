-- ===== src/Schedules/Rows.antt =====
-- The table of schedules under the statements of db/schedules.rs and the schedule service.
use serverust_less.Prelude.{
  ◌≡◌, refl, sym, subst, Bool, true, not, ◌||◌, String, Option, none, some, List, [], ◌∷◌, ◌++◌,
  map, find, filter, ◌==◌, Nodup, Nodup-snoc, All, All-append, All-map, All-filter, find-All,
  map-keeps, map-snoc, Nodup-map-filter, find-unlisted, is_some, arith, Bool-cases, ◌⊎◌, any,
  Option-cases, inl, inr,
}
use serverust_less.Action.{Result, ok, err, AppError}
use serverust_less.Model.Clock.{Clock}
use serverust_less.Model.Schedule.{JobSchedule, UpdateScheduleRequest}
use serverust_less.Model.Schedule
use serverust_less.Db.{System}
use serverust_less.Db.ScheduleRepository.{schedule_for, schedule_named, write_schedule, triggered}
use serverust_less.Schedules.{
  Cron, valid, invalid, create_schedule, update_schedule, toggle_schedule, change_cron,
  change_enabled, toggled,
}

-- An enabled schedule has a next time.
abbrev pub Timed : JobSchedule → Type 0
Timed x = (not x.enabled || is_some x.next_run_at) ≡ true

pub record IsScheduled (rows : List JobSchedule) : Type 0 where
  pub one_each : Nodup (map (λ x. x.job_id) rows)
  pub timed : All Timed rows

Cron-cases :
    (c : Cron)
    → (c ≡ valid none)
      ⊎ (((e : String) × (c ≡ invalid e)) ⊎ ((next : String) × (c ≡ valid (some next))))
Cron-cases (valid none) = inl refl
Cron-cases (valid (some next)) = inr (inr (next, refl))
Cron-cases (invalid e) = inr (inl (e, refl))

Result-cases : {A : Type 0} (r : Result A) → ((e : AppError) × (r ≡ err e)) ⊎ ((a : A) × (r ≡ ok a))
Result-cases (err e) = inl (e, refl)
Result-cases (ok a) = inr (a, refl)

write-IsScheduled :
    (x : JobSchedule) (rows : List JobSchedule)
    → Timed x
    → IsScheduled rows
    → IsScheduled (map (write_schedule x) rows)
write-IsScheduled x rows t h = record {
  one_each =
      subst Nodup (sym (map-keeps (λ y. y.job_id) (write_schedule x) (λ y. ground arith) rows))
        h.one_each;
  timed = All-map Timed Timed (write_schedule x) (λ y u. ground arith) rows h.timed;
}

pub triggered-IsScheduled :
    (datetime id last next : String) (rows : List JobSchedule)
    → IsScheduled rows
    → IsScheduled (map (triggered datetime id last next) rows)
triggered-IsScheduled datetime id last next rows h = record {
  one_each =
      subst Nodup
        (sym (map-keeps (λ y. y.job_id) (triggered datetime id last next) (λ y. ground arith) rows))
        h.one_each;
  timed = All-map Timed Timed (triggered datetime id last next) (λ y u. ground arith) rows h.timed;
}

pub filter-IsScheduled :
    (p : JobSchedule → Bool) (rows : List JobSchedule)
    → IsScheduled rows
    → IsScheduled (filter p rows)
filter-IsScheduled p rows h = record {
  one_each = Nodup-map-filter (λ y. y.job_id) p rows h.one_each;
  timed = All-filter Timed p rows h.timed;
}

append-IsScheduled :
    (x : JobSchedule) (rows : List JobSchedule)
    → Timed x
    → find (schedule_for x.job_id) rows ≡ none
    → IsScheduled rows
    → IsScheduled (rows ++ x ∷ [])
append-IsScheduled x rows t missing h = record {
  one_each = subst Nodup (sym (map-snoc (λ y. y.job_id) rows x)) (
      Nodup-snoc (map (λ y. y.job_id) rows) x.job_id h.one_each
        (find-unlisted (λ y. y.job_id) x.job_id rows missing));
  timed = All-append Timed rows (x ∷ []) h.timed (t, tt);
}

-- Creation leaves the rows, or puts an enabled schedule with a time last, for a job that had none.
create_schedule-rows :
    (upcoming : String → Cron) (clock : Clock) (id job_id cron : String) (s : System)
    → ((create_schedule upcoming clock id job_id cron s).1.job_schedules ≡ s.job_schedules)
      ⊎ ((next : String) × (find (schedule_for job_id) s.job_schedules ≡ none)
          × ((create_schedule upcoming clock id job_id cron s).1.job_schedules
              ≡ s.job_schedules ++ Schedule.new clock id job_id cron (some next) ∷ []))
unfolding create_schedule
create_schedule-rows upcoming clock id job_id cron s =
    elim (Option-cases (find (schedule_for job_id) s.job_schedules)) [
      | inr (x, taken) ↦ inl (ground (arith, taken))
      | inl missing ↦ elim (Cron-cases (upcoming cron)) [
        | inl stopped ↦ inl (ground (arith, stopped, missing))
        | inr (inl (e, wrong)) ↦ inl (ground (arith, wrong, missing))
        | inr (inr (next, goes)) ↦
            elim (Bool-cases (
              any (schedule_named id) s.job_schedules
              || not (any (λ job. job.id == job_id) s.jobs))) [
                | inl refused ↦ inl (ground (arith, goes, missing, refused))
                | inr accepted ↦ inr (next, missing, ground (arith, goes, missing, accepted))
              ]
      ]
    ]

pub create_schedule-IsScheduled :
    (upcoming : String → Cron) (clock : Clock) (id job_id cron : String) (s : System)
    → IsScheduled s.job_schedules
    → IsScheduled (create_schedule upcoming clock id job_id cron s).1.job_schedules
create_schedule-IsScheduled upcoming clock id job_id cron s h =
    elim (create_schedule-rows upcoming clock id job_id cron s) [
      | inl same ↦ subst IsScheduled (sym same) h
      | inr (next, missing, added) ↦ subst IsScheduled (sym added) (
          append-IsScheduled (Schedule.new clock id job_id cron (some next)) s.job_schedules refl
            missing h)
    ]

-- A change of a schedule leaves the rows, or writes one that is timed over its row.
abbrev pub Rewritten : List JobSchedule → List JobSchedule → Type 0
Rewritten rows rows' =
    (rows' ≡ rows) ⊎ ((x : JobSchedule) × Timed x × (rows' ≡ map (write_schedule x) rows))

pub Rewritten-IsScheduled :
    (rows rows' : List JobSchedule) → Rewritten rows rows' → IsScheduled rows → IsScheduled rows'
Rewritten-IsScheduled rows rows' (inl same) h = subst IsScheduled (sym same) h
Rewritten-IsScheduled rows rows' (inr (x, t, written)) h =
    subst IsScheduled (sym written) (write-IsScheduled x rows t h)

change_cron-Timed :
    (upcoming : String → Cron) (cron : Option String) (x : JobSchedule) {y : JobSchedule}
    → Timed x
    → change_cron upcoming cron x ≡ ok y
    → Timed y
change_cron-Timed upcoming none x {y} t is = ground arith
change_cron-Timed upcoming (some c) x {y} t is = elim (Cron-cases (upcoming c)) [
  | inl stopped ↦ ground (arith, stopped)
  | inr (inl (e, wrong)) ↦ ground (arith, wrong)
  | inr (inr (next, goes)) ↦ ground (arith, goes)
]

change_enabled-Timed :
    (upcoming : String → Cron) (enabled : Option Bool) (x : JobSchedule) {y : JobSchedule}
    → Timed x
    → change_enabled upcoming enabled x ≡ ok y
    → Timed y
change_enabled-Timed upcoming none x {y} t is = ground arith
change_enabled-Timed upcoming (some b) x {y} t is = elim (Cron-cases (upcoming x.cron_expression)) [
  | inl stopped ↦ ground (arith, stopped)
  | inr (inl (e, wrong)) ↦ ground (arith, wrong)
  | inr (inr (next, goes)) ↦ ground (arith, goes)
]

toggled-Timed :
    (upcoming : String → Cron) (x : JobSchedule) {y : JobSchedule}
    → toggled upcoming x ≡ ok y
    → Timed y
toggled-Timed upcoming x {y} is = elim (Cron-cases (upcoming x.cron_expression)) [
  | inl stopped ↦ ground (arith, stopped)
  | inr (inl (e, wrong)) ↦ ground (arith, wrong)
  | inr (inr (next, goes)) ↦ ground (arith, goes)
]

pub update_schedule-Rewritten :
    (upcoming : String → Cron) (clock : Clock) (job_id : String) (req : UpdateScheduleRequest)
    (s : System)
    → All Timed s.job_schedules
    → Rewritten s.job_schedules (update_schedule upcoming clock job_id req s).1.job_schedules
unfolding update_schedule
update_schedule-Rewritten upcoming clock job_id req s timed =
    elim (Option-cases (find (schedule_for job_id) s.job_schedules)) [
      | inl missing ↦ inl (ground (arith, missing))
      | inr (x, found) ↦ elim (Result-cases (change_cron upcoming req.cron_expression x)) [
        | inl (e, wrong) ↦ inl (ground (arith, found, wrong))
        | inr (y, changed) ↦ elim (Result-cases (change_enabled upcoming req.enabled y)) [
          | inl (e, wrong) ↦ inl (ground (arith, found, changed, wrong))
          | inr (z, switched) ↦ inr (
            record z { updated_at = clock.rfc3339 },
            change_enabled-Timed upcoming req.enabled y
                (change_cron-Timed upcoming req.cron_expression x
                  (find-All Timed (schedule_for job_id) s.job_schedules timed found) changed)
                switched,
            ground (arith, found, changed, switched),
          )
        ]
      ]
    ]

pub toggle_schedule-Rewritten :
    (upcoming : String → Cron) (clock : Clock) (job_id : String) (s : System)
    → Rewritten s.job_schedules (toggle_schedule upcoming clock job_id s).1.job_schedules
unfolding toggle_schedule
toggle_schedule-Rewritten upcoming clock job_id s =
    elim (Option-cases (find (schedule_for job_id) s.job_schedules)) [
      | inl missing ↦ inl (ground (arith, missing))
      | inr (x, found) ↦ elim (Result-cases (toggled upcoming x)) [
        | inl (e, wrong) ↦ inl (ground (arith, found, wrong))
        | inr (y, changed) ↦ inr (
          record y { updated_at = clock.rfc3339 },
          toggled-Timed upcoming x changed,
          ground (arith, found, changed),
        )
      ]
    ]
