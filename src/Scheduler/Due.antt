-- ===== src/Scheduler/Due.antt =====
-- Which schedules a tick takes up: the comparison of texts in get_due_schedules.
use serverust_less.Prelude.{
  ◌≡◌, refl, ap, ◌∙◌, String, str_append, some, List, [], ◌∷◌, filter, All, arith, compare_text,
  Ordering, order_by,
}
use Prim.Native.Char.{Char, code}
use Prim.Native.String.compare.{cons-cons}
use text.Mathlib.TextLemmas.{nil-append, cons-append}
use text.Mathlib.TextPositions.{compare_self}
use serverust_less.Action.{ok, for_each}
use serverust_less.Model.Clock.{Clock}
use serverust_less.Model.Schedule.{JobSchedule}
use serverust_less.Db.{System}
use serverust_less.Db.ScheduleRepository.{is_due, get_due_schedules}
use serverust_less.Queue.{QueueManager}
use serverust_less.Schedules.{Cron}
use serverust_less.Scheduler.{tick}

-- A time as RFC 3339 writes it, and as SQLite's `datetime` does.
abbrev pub rfc_time : String → String → String
rfc_time day rest = str_append day (str_append "T" rest)

abbrev pub sqlite_time : String → String → String
sqlite_time day rest = str_append day (str_append " " rest)

-- A common first character decides nothing.
compare-cons :
    (c : Char) (s t : String) → compare_text (String.◌∷◌ c s) (String.◌∷◌ c t) ≡ compare_text s t
compare-cons c s t = ground (arith, cons-cons c c s t, compare_self (code c))

prepend : (c : Char) (t : String) → str_append (String.◌∷◌ c String.[]) t ≡ String.◌∷◌ c t
prepend c t = cons-append c String.[] t ∙ ap (λ u. String.◌∷◌ c u) (nil-append t)

same_day-gt : (day a b : String) → compare_text (rfc_time day a) (sqlite_time day b) ≡ Ordering.gt
same_day-gt String.[] a b = ground (
  arith,
  nil-append (str_append "T" a),
  nil-append (str_append " " b),
  prepend "T" a,
  prepend " " b,
  cons-cons "T" " " a b,
)
same_day-gt (String.◌∷◌ c day) a b = rw (cons-append c day (str_append "T" a)) (
    rw (cons-append c day (str_append " " b))
      (compare-cons c (rfc_time day a) (sqlite_time day b) ∙ same_day-gt day a b))

-- The next time lies on the day.
abbrev pub OnDay : String → JobSchedule → Type 0
OnDay day x = (rest : String) × (x.next_run_at ≡ some (rfc_time day rest))

none_due :
    (day rest : String) (rows : List JobSchedule)
    → All (OnDay day) rows
    → filter (is_due (sqlite_time day rest)) rows ≡ []
none_due day rest [] h = refl
none_due day rest (x ∷ rows) ((time, at), h) =
    ground (arith, at, same_day-gt day time rest, none_due day rest rows h)

-- If the next time of every schedule lies on the day of the tick, at whatever time of that day, then
-- the tick does nothing: a schedule is taken up on the day after its time at the earliest.
pub tick-SameDay :
    (upcoming : String → Cron) (qm : QueueManager) (clock : Clock) (ids : String → String × String)
    (day rest : String) (s : System)
    → clock.datetime ≡ sqlite_time day rest
    → All (OnDay day) s.job_schedules
    → tick upcoming qm clock ids s ≡ (ok tt, s)
unfolding tick get_due_schedules for_each order_by
tick-SameDay upcoming qm clock ids day rest s now h =
    let nothing : filter (is_due clock.datetime) s.job_schedules ≡ [] =
      ap (λ t. filter (is_due t) s.job_schedules) now ∙ none_due day rest s.job_schedules h in
    rw (nothing, tick) refl
