-- ===== src/Audit.antt =====
-- services/audit_service.rs and db/audit.rs: AuditService over the table `audit_logs`, which no other
-- part reads, so the state is that table alone.
use serverust_less.Prelude.{
  ℕ, zero, suc, ℤ, pos, pos_part, max_ℤ, clamp_ℤ, Bool, true, false, not, ◌&&◌, String, Option,
  none, some, List, [], ◌∷◌, ◌++◌, filter, any, length, ◌==◌, if◌then◌else◌, order_by, compare_text,
  is_lt, Ordering,
}
use serverust_less.Action.{Action, ok, err, db_error, pure, ◌>>=◌, ◌>>◌}
use serverust_less.Model.Clock.{Clock}
use serverust_less.Model.Audit.{AuditAction, AuditLog, new}

pub record ListAuditLogsQuery : Type 0 where
  pub limit : ℤ
  pub offset : ℤ
  pub action : Option String
  pub resource_type : Option String
  pub resource_id : Option String
  pub from : Option String
  pub to : Option String

unfoldable pub create : AuditLog → Action (List AuditLog) AuditLog
create log rows =
    if any (λ r. r.id == log.id) rows
    then (err (db_error "UNIQUE constraint failed: audit_logs.id"), rows)
    else (ok log, rows ++ log ∷ [])

-- A condition that is there only if the query names a value.
abbrev given : Option String → (String → Bool) → Bool
given none q = true
given (some v) q = q v

abbrev is_id : Option String → String → Bool
is_id none v = false
is_id (some id) v = id == v

abbrev pub matches : ListAuditLogsQuery → AuditLog → Bool
matches q r =
    given q.action (λ v. r.action == v)
    && given q.resource_type (λ v. r.resource_kind == v)
    && given q.resource_id (is_id r.resource_id)
    && given q.from (λ v. not (is_lt (compare_text r.created_at v)))
    && given q.to (λ v. not (is_lt (compare_text v r.created_at)))

abbrev newest : AuditLog → AuditLog → Ordering
newest a b = compare_text b.created_at a.created_at

-- LIMIT and OFFSET of numbers that are not negative.
abbrev first_logs : ℕ → List AuditLog → List AuditLog
first_logs zero rows = []
first_logs (suc n) [] = []
first_logs (suc n) (r ∷ rows) = r ∷ first_logs n rows

abbrev skip_logs : ℕ → List AuditLog → List AuditLog
skip_logs zero rows = rows
skip_logs (suc n) [] = []
skip_logs (suc n) (r ∷ rows) = skip_logs n rows

-- The page, and the number of all that match.
unfoldable pub list_logs : ListAuditLogsQuery → Action (List AuditLog) (List AuditLog × ℕ)
list_logs q rows =
    let found = filter (matches q) rows in
    (
      ok (
        first_logs (pos_part q.limit) (skip_logs (pos_part q.offset) (order_by newest found)),
        length found,
      ),
      rows,
    )

abbrev of_resource : String → String → AuditLog → Bool
of_resource kind id r = r.resource_kind == kind && is_id r.resource_id id

unfoldable pub get_by_resource : String → String → Action (List AuditLog) (List AuditLog)
get_by_resource kind id rows = (ok (order_by newest (filter (of_resource kind id) rows)), rows)

-- `cutoff` is `datetime('now', '-' || days || ' days')`.
unfoldable pub cleanup_old : String → Action (List AuditLog) ℕ
cleanup_old cutoff rows =
    let old : AuditLog → Bool = λ r. is_lt (compare_text r.created_at cutoff) in
    (ok (length (filter old rows)), filter (λ r. not (old r)) rows)

module _ (enabled : Bool) where
  unfoldable pub log :
      Clock
      → String
      → AuditAction
      → Option String
      → Option String
      → Option String
      → Option String
      → Action (List AuditLog) Unit
  unfolding create
  log clock id action resource_id user_id details ip_address =
      if not enabled
      then pure tt
      else create (new clock id action resource_id user_id details ip_address) >> pure tt

  -- For a job, an execution or a package.
  unfoldable pub log_resource_action :
      Clock → String → AuditAction → String → Option String → Action (List AuditLog) Unit
  unfolding log
  log_resource_action clock id action resource details =
      log clock id action (some resource) none details none

pub record AuditLogListResponse : Type 0 where
  pub logs : List AuditLog
  pub total : ℕ
  pub limit : ℤ
  pub offset : ℤ

-- At least 1 and at most 500 rows, from an offset that is not negative.
abbrev pub validated : ListAuditLogsQuery → ListAuditLogsQuery
validated q = record q {
  limit = clamp_ℤ q.limit (pos 1) (pos 500);
  offset = max_ℤ q.offset (pos 0);
}

unfoldable pub list : ListAuditLogsQuery → Action (List AuditLog) AuditLogListResponse
unfolding list_logs
list q = list_logs (validated q) >>= λ page. pure (record {
  logs = page.0;
  total = page.1;
  limit = (validated q).limit;
  offset = (validated q).offset;
})

unfoldable pub get_resource_logs : String → String → Action (List AuditLog) (List AuditLog)
unfolding get_by_resource
get_resource_logs kind id = get_by_resource kind id

unfoldable pub cleanup : String → Action (List AuditLog) ℕ
unfolding cleanup_old
cleanup cutoff = cleanup_old cutoff
