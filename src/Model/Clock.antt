-- ===== src/Model/Clock.antt =====
-- What the program asks of the clock: an argument of the operations that read it. One value stands
-- for the readings of one operation.
use serverust_less.Prelude.{String, Option, ℤ}

pub record Clock : Type 0 where
  -- `Utc::now().to_rfc3339()`
  pub rfc3339 : String
  -- SQLite's `datetime('now')`
  pub datetime : String
  -- The milliseconds from a start written in RFC 3339 until now; `none` where it does not parse.
  pub since : String → Option ℤ
