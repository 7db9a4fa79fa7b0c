-- ===== src/Model/ExecutionStatus.antt =====
-- ExecutionStatus of models/execution.rs.
use serverust_less.Prelude.{Bool, true, false, String, Option, none, some, if◌then◌else◌}
use serverust_less.Model.Text.{lowercase_eq}

pub data ExecutionStatus : Type 0 where
  pending queued running success failed timeout cancelled : ExecutionStatus

abbrev pub as_str : ExecutionStatus → String
as_str pending = "pending"
as_str queued = "queued"
as_str running = "running"
as_str success = "success"
as_str failed = "failed"
as_str timeout = "timeout"
as_str cancelled = "cancelled"

unfoldable pub from_str : String → Option ExecutionStatus
unfolding lowercase_eq
from_str s =
    if lowercase_eq s "pending"
    then some pending
    else if lowercase_eq s "queued"
    then some queued
    else if lowercase_eq s "running"
    then some running
    else if lowercase_eq s "success"
    then some success
    else if lowercase_eq s "failed"
    then some failed
    else if lowercase_eq s "timeout"
    then some timeout
    else if lowercase_eq s "cancelled"
    then some cancelled
    else none

abbrev pub is_terminal : ExecutionStatus → Bool
is_terminal success = true
is_terminal failed = true
is_terminal timeout = true
is_terminal cancelled = true
is_terminal _ = false

abbrev pub default : ExecutionStatus
default = pending
