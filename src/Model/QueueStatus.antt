-- ===== src/Model/QueueStatus.antt =====
-- QueueStatus of models/queue.rs.
use serverust_less.Prelude.{String, Option, none, some, if◌then◌else◌}
use serverust_less.Model.Text.{lowercase_eq}

pub data QueueStatus : Type 0 where
  queued processing completed failed dead_letter : QueueStatus

abbrev pub as_str : QueueStatus → String
as_str queued = "queued"
as_str processing = "processing"
as_str completed = "completed"
as_str failed = "failed"
as_str dead_letter = "dead_letter"

-- No text outside ASCII has "k" as part of a status here either.
unfoldable pub from_str : String → Option QueueStatus
unfolding lowercase_eq
from_str s =
    if lowercase_eq s "queued"
    then some queued
    else if lowercase_eq s "processing"
    then some processing
    else if lowercase_eq s "completed"
    then some completed
    else if lowercase_eq s "failed"
    then some failed
    else if lowercase_eq s "dead_letter"
    then some dead_letter
    else none
