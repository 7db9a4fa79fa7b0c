-- ===== src/Model/VenvStatus.antt =====
-- VenvStatus of models/venv.rs.
use serverust_less.Prelude.{String, Option, none, some, if◌then◌else◌}
use serverust_less.Model.Text.{lowercase_eq}

pub data VenvStatus : Type 0 where
  creating ready updating failed deleted : VenvStatus

abbrev pub as_str : VenvStatus → String
as_str creating = "creating"
as_str ready = "ready"
as_str updating = "updating"
as_str failed = "failed"
as_str deleted = "deleted"

unfoldable pub from_str : String → Option VenvStatus
unfolding lowercase_eq
from_str s =
    if lowercase_eq s "creating"
    then some creating
    else if lowercase_eq s "ready"
    then some ready
    else if lowercase_eq s "updating"
    then some updating
    else if lowercase_eq s "failed"
    then some failed
    else if lowercase_eq s "deleted"
    then some deleted
    else none
