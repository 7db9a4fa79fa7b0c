-- ===== src/Model/PackageStatus.antt =====
-- PackageStatus of models/package.rs.
use serverust_less.Prelude.{String, Option, none, some, if◌then◌else◌}
use serverust_less.Model.Text.{lowercase_eq}

pub data PackageStatus : Type 0 where
  installing ready failed : PackageStatus

abbrev pub as_str : PackageStatus → String
as_str installing = "installing"
as_str ready = "ready"
as_str failed = "failed"

unfoldable pub from_str : String → Option PackageStatus
unfolding lowercase_eq
from_str s =
    if lowercase_eq s "installing"
    then some installing
    else if lowercase_eq s "ready"
    then some ready
    else if lowercase_eq s "failed"
    then some failed
    else none
