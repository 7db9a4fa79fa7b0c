-- ===== src/Model/VenvType.antt =====
-- VenvType of models/venv.rs.
use serverust_less.Prelude.{String, Option, none, some, if◌then◌else◌}
use serverust_less.Model.Text.{lowercase_eq}

pub data VenvType : Type 0 where
  main custom : VenvType

abbrev pub as_str : VenvType → String
as_str main = "main"
as_str custom = "custom"

unfoldable pub from_str : String → Option VenvType
unfolding lowercase_eq
from_str s =
    if lowercase_eq s "main"
    then some main
    else if lowercase_eq s "custom"
    then some custom
    else none
