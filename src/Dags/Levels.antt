-- ===== src/Dags/Levels.antt =====
-- The levels hold the sorted nodes, in their order.
use serverust_less.Prelude.{Bool, true, false, String, Option, List, [], ◌∷◌, ◌++◌, length}
use serverust_less.Action.{Result, ok, err}
use serverust_less.Dags.{Progress, sweep}

abbrev pub flatten : List (List String) → List String
flatten [] = []
flatten (level ∷ levels) = level ++ flatten levels

-- The same progress with other nodes sorted before.
abbrev after : List String → Progress → Progress
after before k = record k { sorted = before ++ k.sorted }

module _ (adj : String → Option (List String)) where
  abbrev next_level : Progress → Progress
  next_level k = sweep adj (length k.queue) (record k { sorted = [] })

abbrev pub is_ok : {A : Type 0} → Result A → Bool
is_ok (ok a) = true
is_ok (err e) = false
