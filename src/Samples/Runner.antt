-- ===== src/Samples/Runner.antt =====
-- The text that the runner builds, for an input with quotes and a backslash.
use serverust_less.Prelude.{String, ◌≡◌, refl, some, str_append, false}
use serverust_less.Worker.Runner.{full_code}
use serverust_less.Worker.Runner.Literal.{opening, user_part, after_literal, full_code-literal}

abbrev input : String
input = "[\"'''''''\\\\'''\"]"

abbrev code : String
code = "print(INPUT_DATA)"

full_code-literal_example :
    (body : String) × (full_code (some input) code ≡ str_append opening body)
    × (after_literal 0 false body ≡ some (user_part code))
full_code-literal_example = full_code-literal input code refl
