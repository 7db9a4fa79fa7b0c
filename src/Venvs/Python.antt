-- ===== src/Venvs/Python.antt =====
-- worker/venv_manager.rs: VenvManager::resolve_python_for_version. `runs` tells whether an
-- executable answers to `--version`; the rest of the file only calls the operating system.
use Prim.Native.Char.{Char, code}
use Prim.Native.String.{len}
use text.Mathlib.TextLemmas.{nil-append, cons-append, append-nil}
use serverust_less.Prelude.{
  ℕ, ◌+◌, ◌*◌, ◌-◌, ◌≡◌, sym, ap, ◌∙◌, ◌⊎◌, inl, inr, Bool, true, false, ◌&&◌, String, Option, none,
  some, List, [], ◌∷◌, find, elem, str_append, nat_eq, leb, if◌then◌else◌, arith,
}
use serverust_less.Model.Text.{trim}

abbrev push_char : Char → List String → List String
push_char c [] = String.◌∷◌ c String.[] ∷ []
push_char c (part ∷ parts) = String.◌∷◌ c part ∷ parts

-- `version.split('.')`
unfoldable pub split_dots : String → List String
split_dots String.[] = String.[] ∷ []
split_dots (String.◌∷◌ c s) =
    let parts = split_dots s in
    if nat_eq (code c) b'.' then String.[] ∷ parts else push_char c parts

abbrev is_digit : Char → Bool
is_digit c = leb b'0' (code c) && leb (code c) b'9'

unfoldable pub all_digits : String → Bool
all_digits String.[] = true
all_digits (String.◌∷◌ c s) = is_digit c && all_digits s

-- `parse::<u32>().unwrap_or(0)` of at most three digits, from a value so far.
unfoldable pub parse_from : ℕ → String → ℕ
parse_from n String.[] = n
parse_from n (String.◌∷◌ c s) = parse_from (n * 10 + (code c - 48)) s

-- A version with a minor part names its executable; a number alone is a minor version from 4 on.
unfoldable pub candidates : String → List String → List String
unfolding all_digits parse_from
candidates version [] = str_append "python" version ∷ []
candidates version (only ∷ []) =
    if leb (len only) 3 && all_digits only
    then if leb 4 (parse_from 0 only)
      then str_append "python3." only ∷ str_append "python" only ∷ []
      else str_append "python" only ∷ []
    else str_append "python" only ∷ []
candidates version (major ∷ minor ∷ rest) =
    str_append "python" (str_append major (str_append "." minor)) ∷ []

-- `retain` with the set of those seen.
unfoldable pub distinct : List String → List String → List String
distinct seen [] = []
distinct seen (c ∷ cs) = let rest = distinct (c ∷ seen) cs in if elem c seen then rest else c ∷ rest

unfoldable pub resolve_python_for_version : (String → Bool) → String → Option String
unfolding split_dots candidates distinct
resolve_python_for_version runs version =
    let v = trim version in find runs (distinct [] (candidates v (split_dots v)))

-- No character of the text is a dot.
abbrev pub Undotted : String → Type 0
Undotted String.[] = Unit
Undotted (String.◌∷◌ c s) = (nat_eq (code c) b'.' ≡ false) × Undotted s

abbrev before_first : String → List String → List String
before_first s [] = s ∷ []
before_first s (part ∷ parts) = str_append s part ∷ parts

split_dots-Undotted :
    (s t : String) {p : String} {ps : List String}
    → Undotted s
    → split_dots t ≡ p ∷ ps
    → split_dots (str_append s t) ≡ str_append s p ∷ ps
unfolding split_dots
split_dots-Undotted String.[] t {p} {ps} h e =
    ap split_dots (nil-append t) ∙ e ∙ ap (λ r. r ∷ ps) (sym (nil-append p))
split_dots-Undotted (String.◌∷◌ c s) t {p} {ps} h e =
    ap split_dots (cons-append c s t)
    ∙ ground (arith, h.0, split_dots-Undotted s t {p = p} {ps = ps} h.1 e)
    ∙ ap (λ r. r ∷ ps) (sym (cons-append c s p))

split_dots-dot : (t : String) → split_dots (str_append "." t) ≡ "" ∷ split_dots t
unfolding split_dots
split_dots-dot t = ap split_dots (cons-append "." "" t ∙ ap (λ u. String.◌∷◌ "." u) (nil-append t))

-- The text ends, or goes on with a dot.
abbrev pub EndsPart : String → Type 0
EndsPart tail = (tail ≡ "") ⊎ ((t : String) × (tail ≡ str_append "." t))

split_dots-end : (tail : String) → EndsPart tail → (ps : List String) × (split_dots tail ≡ "" ∷ ps)
unfolding split_dots
split_dots-end tail (inl ends) = ([], ap split_dots ends)
split_dots-end tail (inr (t, dotted)) = (split_dots t, ap split_dots dotted ∙ split_dots-dot t)

-- The executable of a major and a minor version.
abbrev pub executable : String → String → String
executable major minor = str_append "python" (str_append major (str_append "." minor))

-- For a version that begins with a major and a minor part, has anything or nothing after a further
-- dot, and has no white space around it, exactly the executable "python<major>.<minor>" is tried: it
-- is the result if it runs, and otherwise there is none.
pub resolve_python_for_version-Specific :
    (runs : String → Bool) (major minor tail : String)
    → Undotted major
    → Undotted minor
    → EndsPart tail
    → trim (str_append major (str_append "." (str_append minor tail)))
      ≡ str_append major (str_append "." (str_append minor tail))
    → resolve_python_for_version runs (str_append major (str_append "." (str_append minor tail)))
      ≡ (if runs (executable major minor) then some (executable major minor) else none)
unfolding resolve_python_for_version
resolve_python_for_version-Specific runs major minor tail h k end trimmed =
    let v = str_append major (str_append "." (str_append minor tail)) in
    let (ps, ended) = split_dots-end tail end in
    let parts : split_dots v ≡ str_append major "" ∷ str_append minor "" ∷ ps =
      split_dots-Undotted major (str_append "." (str_append minor tail)) h (
        split_dots-dot (str_append minor tail)
        ∙ ap (λ r. "" ∷ r) (split_dots-Undotted minor tail k ended)) in
    ap (λ u. find runs (distinct [] (candidates u (split_dots u)))) trimmed
    ∙ ap (λ r. find runs (distinct [] (candidates v r)))
        (parts
          ∙ ap (λ m. m ∷ str_append minor "" ∷ ps) (append-nil major)
          ∙ ap (λ n. major ∷ n ∷ ps) (append-nil minor))
