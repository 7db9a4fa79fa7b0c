-- ===== src/Pip/Versions.antt =====
-- Reading the version that `pip show` prints.
use Prim.Native.Char.{Char, code}
use text.Mathlib.TextLemmas.{nil-append, cons-append}
use serverust_less.Prelude.{
  ◌≡◌, refl, ap, ◌∙◌, true, false, ◌||◌, String, Option, some, List, [], ◌∷◌, ◌++◌, str_append, All,
  arith, nat_eq,
}
use serverust_less.Model.Text.{starts_with, remove_from, trim, trim_start, trim_end, is_whitespace}
use serverust_less.Pip.{
  PackageManager, PipOutput, exited, version_of, succeeded, install_package, install_args,
}

-- No character of the text is white space or a V.
abbrev pub Plain : String → Type 0
Plain String.[] = Unit
Plain (String.◌∷◌ c s) = ((is_whitespace (code c) || nat_eq (code c) b'V') ≡ false) × Plain s

remove_from-Plain : (v : String) → Plain v → remove_from 7 "Version:" 0 v ≡ v
unfolding remove_from starts_with
remove_from-Plain String.[] h = refl
remove_from-Plain (String.◌∷◌ c s) h = ground (arith, h.0, remove_from-Plain s h.1)

trim_start-Plain : (v : String) → Plain v → trim_start v ≡ v
unfolding trim_start
trim_start-Plain String.[] h = refl
trim_start-Plain (String.◌∷◌ c s) h = ground (arith, h.0)

trim_end-Plain : (v : String) → Plain v → trim_end v ≡ v
unfolding trim_end
trim_end-Plain String.[] h = refl
trim_end-Plain (String.◌∷◌ c s) h = ground (arith, h.0, trim_end-Plain s h.1)

-- One character out of an appended text.
cons_out :
    (c : Char) (s t : String) {u : String}
    → str_append s t ≡ u
    → str_append (String.◌∷◌ c s) t ≡ String.◌∷◌ c u
cons_out c s t e = cons-append c s t ∙ ap (λ r. String.◌∷◌ c r) e

abbrev spell : List Char → String → String
spell [] v = v
spell (c ∷ cs) v = String.◌∷◌ c (spell cs v)

spelled :
    (v : String)
    → str_append "Version: " v ≡ spell ("V" ∷ "e" ∷ "r" ∷ "s" ∷ "i" ∷ "o" ∷ "n" ∷ ":" ∷ " " ∷ []) v
spelled v = cons_out "V" "ersion: " v (
    cons_out "e" "rsion: " v (
      cons_out "r" "sion: " v (
        cons_out "s" "ion: " v (
          cons_out "i" "on: " v (
            cons_out "o" "n: " v
              (cons_out "n" ": " v (cons_out ":" " " v (cons_out " " "" v (nil-append v)))))))))

read_line :
    (v : String)
    → Plain v
    → (starts_with (str_append "Version: " v) "Version:" ≡ true)
      × (trim (remove_from 7 "Version:" 0 (str_append "Version: " v)) ≡ v)
unfolding starts_with remove_from trim_start
read_line v h =
    rw (spelled v)
      (refl, rw (remove_from-Plain v h) (rw (trim_start-Plain v h) (trim_end-Plain v h)))

version_of-line :
    (before after : List String) (v : String)
    → Plain v
    → All (λ line. starts_with line "Version:" ≡ false) before
    → version_of (before ++ str_append "Version: " v ∷ after) ≡ some v
unfolding version_of
version_of-line [] after v h none_before =
    let (starts, reads) = read_line v h in rw starts (ap some reads)
version_of-line (line ∷ before) after v h none_before =
    ground (arith, none_before.0, version_of-line before after v h none_before.1)

-- If pip installs a package and then shows it with the version v, on the first line that starts with
-- "Version:", where v has no white space and no V, then the result of the installation is a success
-- with exactly that version.
pub install_package-version :
    (pip : List String → PipOutput) (pm : PackageManager) (name : String)
    (constraint : Option String) (printed before after : List String) (stderr stderr' v : String)
    → Plain v
    → All (λ line. starts_with line "Version:" ≡ false) before
    → pip (install_args pm name constraint) ≡ exited true printed stderr
    → pip ("show" ∷ name ∷ []) ≡ exited true (before ++ str_append "Version: " v ∷ after) stderr'
    → install_package pip pm name constraint ≡ succeeded name (some v)
unfolding install_package
install_package-version pip pm name constraint printed before after stderr stderr' v h none_before
      installs shows =
    rw installs (rw shows (ap (succeeded name) (version_of-line before after v h none_before)))
