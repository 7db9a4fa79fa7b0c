-- ===== src/Model/Text.antt =====
-- Texts as Rust's `str` handles them: comparison without regard to case, white space, prefixes and
-- the removal of a word.
use Prim.Native.Char.{code}
use serverust_less.Prelude.{
  str_append, ℕ, zero, suc, ◌+◌, Bool, ◌&&◌, ◌||◌, String, leb, nat_eq, if◌then◌else◌, true, false,
}

abbrev lower : ℕ → ℕ
lower c = if leb b'A' c && leb c b'Z' then c + 32 else c

-- `s.to_lowercase() == t`, for a text `t` in lower case whose letters no character outside ASCII
-- has as its lower case (that is: no k).
unfoldable pub lowercase_eq : String → String → Bool
lowercase_eq String.[] String.[] = true
lowercase_eq String.[] (String.◌∷◌ d t) = false
lowercase_eq (String.◌∷◌ c s) String.[] = false
lowercase_eq (String.◌∷◌ c s) (String.◌∷◌ d t) =
    nat_eq (lower (code c)) (code d) && lowercase_eq s t

-- `s.to_lowercase() == t.to_lowercase()`, where both are ASCII.
unfoldable pub same_lowercase : String → String → Bool
same_lowercase String.[] String.[] = true
same_lowercase String.[] (String.◌∷◌ d t) = false
same_lowercase (String.◌∷◌ c s) String.[] = false
same_lowercase (String.◌∷◌ c s) (String.◌∷◌ d t) =
    nat_eq (lower (code c)) (lower (code d)) && same_lowercase s t

-- `char::is_whitespace`: the property White_Space of Unicode.
abbrev pub is_whitespace : ℕ → Bool
is_whitespace c =
    (leb 9 c && leb c 13)
    || nat_eq c 32
    || nat_eq c 133
    || nat_eq c 160
    || nat_eq c 5760
    || (leb 8192 c && leb c 8202)
    || nat_eq c 8232
    || nat_eq c 8233
    || nat_eq c 8239
    || nat_eq c 8287
    || nat_eq c 12288

-- `s.trim().is_empty()`
unfoldable pub is_blank : String → Bool
is_blank String.[] = true
is_blank (String.◌∷◌ c s) = is_whitespace (code c) && is_blank s

unfoldable pub trim_start : String → String
trim_start String.[] = String.[]
trim_start (String.◌∷◌ c s) =
    let rest = trim_start s in if is_whitespace (code c) then rest else String.◌∷◌ c s

unfoldable pub trim_end : String → String
unfolding is_blank
trim_end String.[] = String.[]
trim_end (String.◌∷◌ c s) =
    let rest = String.◌∷◌ c (trim_end s) in
    if is_whitespace (code c) && is_blank s then String.[] else rest

-- `s.trim()`
abbrev pub trim : String → String
trim s = trim_end (trim_start s)

-- `s.contains(c)`
unfoldable pub contains_char : ℕ → String → Bool
contains_char c String.[] = false
contains_char c (String.◌∷◌ d s) = nat_eq (code d) c || contains_char c s

-- `s.starts_with(p)`
unfoldable pub starts_with : String → String → Bool
starts_with s String.[] = true
starts_with String.[] (String.◌∷◌ d p) = false
starts_with (String.◌∷◌ c s) (String.◌∷◌ d p) = nat_eq (code c) (code d) && starts_with s p

-- What is left of `s.replace(p, "")`, for a `p` of `suc n` characters, when `skip` characters of an
-- occurrence are still to go.
unfoldable pub remove_from : ℕ → String → ℕ → String → String
unfolding starts_with
remove_from n p skip String.[] = String.[]
remove_from n p (suc skip) (String.◌∷◌ c s) = remove_from n p skip s
remove_from n p zero (String.◌∷◌ c s) = elim (starts_with (String.◌∷◌ c s) p) [
  | true ↦ remove_from n p n s
  | false ↦ String.◌∷◌ c (remove_from n p zero s)
]

-- `s.contains(p)`
unfoldable pub contains_text : String → String → Bool
unfolding starts_with
contains_text String.[] p = starts_with String.[] p
contains_text (String.◌∷◌ c s) p = starts_with (String.◌∷◌ c s) p || contains_text s p

-- What is left of `s.replace(p, with)`, likewise.
unfoldable pub replace_from : ℕ → String → String → ℕ → String → String
unfolding starts_with
replace_from n p with_text skip String.[] = String.[]
replace_from n p with_text (suc skip) (String.◌∷◌ c s) = replace_from n p with_text skip s
replace_from n p with_text zero (String.◌∷◌ c s) = elim (starts_with (String.◌∷◌ c s) p) [
  | true ↦ str_append with_text (replace_from n p with_text n s)
  | false ↦ String.◌∷◌ c (replace_from n p with_text zero s)
]
