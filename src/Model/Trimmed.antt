-- ===== src/Model/Trimmed.antt =====
-- What `trim` leaves is blank only if it is empty.
use Prim.Native.Char.{code}
use mathlib.Core.Bool.{false≢true}
use serverust_less.Prelude.{
  ◌≡◌, refl, sym, ap, ◌∙◌, true, false, ◌&&◌, String, ◌==◌, Bool-cases, inl, inr,
}
use serverust_less.Model.Text.{is_whitespace, is_blank, trim_start, trim_end, trim}

is_blank-trim_end : (s : String) → is_blank (trim_end s) ≡ is_blank s
unfolding trim_end is_blank
is_blank-trim_end String.[] = refl
is_blank-trim_end (String.◌∷◌ c s) = elim (Bool-cases (is_whitespace (code c) && is_blank s)) [
  | inl blank ↦ rw blank refl
  | inr text ↦ rw text (ap (λ b. is_whitespace (code c) && b) (is_blank-trim_end s) ∙ text)
]

trim_end-blank : (s : String) → is_blank s ≡ true → trim_end s ≡ ""
unfolding trim_end is_blank
trim_end-blank String.[] h = refl
trim_end-blank (String.◌∷◌ c s) h = rw h refl

pub is_blank-trim : (s : String) → (trim s == "") ≡ false → is_blank (trim s) ≡ false
is_blank-trim s left = elim (Bool-cases (is_blank (trim_start s))) [
  | inl blank ↦
      absurd (false≢true (sym left ∙ ap (λ t. t == "") (trim_end-blank (trim_start s) blank)))
  | inr text ↦ is_blank-trim_end (trim_start s) ∙ text
]
