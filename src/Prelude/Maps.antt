-- ===== src/Prelude/Maps.antt =====
-- Maps from texts as association lists, and their abstract view: functions into options.
use Prim.Native.String.{String}
use text.Mathlib.Text.{◌==◌}
use text.Mathlib.TextEquality.{eq_iff}
use mathlib.Core.Path.{◌≡◌, refl, ap}
use mathlib.Core.Logic.{inl, inr}
use mathlib.Core.Bool.{Bool, true, false, ◌||◌}
use mathlib.Core.Option.{Option, none, some}
use mathlib.Core.List.{List, [], ◌∷◌}
use native.Mathlib.Omega.{arith}
use serverust_less.Prelude.Tests.{if◌then◌else◌, Bool-cases}
use serverust_less.Prelude.Sets.{elem, Nodup, differs}

abbrev pub is_some {ℓ} : {A : Type ℓ} → Option A → Bool
is_some none = false
is_some (some a) = true

module _ {ℓ} {V : Type ℓ} where
  abbrev pub lookup : String → List (String × V) → Option V
  lookup k [] = none
  lookup k ((j, v) ∷ m) = let rest = lookup k m in if k == j then some v else rest

  -- An entry of the key is replaced.
  abbrev pub insert : String → V → List (String × V) → List (String × V)
  insert k v [] = (k, v) ∷ []
  insert k v ((j, w) ∷ m) = let rest = insert k v m in if k == j then (j, v) ∷ m else (j, w) ∷ rest

  abbrev pub erase : String → List (String × V) → List (String × V)
  erase k [] = []
  erase k ((j, w) ∷ m) = let rest = erase k m in if k == j then rest else (j, w) ∷ rest

  abbrev pub keys : List (String × V) → List String
  keys [] = []
  keys ((j, v) ∷ m) = j ∷ keys m

  -- A function changed at one key.
  abbrev pub changed : String → Option V → (String → Option V) → String → Option V
  changed k w f j = if j == k then w else f j

  pub lookup-insert :
      (j k : String) (v : V) (m : List (String × V))
      → lookup j (insert k v m) ≡ (if j == k then some v else lookup j m)
  lookup-insert j k v [] = refl
  lookup-insert j k v ((i, w) ∷ m) = elim (Bool-cases (k == i)) [
    | inl same ↦ ground (arith, same, ap (λ t. j == t) ((eq_iff k i).0 same))
    | inr other ↦ elim (Bool-cases (j == k)) [
      | inl here ↦
          ground (arith, other, here, lookup-insert j k v m, ap (λ t. t == i) ((eq_iff j k).0 here))
      | inr there ↦ ground (arith, other, there, lookup-insert j k v m)
    ]
  ]

  pub lookup-erase :
      (j k : String) (m : List (String × V))
      → lookup j (erase k m) ≡ (if j == k then none else lookup j m)
  lookup-erase j k [] = ground arith
  lookup-erase j k ((i, w) ∷ m) = elim (Bool-cases (k == i)) [
    | inl same ↦ ground (arith, same, lookup-erase j k m, ap (λ t. j == t) ((eq_iff k i).0 same))
    | inr other ↦ elim (Bool-cases (j == k)) [
      | inl here ↦
          ground (arith, other, here, lookup-erase j k m, ap (λ t. t == i) ((eq_iff j k).0 here))
      | inr there ↦ ground (arith, other, there, lookup-erase j k m)
    ]
  ]

  pub elem-keys : (j : String) (m : List (String × V)) → elem j (keys m) ≡ is_some (lookup j m)
  elem-keys j [] = refl
  elem-keys j ((i, w) ∷ m) = ground (arith, elem-keys j m)

  pub elem-keys-insert :
      (j k : String) (v : V) (m : List (String × V))
      → elem j (keys (insert k v m)) ≡ (j == k || elem j (keys m))
  elem-keys-insert j k v [] = refl
  elem-keys-insert j k v ((i, w) ∷ m) = elim (Bool-cases (k == i)) [
    | inl same ↦ ground (arith, same, ap (λ t. j == t) ((eq_iff k i).0 same))
    | inr other ↦ ground (arith, other, elem-keys-insert j k v m)
  ]

  elem-keys-erase :
      (j k : String) (m : List (String × V))
      → elem j (keys m) ≡ false
      → elem j (keys (erase k m)) ≡ false
  elem-keys-erase j k [] h = refl
  elem-keys-erase j k ((i, w) ∷ m) h = ground (arith, h, elem-keys-erase j k m)

  pub Nodup-insert :
      (k : String) (v : V) (m : List (String × V)) → Nodup (keys m) → Nodup (keys (insert k v m))
  Nodup-insert k v [] h = (refl, tt)
  Nodup-insert k v ((i, w) ∷ m) h = elim (Bool-cases (k == i)) [
    | inl same ↦ rw same h
    | inr other ↦
        rw other (
          ground (arith, elem-keys-insert i k v m, differs k i, other, h.0),
          Nodup-insert k v m h.1,
        )
  ]

  pub Nodup-erase : (k : String) (m : List (String × V)) → Nodup (keys m) → Nodup (keys (erase k m))
  Nodup-erase k [] h = tt
  Nodup-erase k ((i, w) ∷ m) h = elim (Bool-cases (k == i)) [
    | inl same ↦ rw same (Nodup-erase k m h.1)
    | inr other ↦ rw other (elem-keys-erase i k m h.0, Nodup-erase k m h.1)
  ]

  -- Changing a key to none where it is none already.
  pub changed-missing :
      (j k : String) (m : List (String × V))
      → lookup k m ≡ none
      → lookup j m ≡ (if j == k then none else lookup j m)
  changed-missing j k m missing = elim (Bool-cases (j == k)) [
    | inl here ↦ ground (arith, here, ap (λ t. lookup t m) ((eq_iff j k).0 here), missing)
    | inr there ↦ ground (arith, there)
  ]
