-- ===== src/Prelude/Lists.antt =====
-- Lists measured by native numbers, with Boolean predicates, and predicates by recursion.
use Prim.Native.Nat.{ℕ, suc, ◌+◌, ◌≤◌}
use mathlib.Core.Path.{◌≡◌, refl}
use mathlib.Core.Bool.{Bool, true, false, not, ◌&&◌, ◌||◌}
use mathlib.Core.List.{List, [], ◌∷◌, ◌++◌, map}
use mathlib.Core.Option
use Prim.Native.String.{String}
use text.Mathlib.Text.{◌==◌}
use mathlib.Core.Option.{Option, none, some}
use native.Mathlib.Omega.{arith}
use mathlib.Core.Bool.{false≢true}
use mathlib.Core.Path.{sym, subst, ◌∙◌}
use mathlib.Core.Logic.{◌⊎◌, inl, inr}
use serverust_less.Prelude.Tests.{if◌then◌else◌, Bool-cases}

module _ {ℓ} {A : Type ℓ} where
  abbrev pub length : List A → ℕ
  length [] = 0
  length (x ∷ xs) = suc (length xs)

  abbrev pub filter : (A → Bool) → List A → List A
  filter p [] = []
  filter p (x ∷ xs) = let rest = filter p xs in if p x then x ∷ rest else rest

  -- The first element that passes.
  abbrev pub find : (A → Bool) → List A → Option A
  find p [] = none
  find p (x ∷ xs) = let rest = find p xs in if p x then some x else rest

  abbrev pub any : (A → Bool) → List A → Bool
  any p [] = false
  any p (x ∷ xs) = p x || any p xs

  abbrev pub all : (A → Bool) → List A → Bool
  all p [] = true
  all p (x ∷ xs) = p x && all p xs

  abbrev pub head? : List A → Option A
  head? [] = none
  head? (x ∷ xs) = some x

  abbrev pub All {κ} : (A → Type κ) → List A → Type κ
  All P [] = Unit
  All P (x ∷ xs) = P x × All P xs

module _ {ℓ} {A : Type ℓ} where
  pub length-append : (xs ys : List A) → length (xs ++ ys) ≡ length xs + length ys
  length-append [] ys = omega arith
  length-append (x ∷ xs) ys = omega (arith, length-append xs ys)

  pub length-filter-le : (p : A → Bool) (xs : List A) → length (filter p xs) ≤ length xs
  length-filter-le p [] = omega arith
  length-filter-le p (x ∷ xs) = ground (arith, length-filter-le p xs)

  pub All-append {κ} : (P : A → Type κ) (xs ys : List A) → All P xs → All P ys → All P (xs ++ ys)
  All-append P [] ys hx hy = hy
  All-append P (x ∷ xs) ys hx hy = (hx.0, All-append P xs ys hx.1 hy)

  -- What holds of all that a filter lets through.
  pub filter-All {κ} :
      (P : A → Type κ) (p : A → Bool) (xs : List A)
      → All P (filter p xs)
      → All (λ x. p x ≡ true → P x) xs
  filter-All P p [] h = tt
  filter-All P p (x ∷ xs) h = elim (Bool-cases (p x)) [
    | inl pass ↦
        let h' : P x × All P (filter p xs) =
          subst (λ b. All P (if b then x ∷ filter p xs else filter p xs)) pass h in
        (λ _. h'.0, filter-All P p xs h'.1)
    | inr fail ↦ (
      λ pass. absurd (false≢true (sym fail ∙ pass)),
      filter-All P p xs (subst (λ b. All P (if b then x ∷ filter p xs else filter p xs)) fail h),
    )
  ]

  pub find-eq-some : (p : A → Bool) (xs : List A) {x : A} → find p xs ≡ some x → p x ≡ true
  find-eq-some p [] e = cc
  find-eq-some p (y ∷ ys) {x} e = ground (arith, find-eq-some p ys {x = x})

-- Rows by a key: a change that keeps the keys changes what is found in place.
module _ {ℓ} {A : Type ℓ} where
  abbrev pub keyed : (A → String) → String → A → Bool
  keyed key id a = key a == id

  pub find-update :
      (key : A → String) (change : A → A)
      → ((a : A) → key (change a) ≡ key a)
      → (id : String) (rows : List A)
      → find (keyed key id) (map change rows) ≡ Option.map change (find (keyed key id) rows)
  find-update key change keeps id [] = refl
  find-update key change keeps id (row ∷ rows) =
      ground (arith, find-update key change keeps id rows, keeps row)

-- A row put last, and lookups.
module _ {ℓ} {A : Type ℓ} (p : A → Bool) where
  pub find-append_found : (xs ys : List A) {x : A} → find p xs ≡ some x → find p (xs ++ ys) ≡ some x
  find-append_found [] ys found = cc
  find-append_found (x ∷ xs) ys {x = y} found = ground (arith, find-append_found xs ys {x = y})

  pub find-append_missing : (xs ys : List A) → any p xs ≡ false → find p (xs ++ ys) ≡ find p ys
  find-append_missing [] ys missing = refl
  find-append_missing (x ∷ xs) ys missing = ground (arith, find-append_missing xs ys)

  -- A lookup that finds is a row that passes.
  pub any_of_find : (xs : List A) {x : A} → find p xs ≡ some x → any p xs ≡ true
  any_of_find [] found = cc
  any_of_find (y ∷ ys) {x} found = ground (arith, any_of_find ys {x = x})

  pub filter-not-All : (xs : List A) → All (λ x. p x ≡ false) (filter (λ x. not (p x)) xs)
  filter-not-All [] = tt
  filter-not-All (x ∷ xs) = ground (arith, filter-not-All xs)

  pub filter-fails :
      (q : A → Bool) (xs : List A)
      → All (λ x. p x ≡ false) xs
      → All (λ x. p x ≡ false) (filter q xs)
  filter-fails q [] h = tt
  filter-fails q (x ∷ xs) h = ground (arith, filter-fails q xs h.1)

  pub head-fails :
      (xs : List A) {x : A} → head? xs ≡ some x → All (λ x. p x ≡ false) xs → p x ≡ false
  head-fails [] e h = cc
  head-fails (x ∷ xs) e h = ground (arith, h.0)

  pub find-append_other : (xs : List A) (y : A) → p y ≡ false → find p (xs ++ y ∷ []) ≡ find p xs
  find-append_other [] y h = ground (arith, h)
  find-append_other (x ∷ xs) y h = ground (arith, find-append_other xs y h)

module _ {ℓ} {A : Type ℓ} where
  pub All-map {κ} :
      (P Q : A → Type κ) (f : A → A)
      → ((a : A) → P a → Q (f a))
      → (xs : List A) → All P xs
      → All Q (map f xs)
  All-map P Q f h [] all_p = tt
  All-map P Q f h (x ∷ xs) all_p = (h x all_p.0, All-map P Q f h xs all_p.1)

  pub All-weaken {κ} :
      (P Q : A → Type κ) → ((a : A) → P a → Q a) → (xs : List A) → All P xs → All Q xs
  All-weaken P Q h [] all_p = tt
  All-weaken P Q h (x ∷ xs) all_p = (h x all_p.0, All-weaken P Q h xs all_p.1)

  pub any-filter : (p q : A → Bool) (xs : List A) → any p (filter q xs) ≡ any (λ x. q x && p x) xs
  any-filter p q [] = refl
  any-filter p q (x ∷ xs) = ground (arith, any-filter p q xs)

  -- An element is among those that it is related to, if it is related to itself.
  pub any_self :
      (good : A → Bool) (related : A → A → Bool)
      → ((x : A) → good x ≡ true → related x x ≡ true)
      → (xs ys : List A) → ((x : A) → any (related x) xs ≡ true → any (related x) ys ≡ true)
      → All (λ x. (not (good x) || any (related x) ys) ≡ true) xs
  any_self good related h [] ys sub = tt
  any_self good related h (x ∷ xs) ys sub = (
    elim (Bool-cases (good x)) [
      | inl yes_good ↦ ground (arith, yes_good, h x yes_good, sub x (ground (arith, h x yes_good)))
      | inr not_good ↦ ground (arith, not_good)
    ],
    any_self good related h xs ys (λ z found. sub z (ground (arith, found))),
  )

  pub All-combine {κ} :
      (P Q R : A → Type κ)
      → ((a : A) → P a → Q a → R a)
      → (xs : List A) → All P xs
      → All Q xs
      → All R xs
  All-combine P Q R h [] p q = tt
  All-combine P Q R h (x ∷ xs) p q = (h x p.0 q.0, All-combine P Q R h xs p.1 q.1)

  pub filter-guarded :
      (p q : A → Bool) (xs : List A)
      → All (λ x. (q x && p x) ≡ false) xs
      → All (λ x. p x ≡ false) (filter q xs)
  filter-guarded p q [] h = tt
  filter-guarded p q (x ∷ xs) h = ground (arith, h.0, filter-guarded p q xs h.1)

-- Membership as a sum, at types without a test.
module _ {A : Type 0} where
  abbrev pub Among : A → List A → Type 0
  Among a [] = ⊥
  Among a (x ∷ xs) = (a ≡ x) ⊎ Among a xs

module _ {ℓ} {A : Type ℓ} where
  pub find-All {κ} :
      (P : A → Type κ) (p : A → Bool) (xs : List A) {x : A} → All P xs → find p xs ≡ some x → P x
  find-All P p [] h found = absurd (let e : ⊥ = cc in e)
  find-All P p (y ∷ ys) {x} h found = elim (Bool-cases (p y)) [
    | inl here ↦ subst P (let e : y ≡ x = ground (arith, here, found) in e) h.0
    | inr later ↦ find-All P p ys h.1 (ground (arith, later, found))
  ]

  -- A field that a change leaves alone.
  pub map-keeps {κ} :
      {B : Type κ} (key : A → B) (change : A → A)
      → ((a : A) → key (change a) ≡ key a)
      → (xs : List A) → map key (map change xs) ≡ map key xs
  map-keeps key change keeps [] = refl
  map-keeps key change keeps (x ∷ xs) = ground (arith, keeps x, map-keeps key change keeps xs)

  pub All-filter {κ} :
      (P : A → Type κ) (p : A → Bool) (xs : List A) → All P xs → All P (filter p xs)
  All-filter P p [] h = tt
  All-filter P p (x ∷ xs) h = elim (Bool-cases (p x)) [
    | inl pass ↦ rw pass (h.0, All-filter P p xs h.1)
    | inr fail ↦ rw fail (All-filter P p xs h.1)
  ]

  pub map-snoc {κ} :
      {B : Type κ} (f : A → B) (xs : List A) (x : A) → map f (xs ++ x ∷ []) ≡ map f xs ++ f x ∷ []
  map-snoc f [] x = refl
  map-snoc f (y ∷ xs) x = ground (arith, map-snoc f xs x)
