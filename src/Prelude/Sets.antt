-- ===== src/Prelude/Sets.antt =====
-- Lists of texts as sets: membership, lists without duplicates, positions, the pigeonhole principle.
use Prim.Native.Nat.{ℕ, suc, ◌≤◌, ◌<◌}
use Prim.Native.String.{String}
use text.Mathlib.Text.{◌==◌}
use text.Mathlib.TextEquality.{eq_iff}
use text.Mathlib.TextPositions.{eq_refl}
use mathlib.Core.Path.{◌≡◌, refl, ap}
use mathlib.Core.Logic.{inl, inr}
use mathlib.Core.Bool.{Bool, true, false, ◌&&◌, ◌||◌}
use mathlib.Core.List.{List, [], ◌∷◌, ◌++◌, map}
use mathlib.Core.Option.{none}
use native.Mathlib.Omega.{arith}
use serverust_less.Prelude.Tests.{if◌then◌else◌, Bool-cases}
use serverust_less.Prelude.Lists.{length, filter, find}

abbrev pub elem : String → List String → Bool
elem x [] = false
elem x (y ∷ ys) = x == y || elem x ys

abbrev pub Nodup : List String → Type 0
Nodup [] = Unit
Nodup (x ∷ xs) = (elem x xs ≡ false) × Nodup xs

-- The position of the first occurrence, or the length.
abbrev pub index : String → List String → ℕ
index x [] = 0
index x (y ∷ ys) = let later = index x ys in if x == y then 0 else suc later

abbrev pub Subset : List String → List String → Type 0
Subset xs ys = (x : String) → elem x xs ≡ true → elem x ys ≡ true

pub differs : (a b : String) → (a == b) ≡ false → (b == a) ≡ false
differs a b h = elim (Bool-cases (b == a)) [
  | inl same ↦
      ground (arith, (eq_iff b a).0 same, eq_refl a, ap (λ t. a == t) ((eq_iff b a).0 same))
  | inr other ↦ other
]

pub elem-append : (x : String) (xs ys : List String) → elem x (xs ++ ys) ≡ (elem x xs || elem x ys)
elem-append x [] ys = refl
elem-append x (y ∷ xs) ys = ground (arith, elem-append x xs ys)

pub Nodup-snoc :
    (xs : List String) (x : String) → Nodup xs → elem x xs ≡ false → Nodup (xs ++ x ∷ [])
Nodup-snoc [] x h fresh = (refl, tt)
Nodup-snoc (y ∷ ys) x h fresh = (
  ground (arith, elem-append y ys (x ∷ []), h.0, fresh, differs x y),
  Nodup-snoc ys x h.1 (ground (arith, fresh)),
)

pub elem-filter :
    (p : String → Bool) (x : String) (xs : List String) → elem x (filter p xs) ≡ (p x && elem x xs)
elem-filter p x [] = ground arith
elem-filter p x (y ∷ ys) = elim (Bool-cases (x == y)) [
  | inl same ↦ ground (arith, elem-filter p x ys, same, ap p ((eq_iff x y).0 same))
  | inr other ↦ ground (arith, elem-filter p x ys, other)
]

pub Nodup-filter : (p : String → Bool) (xs : List String) → Nodup xs → Nodup (filter p xs)
Nodup-filter p [] h = tt
Nodup-filter p (x ∷ xs) h = elim (Bool-cases (p x)) as (λ c. Nodup (filter p (x ∷ xs))) [
  | inl pass ↦ rw pass (ground (arith, elem-filter p x xs, h.0), Nodup-filter p xs h.1)
  | inr fail ↦ rw fail (Nodup-filter p xs h.1)
]

remove_one : String → List String → List String
remove_one x [] = []
remove_one x (y ∷ ys) = let rest = y ∷ remove_one x ys in if x == y then ys else rest

length-remove_one :
    (x : String) (ys : List String) → elem x ys ≡ true → length ys ≡ suc (length (remove_one x ys))
unfolding remove_one
length-remove_one x [] h = ground (arith, h)
length-remove_one x (y ∷ ys) h = ground (arith, length-remove_one x ys)

elem-remove_one :
    (x z : String) (ys : List String)
    → (z == x) ≡ false
    → elem z ys ≡ true
    → elem z (remove_one x ys) ≡ true
unfolding remove_one
elem-remove_one x z [] other h = h
elem-remove_one x z (y ∷ ys) other h = elim (Bool-cases (x == y)) [
  | inl same ↦ ground (arith, same, ap (λ t. z == t) ((eq_iff x y).0 same), other, h)
  | inr apart ↦ ground (arith, apart, elem-remove_one x z ys other, h)
]

apart : (x z : String) (xs : List String) → elem x xs ≡ false → elem z xs ≡ true → (z == x) ≡ false
apart x z xs fresh inside = elim (Bool-cases (z == x)) [
  | inl same ↦ ground (arith, ap (λ t. elem t xs) ((eq_iff z x).0 same), inside, fresh)
  | inr other ↦ other
]

Subset-cons :
    (y : String) (xs ys : List String) → elem y ys ≡ true → Subset xs ys → Subset (y ∷ xs) ys
Subset-cons y xs ys there sub z inside = elim (Bool-cases (z == y)) [
  | inl same ↦ ground (arith, ap (λ t. elem t ys) ((eq_iff z y).0 same), there)
  | inr other ↦ sub z (ground (arith, inside, other))
]

-- A list without duplicates is no longer than a list that holds all of its elements.
pub length-Subset : (xs ys : List String) → Nodup xs → Subset xs ys → length xs ≤ length ys
length-Subset [] ys h sub = omega arith
length-Subset (x ∷ xs) ys h sub =
    let there = sub x (ground (arith, eq_refl x)) in
    let fewer = length-Subset xs (remove_one x ys) h.1 (λ z inside.
      elem-remove_one x z ys (apart x z xs h.0 inside) (sub z (ground (arith, inside)))) in
    omega (arith, fewer, length-remove_one x ys there)

-- If it is as long, then it holds them all.
pub Subset-full :
    (xs ys : List String) → Nodup xs → Subset xs ys → length ys ≤ length xs → Subset ys xs
Subset-full xs ys h sub full y inside = elim (Bool-cases (elem y xs)) [
  | inl there ↦ there
  | inr missing ↦
      absurd (
        omega
          (arith, full, length-Subset (y ∷ xs) ys (missing, h) (Subset-cons y xs ys inside sub)))
]

pub index-append :
    (x : String) (xs ys : List String) → elem x xs ≡ true → index x (xs ++ ys) ≡ index x xs
index-append x [] ys h = ground (arith, h)
index-append x (y ∷ xs) ys h = ground (arith, index-append x xs ys)

pub index-lt : (x : String) (xs : List String) → elem x xs ≡ true → index x xs < length xs
index-lt x [] h = ground (arith, h)
index-lt x (y ∷ ys) h = ground (arith, index-lt x ys)

pub index-snoc :
    (x : String) (xs : List String) → elem x xs ≡ false → index x (xs ++ x ∷ []) ≡ length xs
index-snoc x [] h = ground (arith, eq_refl x)
index-snoc x (y ∷ ys) h = ground (arith, index-snoc x ys)

pub index-missing : (x : String) (xs : List String) → elem x xs ≡ false → index x xs ≡ length xs
index-missing x [] h = refl
index-missing x (y ∷ ys) h = ground (arith, index-missing x ys)

-- Rows by a text field.
module _ {A : Type 0} (key : A → String) where
  pub elem-map-filter :
      (p : A → Bool) (k : String) (rows : List A)
      → elem k (map key rows) ≡ false
      → elem k (map key (filter p rows)) ≡ false
  elem-map-filter p k [] h = refl
  elem-map-filter p k (x ∷ rows) h = ground (arith, h, elem-map-filter p k rows)

  pub Nodup-map-filter :
      (p : A → Bool) (rows : List A) → Nodup (map key rows) → Nodup (map key (filter p rows))
  Nodup-map-filter p [] h = tt
  Nodup-map-filter p (x ∷ rows) h = elim (Bool-cases (p x)) [
    | inl stays ↦ rw stays (elem-map-filter p (key x) rows h.0, Nodup-map-filter p rows h.1)
    | inr goes ↦ rw goes (Nodup-map-filter p rows h.1)
  ]

  pub find-unlisted :
      (k : String) (rows : List A)
      → find (λ x. key x == k) rows ≡ none
      → elem k (map key rows) ≡ false
  find-unlisted k [] h = refl
  find-unlisted k (x ∷ rows) h = elim (Bool-cases (key x == k)) [
    | inl same ↦ absurd (let e : ⊥ = ground (arith, same, h) in e)
    | inr other ↦
        ground (arith, differs (key x) k other, find-unlisted k rows (ground (arith, other, h)))
  ]

pub eq_sym : (a b : String) → (a == b) ≡ (b == a)
eq_sym a b = elim (Bool-cases (a == b)) [
  | inl same ↦ ground (arith, same, eq_refl b, ap (λ t. b == t) ((eq_iff a b).0 same))
  | inr other ↦ ground (arith, other, differs a b other)
]
