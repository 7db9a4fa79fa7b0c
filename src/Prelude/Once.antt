-- ===== src/Prelude/Once.antt =====
-- Lists in which at most one element passes a test.
use mathlib.Core.Path.{◌≡◌, refl}
use mathlib.Core.Logic.{inl, inr}
use mathlib.Core.Bool.{Bool, true, false, not, ◌&&◌, ◌||◌}
use mathlib.Core.List.{List, [], ◌∷◌, ◌++◌, map}
use mathlib.Core.Option.{none, some}
use native.Mathlib.Omega.{arith}
use serverust_less.Prelude.Tests.{Bool-cases}
use serverust_less.Prelude.Lists.{any, find, filter, All}

module _ {ℓ} {A : Type ℓ} where
  abbrev pub AtMostOne : (A → Bool) → List A → Type 0
  AtMostOne p [] = Unit
  AtMostOne p (x ∷ xs) = ((p x && any p xs) ≡ false) × AtMostOne p xs

  pub find-missing : (p : A → Bool) (xs : List A) → find p xs ≡ none → any p xs ≡ false
  find-missing p [] h = refl
  find-missing p (x ∷ xs) h = elim (Bool-cases (p x)) [
    | inl pass ↦ absurd (let e : ⊥ = ground (arith, pass, h) in e)
    | inr fail ↦ ground (arith, fail, find-missing p xs (ground (arith, fail, h)))
  ]

  any-filtered : (p q : A → Bool) (xs : List A) → any p xs ≡ false → any p (filter q xs) ≡ false
  any-filtered p q [] h = refl
  any-filtered p q (x ∷ xs) h = ground (arith, any-filtered p q xs)

  pub AtMostOne-filter : (p q : A → Bool) (xs : List A) → AtMostOne p xs → AtMostOne p (filter q xs)
  AtMostOne-filter p q [] h = tt
  AtMostOne-filter p q (x ∷ xs) h = elim (Bool-cases (q x)) [
    | inl stays ↦ rw stays (ground (arith, h.0, any-filtered p q xs), AtMostOne-filter p q xs h.1)
    | inr goes ↦ rw goes (AtMostOne-filter p q xs h.1)
  ]

  -- A change that keeps what the test tells.
  pub any-map :
      (p : A → Bool) (f : A → A)
      → ((a : A) → p (f a) ≡ p a)
      → (xs : List A) → any p (map f xs) ≡ any p xs
  any-map p f keeps [] = refl
  any-map p f keeps (x ∷ xs) = ground (arith, keeps x, any-map p f keeps xs)

  pub AtMostOne-map :
      (p : A → Bool) (f : A → A)
      → ((a : A) → p (f a) ≡ p a)
      → (xs : List A) → AtMostOne p xs
      → AtMostOne p (map f xs)
  AtMostOne-map p f keeps [] h = tt
  AtMostOne-map p f keeps (x ∷ xs) h =
      (ground (arith, keeps x, any-map p f keeps xs, h.0), AtMostOne-map p f keeps xs h.1)

  pub any-append : (p : A → Bool) (xs ys : List A) → any p (xs ++ ys) ≡ (any p xs || any p ys)
  any-append p [] ys = refl
  any-append p (x ∷ xs) ys = ground (arith, any-append p xs ys)

  pub AtMostOne-snoc :
      (p : A → Bool) (xs : List A) (y : A)
      → AtMostOne p xs
      → (p y && any p xs) ≡ false
      → AtMostOne p (xs ++ y ∷ [])
  AtMostOne-snoc p [] y h fresh = (ground arith, tt)
  AtMostOne-snoc p (x ∷ xs) y h fresh = (
    ground (arith, any-append p xs (y ∷ []), h.0, fresh),
    AtMostOne-snoc p xs y h.1 (ground (arith, fresh)),
  )

  -- What fails the other test at the element that passes the first fails it wherever that passes.
  pub AtMostOne-apart :
      (p q : A → Bool) (xs : List A) {x : A}
      → AtMostOne p xs
      → find p xs ≡ some x
      → q x ≡ false
      → All (λ y. (not (q y) || not (p y)) ≡ true) xs
  AtMostOne-apart p q [] h found fails = tt
  AtMostOne-apart p q (y ∷ ys) {x} h found fails = elim (Bool-cases (p y)) [
    | inl here ↦ (ground (arith, here, found, fails), passes_none ys (ground (arith, here, h.0)))
    | inr later ↦
        (ground (arith, later), AtMostOne-apart p q ys h.1 (ground (arith, later, found)) fails)
  ]
    where
      passes_none : (zs : List A) → any p zs ≡ false → All (λ z. (not (q z) || not (p z)) ≡ true) zs
      passes_none [] none_pass = tt
      passes_none (z ∷ zs) none_pass =
          (ground (arith, none_pass), passes_none zs (ground (arith, none_pass)))

  -- A filter that lets all that pass through.
  pub any-filter_kept :
      (p q : A → Bool) (xs : List A)
      → All (λ y. (not (p y) || q y) ≡ true) xs
      → any p (filter q xs) ≡ any p xs
  any-filter_kept p q [] h = refl
  any-filter_kept p q (x ∷ xs) h = ground (arith, h.0, any-filter_kept p q xs h.1)

  -- After a change, the elements that pass all passed another test before, which at most one does.
  pub AtMostOne-rewritten :
      (p q : A → Bool) (f : A → A) (xs : List A)
      → All (λ x. (not (q (f x)) || p x) ≡ true) xs
      → AtMostOne p xs
      → AtMostOne q (map f xs)
  AtMostOne-rewritten p q f [] h once = tt
  AtMostOne-rewritten p q f (x ∷ xs) h once =
      (ground (arith, h.0, once.0, any-rewritten xs h.1), AtMostOne-rewritten p q f xs h.1 once.1)
    where
      any-rewritten :
          (ys : List A)
          → All (λ y. (not (q (f y)) || p y) ≡ true) ys
          → (not (any q (map f ys)) || any p ys) ≡ true
      any-rewritten [] all = refl
      any-rewritten (y ∷ ys) all = ground (arith, all.0, any-rewritten ys all.1)
