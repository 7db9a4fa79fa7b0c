-- ===== src/Prelude/Sort.antt =====
-- SQL's `ORDER BY` as a stable insertion sort, and the extraction of a greatest element.
use mathlib.Core.List.{Perm}
use mathlib.Core.List.Perm
use mathlib.Core.Path.{◌≡◌, refl}
use mathlib.Core.Logic.{inl, inr}
use mathlib.Core.Bool.{Bool, false, ◌||◌}
use mathlib.Core.Option.{Option, none, some}
use mathlib.Core.List.{List, [], ◌∷◌}
use Prim.Native.Nat.{Ordering, suc}
use native.Mathlib.Omega.{arith}
use serverust_less.Prelude.Tests.{if◌then◌else◌, Option-cases, Bool-cases}
use serverust_less.Prelude.Lists.{All, any, head?, length}
use serverust_less.Prelude.Compare.{IsOrder, is_lt, not_lt_self, not_lt_flip, not_lt_trans}

module _ {ℓ} {A : Type ℓ} (cmp : A → A → Ordering) where
  -- An element goes before those that are not smaller: equal elements keep their order.
  pub insert_sorted : A → List A → List A
  insert_sorted x [] = x ∷ []
  insert_sorted x (y ∷ ys) =
      let later = y ∷ insert_sorted x ys in if is_lt (cmp y x) then later else x ∷ y ∷ ys

  unfoldable pub order_by : List A → List A
  unfolding insert_sorted
  order_by [] = []
  order_by (x ∷ xs) = insert_sorted x (order_by xs)

  -- A greatest element and the others; the earliest of equal ones.
  unfoldable pub extract_max : List A → Option (A × List A)
  extract_max [] = none
  extract_max (x ∷ xs) = elim (extract_max xs) [
    | none ↦ some (x, xs)
    | some (m, rest) ↦ if is_lt (cmp x m) then some (m, x ∷ rest) else some (x, xs)
  ]

module _ {ℓ} {A : Type ℓ} (cmp : A → A → Ordering) where
  insert_sorted-perm : (x : A) (ys : List A) → Perm (insert_sorted cmp x ys) (x ∷ ys)
  unfolding insert_sorted
  insert_sorted-perm x [] = Perm.refl _
  insert_sorted-perm x (y ∷ ys) = elim (Bool-cases (is_lt (cmp y x))) [
    | inl e ↦ rw e (Perm.trans (Perm.cons y (insert_sorted-perm x ys)) (Perm.swap x y ys))
    | inr e ↦ rw e (Perm.refl _)
  ]

  All-insert_sorted {κ} :
      (P : A → Type κ) (x : A) (ys : List A) → All P (insert_sorted cmp x ys) → P x × All P ys
  unfolding insert_sorted
  All-insert_sorted P x [] h = h
  All-insert_sorted P x (y ∷ ys) h = elim (Bool-cases (is_lt (cmp y x))) [
    | inl e ↦
        let h' : P y × All P (insert_sorted cmp x ys) = rw e at h in
        let rest = All-insert_sorted P x ys h'.1 in (rest.0, (h'.0, rest.1))
    | inr e ↦ let h' : P x × All P (y ∷ ys) = rw e at h in h'
  ]

  -- What holds of all of the sorted list holds of all of the list.
  pub order_by-All {κ} : (P : A → Type κ) (xs : List A) → All P (order_by cmp xs) → All P xs
  unfolding order_by
  order_by-All P [] h = tt
  order_by-All P (x ∷ xs) h =
      let parts = All-insert_sorted P x (order_by cmp xs) h in (parts.0, order_by-All P xs parts.1)

  pub order_by-perm : (xs : List A) → Perm (order_by cmp xs) xs
  unfolding order_by
  order_by-perm [] = Perm.refl _
  order_by-perm (x ∷ xs) =
      Perm.trans (insert_sorted-perm x (order_by cmp xs)) (Perm.cons x (order_by-perm xs))

  -- Nothing in the list is greater than `m`; nothing is smaller.
  abbrev pub Greatest : A → List A → Type 0
  Greatest m = All (λ y. is_lt (cmp m y) ≡ false)

  abbrev pub Least : A → List A → Type 0
  Least m = All (λ y. is_lt (cmp y m) ≡ false)

  pub extract_max-none : (xs : List A) → extract_max cmp xs ≡ none → xs ≡ []
  unfolding extract_max
  extract_max-none [] e = refl
  extract_max-none (x ∷ xs) e = ground (arith, Option-cases (extract_max cmp xs))

  -- What is extracted and what is left make up the list.
  pub extract_max-perm :
      (xs : List A) {m : A} {rest : List A}
      → extract_max cmp xs ≡ some (m, rest)
      → Perm xs (m ∷ rest)
  unfolding extract_max
  extract_max-perm [] e = cc
  extract_max-perm (x ∷ xs) {m} {rest} e = elim (Option-cases (extract_max cmp xs)) [
    | inl none_left ↦ ground (arith, Perm.refl (x ∷ xs))
    | inr ((k, others), found) ↦ ground (
      arith,
      Perm.refl (x ∷ xs),
      Perm.trans (Perm.cons x (extract_max-perm xs found)) (Perm.swap k x others),
    )
  ]

  pub length-extract_max :
      (xs : List A) {m : A} {rest : List A}
      → extract_max cmp xs ≡ some (m, rest)
      → length xs ≡ suc (length rest)
  unfolding extract_max
  length-extract_max [] e = cc
  length-extract_max (x ∷ xs) {m} {rest} e = elim (Option-cases (extract_max cmp xs)) [
    | inl none_left ↦ ground arith
    | inr ((k, others), found) ↦ ground (arith, length-extract_max xs found)
  ]

module _ {ℓ} {A : Type ℓ} {cmp : A → A → Ordering} (order : IsOrder cmp) where
  Greatest-mono :
      (m n : A) (xs : List A) → is_lt (cmp m n) ≡ false → Greatest cmp n xs → Greatest cmp m xs
  Greatest-mono m n [] h g = tt
  Greatest-mono m n (x ∷ xs) h g = (not_lt_trans order m n x h g.0, Greatest-mono m n xs h g.1)

  -- What is extracted is greatest.
  pub extract_max-Greatest :
      (xs : List A) {m : A} {rest : List A}
      → extract_max cmp xs ≡ some (m, rest)
      → Greatest cmp m xs
  unfolding extract_max
  extract_max-Greatest [] e = tt
  extract_max-Greatest (x ∷ xs) {m} {rest} e = elim (Option-cases (extract_max cmp xs)) [
    | inl none_left ↦ ground (arith, extract_max-none cmp xs none_left, not_lt_self order x)
    | inr ((k, others), found) ↦ ground (
      arith,
      extract_max-Greatest xs found,
      Greatest-mono x k xs,
      not_lt_flip order x k,
      not_lt_self order x,
    )
  ]

  Least-mono : (m n : A) (xs : List A) → is_lt (cmp n m) ≡ false → Least cmp n xs → Least cmp m xs
  Least-mono m n [] h g = tt
  Least-mono m n (x ∷ xs) h g = (not_lt_trans order x n m g.0 h, Least-mono m n xs h g.1)

  insert_sorted-Least :
      (x m : A) (ys : List A)
      → is_lt (cmp x m) ≡ false
      → Least cmp m ys
      → Least cmp m (insert_sorted cmp x ys)
  unfolding insert_sorted
  insert_sorted-Least x m [] h l = (h, tt)
  insert_sorted-Least x m (y ∷ ys) h l = ground (arith, insert_sorted-Least x m ys h l.1)

  head-insert_sorted :
      (x : A) (ys : List A) {m : A}
      → (head? (insert_sorted cmp x ys) ≡ some m)
      → ((y : A) → head? ys ≡ some y → Least cmp y ys)
      → Least cmp m (insert_sorted cmp x ys)
  unfolding insert_sorted
  head-insert_sorted x [] e h = ground (arith, not_lt_self order x)
  head-insert_sorted x (y ∷ ys) {m} e h = elim (Bool-cases (is_lt (cmp y x))) [
    | inl below ↦ ground (arith, h y refl, insert_sorted-Least x y ys, not_lt_flip order y x)
    | inr above ↦ ground (arith, h y refl, Least-mono x y ys, not_lt_self order x)
  ]

  -- Nothing in a sorted list is smaller than its head.
  pub head-order_by :
      (xs : List A) {m : A} → head? (order_by cmp xs) ≡ some m → Least cmp m (order_by cmp xs)
  unfolding order_by
  head-order_by [] e = tt
  head-order_by (x ∷ xs) e = head-insert_sorted x (order_by cmp xs) e (λ y h. head-order_by xs h)

-- A test that fails on all of a list fails on all of it sorted, and on what is extracted.
module _ {ℓ} {A : Type ℓ} (cmp : A → A → Ordering) (p : A → Bool) where
  insert_sorted-fails :
      (x : A) (ys : List A)
      → p x ≡ false
      → All (λ y. p y ≡ false) ys
      → All (λ y. p y ≡ false) (insert_sorted cmp x ys)
  unfolding insert_sorted
  insert_sorted-fails x [] hx h = (hx, tt)
  insert_sorted-fails x (y ∷ ys) hx h = ground (arith, insert_sorted-fails x ys hx h.1)

  pub order_by-fails :
      (xs : List A) → All (λ y. p y ≡ false) xs → All (λ y. p y ≡ false) (order_by cmp xs)
  unfolding order_by
  order_by-fails [] h = tt
  order_by-fails (x ∷ xs) h = insert_sorted-fails x (order_by cmp xs) h.0 (order_by-fails xs h.1)

  pub extract_max-fails :
      (xs : List A) {m : A} {rest : List A}
      → extract_max cmp xs ≡ some (m, rest)
      → All (λ y. p y ≡ false) xs
      → p m ≡ false
  unfolding extract_max
  extract_max-fails [] e h = cc
  extract_max-fails (x ∷ xs) e h = elim (Option-cases (extract_max cmp xs)) [
    | inl none_left ↦ ground (arith, h.0)
    | inr ((k, others), found) ↦ ground (arith, h.0, extract_max-fails xs found h.1)
  ]

  insert_sorted-any : (x : A) (ys : List A) → any p (insert_sorted cmp x ys) ≡ (p x || any p ys)
  unfolding insert_sorted
  insert_sorted-any x [] = ground arith
  insert_sorted-any x (y ∷ ys) = ground (arith, insert_sorted-any x ys)

  pub any-order_by : (xs : List A) → any p (order_by cmp xs) ≡ any p xs
  unfolding order_by
  any-order_by [] = refl
  any-order_by (x ∷ xs) = ground (arith, insert_sorted-any x (order_by cmp xs), any-order_by xs)
