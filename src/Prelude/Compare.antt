-- ===== src/Prelude/Compare.antt =====
-- Comparison functions into `Ordering`, their lexicographic combination, and the laws of a total
-- preorder: what sorting and the heap need of Rust's `Ord` and of SQL's `ORDER BY`.
use Prim.Native.Nat.{compare, Ordering}
use Prim.Native.String.{String, [], ◌∷◌, compare as compare_text}
use Prim.Native.String.compare.{nil-nil, nil-cons, cons-nil, cons-cons}
use text.Mathlib.TextEquality.{path_by_compare}
use mathlib.Core.Path.{◌≡◌, refl, ap}
use mathlib.Core.Bool.{Bool, true, false}
use native.Mathlib.Omega.{arith}
use serverust_less.Prelude.Int.{compare_ℤ}

abbrev pub swap : Ordering → Ordering
swap Ordering.lt = Ordering.gt
swap Ordering.eq = Ordering.eq
swap Ordering.gt = Ordering.lt

-- Rust's `then_with`: the second answer where the first is equality.
abbrev pub then_with : Ordering → Ordering → Ordering
then_with Ordering.lt o = Ordering.lt
then_with Ordering.eq o = o
then_with Ordering.gt o = Ordering.gt

abbrev pub is_lt : Ordering → Bool
is_lt Ordering.lt = true
is_lt _ = false

-- A comparison function of a total preorder.
pub record IsOrder {ℓ} {A : Type ℓ} (cmp : A → A → Ordering) : Type ℓ where
  pub flip : (a b : A) → cmp b a ≡ swap (cmp a b)
  pub eq_left : (a b c : A) → cmp a b ≡ Ordering.eq → cmp a c ≡ cmp b c
  pub lt_trans : (a b c : A) → cmp a b ≡ Ordering.lt → cmp b c ≡ Ordering.lt → cmp a c ≡ Ordering.lt

pub compare-IsOrder : IsOrder compare
compare-IsOrder = record {
  flip = λ a b. ground arith;
  eq_left = λ a b c h. ground arith;
  lt_trans = λ a b c h k. ground arith;
}

pub compare_ℤ-IsOrder : IsOrder compare_ℤ
compare_ℤ-IsOrder = record {
  flip = λ a b. ground arith;
  eq_left = λ a b c h. ground arith;
  lt_trans = λ a b c h k. ground arith;
}

text_flip : (s t : String) → compare_text t s ≡ swap (compare_text s t)
text_flip [] [] = rw nil-nil refl
text_flip [] (d ∷ t) = ground (arith, nil-cons d t, cons-nil d t)
text_flip (c ∷ s) [] = ground (arith, nil-cons c s, cons-nil c s)
text_flip (c ∷ s) (d ∷ t) = ground (arith, cons-cons c d s t, cons-cons d c t s, text_flip s t)

text_eq_left :
    (s t u : String) → compare_text s t ≡ Ordering.eq → compare_text s u ≡ compare_text t u
text_eq_left s t u h = ap (λ v. compare_text v u) (path_by_compare s t h)

text_lt_trans :
    (s t u : String)
    → compare_text s t ≡ Ordering.lt
    → compare_text t u ≡ Ordering.lt
    → compare_text s u ≡ Ordering.lt
text_lt_trans s [] [] h k = ground (arith, nil-nil)
text_lt_trans [] [] (e ∷ u) h k = ground (arith, nil-nil)
text_lt_trans (c ∷ s) [] (e ∷ u) h k = ground (arith, cons-nil c s)
text_lt_trans s (d ∷ t) [] h k = ground (arith, cons-nil d t)
text_lt_trans [] (d ∷ t) (e ∷ u) h k = nil-cons e u
text_lt_trans (c ∷ s) (d ∷ t) (e ∷ u) h k =
    ground (arith, cons-cons c d s t, cons-cons d e t u, cons-cons c e s u, text_lt_trans s t u)

pub compare_text-IsOrder : IsOrder compare_text
compare_text-IsOrder = record { flip = text_flip; eq_left = text_eq_left; lt_trans = text_lt_trans }

-- The order by two keys, the first one first.
module _ {ℓ} {A : Type ℓ} {f g : A → A → Ordering} where
  pub then_with-IsOrder : IsOrder f → IsOrder g → IsOrder (λ a b. then_with (f a b) (g a b))
  then_with-IsOrder p q = record {
    flip = λ a b. ground (arith, p.flip a b, q.flip a b);
    eq_left = λ a b c h. ground (arith, p.eq_left a b c, q.eq_left a b c);
    lt_trans = λ a b c h k. ground (
      arith,
      p.lt_trans a b c,
      q.lt_trans a b c,
      p.eq_left a b c,
      p.flip a b,
      p.flip b c,
      p.flip a c,
      p.eq_left c b a,
    );
  }

-- The order of a key, and the reverse of an order.
module _ {ℓ κ} {A : Type ℓ} {B : Type κ} {f : B → B → Ordering} where
  pub key-IsOrder : (key : A → B) → IsOrder f → IsOrder (λ a b. f (key a) (key b))
  key-IsOrder key p = record {
    flip = λ a b. p.flip (key a) (key b);
    eq_left = λ a b c. p.eq_left (key a) (key b) (key c);
    lt_trans = λ a b c. p.lt_trans (key a) (key b) (key c);
  }

module _ {ℓ} {A : Type ℓ} {f : A → A → Ordering} where
  pub reverse-IsOrder : IsOrder f → IsOrder (λ a b. f b a)
  reverse-IsOrder p = record {
    flip = λ a b. p.flip b a;
    eq_left = λ a b c h. ground (arith, p.flip a b, p.flip a c, p.flip b c, p.eq_left a b c);
    lt_trans = λ a b c h k. p.lt_trans c b a k h;
  }

module _ {ℓ} {A : Type ℓ} {f : A → A → Ordering} (order : IsOrder f) where
  pub not_lt_self : (a : A) → is_lt (f a a) ≡ false
  not_lt_self a = ground (arith, order.flip a a)

  pub not_lt_flip : (a b : A) → is_lt (f a b) ≡ true → is_lt (f b a) ≡ false
  not_lt_flip a b h = ground (arith, order.flip a b)

  pub not_lt_trans :
      (a b c : A) → is_lt (f a b) ≡ false → is_lt (f b c) ≡ false → is_lt (f a c) ≡ false
  not_lt_trans a b c h k = ground (arith, order.flip a b, order.eq_left a b c, order.lt_trans b a c)
