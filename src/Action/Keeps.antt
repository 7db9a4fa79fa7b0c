-- ===== src/Action/Keeps.antt =====
-- What an action keeps of the state, whether it fails or not.
use serverust_less.Prelude.{◌≡◌, arith, List, [], ◌∷◌}
use serverust_less.Action.{
  Action, pure, ◌>>◌, AppError, Result, ok, err, ◌>>=◌, try_or, for_each, continue, choose,
}

module _ {S : Type 0} (P : S → Type 0) where
  abbrev pub Keeps : {A : Type 0} → Action S A → Type 0
  Keeps m = (s : S) → P s → P (m s).1

  continue-Keeps :
      {A B : Type 0} (x : Result A × S) (f : A → Action S B)
      → P x.1
      → ((a : A) (s : S) → P s → P (f a s).1)
      → P (continue x f).1
  continue-Keeps (ok a, s) f h k = k a s h
  continue-Keeps (err e, s) f h k = h

  pub bind-Keeps :
      {A B : Type 0} (m : Action S A) (f : A → Action S B)
      → ((s : S) → P s → P (m s).1)
      → ((a : A) (s : S) → P s → P (f a s).1)
      → (s : S) → P s
      → P ((m >>= f) s).1
  bind-Keeps m f h k s p = continue-Keeps (m s) f (h s p) k

  choose-Keeps :
      {A B : Type 0} (x : Result A × S) (f : A → Action S B) (g : AppError → Action S B)
      → P x.1
      → ((a : A) (s : S) → P s → P (f a s).1)
      → ((e : AppError) (s : S) → P s → P (g e s).1)
      → P (choose x f g).1
  choose-Keeps (ok a, s) f g h k l = k a s h
  choose-Keeps (err e, s) f g h k l = l e s h

  pub try_or-Keeps :
      {A B : Type 0} (m : Action S A) (f : A → Action S B) (g : AppError → Action S B)
      → ((s : S) → P s → P (m s).1)
      → ((a : A) (s : S) → P s → P (f a s).1)
      → ((e : AppError) (s : S) → P s → P (g e s).1)
      → (s : S) → P s
      → P (try_or m f g s).1
  try_or-Keeps m f g h k l s p = choose-Keeps (m s) f g (h s p) k l

  pub for_each-Keeps :
      {A : Type 0} (f : A → Action S Unit)
      → ((a : A) (s : S) → P s → P (f a s).1)
      → (items : List A) (s : S) → P s
      → P (for_each f items s).1
  unfolding for_each
  for_each-Keeps f h [] s p = p
  for_each-Keeps f h (a ∷ items) s p =
      bind-Keeps (f a) (λ _. for_each f items) (h a) (λ _ t q. for_each-Keeps f h items t q) s p

-- What holds of the result, from whatever state the action starts.
module _ {S : Type 0} where
  continue-Result :
      {A B : Type 0} (Q : Result A → Type 0) (R : Result B → Type 0) (x : Result A × S)
      (f : A → Action S B)
      → Q x.0
      → ((a : A) (s : S) → Q (ok a) → R (f a s).0)
      → ((e : AppError) → Q (err e) → R (err e))
      → R (continue x f).0
  continue-Result Q R (ok a, s) f q next fails = next a s q
  continue-Result Q R (err e, s) f q next fails = fails e q

  pub bind-Result :
      {A B : Type 0} (Q : Result A → Type 0) (R : Result B → Type 0) (m : Action S A)
      (f : A → Action S B) (s : S)
      → Q (m s).0
      → ((a : A) (s : S) → Q (ok a) → R (f a s).0)
      → ((e : AppError) → Q (err e) → R (err e))
      → R ((m >>= f) s).0
  bind-Result Q R m f s = continue-Result Q R (m s) f

  choose-Result :
      {A B : Type 0} (R : Result B → Type 0) (x : Result A × S) (f : A → Action S B)
      (g : AppError → Action S B)
      → ((a : A) (s : S) → R (f a s).0)
      → ((e : AppError) (s : S) → R (g e s).0)
      → R (choose x f g).0
  choose-Result R (ok a, s) f g goes fails = goes a s
  choose-Result R (err e, s) f g goes fails = fails e s

  pub try_or-Result :
      {A B : Type 0} (R : Result B → Type 0) (m : Action S A) (f : A → Action S B)
      (g : AppError → Action S B)
      → ((a : A) (s : S) → R (f a s).0)
      → ((e : AppError) (s : S) → R (g e s).0)
      → (s : S) → R (try_or m f g s).0
  try_or-Result R m f g goes fails s = choose-Result R (m s) f g goes fails

  -- Going on with nothing more keeps the state.
  pub pure-state : {A : Type 0} (m : Action S A) (s : S) → ((m >> pure tt) s).1 ≡ (m s).1
  pure-state m s = ground arith
