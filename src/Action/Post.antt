-- ===== src/Action/Post.antt =====
-- What an action leaves: one condition on the state after a result, one after an error. The rules follow
-- the ways in which actions are composed.
use serverust_less.Prelude.{◌≡◌, refl, subst, List, [], ◌∷◌}
use serverust_less.Action.{Action, Result, ok, err, ◌>>=◌, for_each}

module _ {S : Type 0} (Failed : S → Type 0) where
  abbrev pub Post : {A : Type 0} → (A → S → Type 0) → Result A × S → Type 0
  Post Done (ok a, s) = Done a s
  Post Done (err e, s) = Failed s

  pub bind-Post :
      {A B : Type 0} (Done : A → S → Type 0) (Next : B → S → Type 0) (m : Action S A)
      (f : A → Action S B) (s : S)
      → Post Done (m s)
      → ((a : A) (t : S) → Done a t → Post Next (f a t))
      → Post Next ((m >>= f) s)
  bind-Post {A} {B} Done Next m f s h g = go (m s) h
    where
      go : (x : Result A × S) → Post Done x → Post Next (((λ _. x) >>= f) s)
      go (ok a, t) h' = g a t h'
      go (err e, t) h' = h'

  -- A loop, by what holds with a list of items left.
  pub for_each-Post :
      {A : Type 0} (Left : List A → S → Type 0) (f : A → Action S Unit)
      → ((a : A) (todo : List A) (s : S) → Left (a ∷ todo) s → Post (λ _. Left todo) (f a s))
      → (items : List A) (s : S) → Left items s
      → Post (λ _. Left []) (for_each f items s)
  unfolding for_each
  for_each-Post Left f h [] s start = start
  for_each-Post {A} Left f h (a ∷ items) s start =
      bind-Post (λ _. Left items) (λ _. Left []) (f a) (λ _. for_each f items) s (h a items s start)
        (λ u t next. for_each-Post Left f h items t next)

  -- What holds of the state after both.
  pub always-Post :
      {A : Type 0} (Done : S → Type 0) (x : Result A × S)
      → Failed x.1
      → Done x.1
      → Post (λ _. Done) x
  always-Post Done (ok a, s) f d = d
  always-Post Done (err e, s) f d = f

  pub state-Post : {A : Type 0} (x : Result A × S) → Post (λ (a : A). Failed) x → Failed x.1
  state-Post (ok a, s) h = h
  state-Post (err e, s) h = h

  pub result-Post :
      {A : Type 0} (Done : A → S → Type 0) (x : Result A × S)
      → Failed x.1
      → ((a : A) → x.0 ≡ ok a → Done a x.1)
      → Post Done x
  result-Post Done (ok a, s) f d = d a refl
  result-Post Done (err e, s) f d = f

  pub weaken-Post :
      {A : Type 0} (Done Done' : A → S → Type 0) (x : Result A × S)
      → ((a : A) (t : S) → Done a t → Done' a t)
      → Post Done x
      → Post Done' x
  weaken-Post Done Done' (ok a, s) h d = h a s d
  weaken-Post Done Done' (err e, s) h d = d

  -- What a result is known to leave.
  pub done-Post :
      {A : Type 0} (Done : A → S → Type 0) (x : Result A × S) {a : A}
      → x.0 ≡ ok a
      → Post Done x
      → Done a x.1
  done-Post Done (ok b, s) {a} is d = subst (λ c. Done c s) (let e : b ≡ a = cc in e) d
  done-Post Done (err e, s) is d = absurd (let e : ⊥ = cc in e)
