-- ===== src/Action.antt =====
-- Fallible, stateful code: error.rs, and the actions of the services. What was written before an
-- error stays written, so an action returns the state beside the error too.
pub mod Post
pub mod Keeps
use serverust_less.Prelude.{◌≡◌, refl, ◌⊎◌, inl, inr, String, Option, none, some, List, [], ◌∷◌}

-- The application's errors, each with its message.
pub data AppError : Type 0 where
  not_found bad_request validation db_error internal conflict : String → AppError

-- The HTTP status and the error type of a response.
abbrev pub into_response : AppError → String × String
into_response (not_found m) = ("404", "not_found")
into_response (bad_request m) = ("400", "bad_request")
into_response (validation m) = ("422", "validation_error")
into_response (db_error m) = ("500", "database_error")
into_response (internal m) = ("500", "internal_error")
into_response (conflict m) = ("409", "conflict")

pub data Result {ℓ} (A : Type ℓ) : Type ℓ where
  ok : A → Result A
  err : AppError → Result A

abbrev pub ok_or {ℓ} : {A : Type ℓ} → Option A → AppError → Result A
ok_or none e = err e
ok_or (some a) e = ok a

abbrev pub Action {ℓ} : Type ℓ → Type ℓ → Type ℓ
Action S A = S → Result A × S

module _ {ℓ} {S A : Type ℓ} where
  abbrev pub pure : A → Action S A
  pure a s = (ok a, s)

  abbrev pub throw : AppError → Action S A
  throw e s = (err e, s)

  abbrev pub lift : Result A → Action S A
  lift r s = (r, s)

  abbrev pub gets : (S → A) → Action S A
  gets f s = (ok (f s), s)

  -- `.map_err(f)`
  abbrev recast : (AppError → AppError) → Result A × S → Result A × S
  recast f (ok a, s) = (ok a, s)
  recast f (err e, s) = (err (f e), s)

  abbrev pub map_err : (AppError → AppError) → Action S A → Action S A
  map_err f m s = recast f (m s)

module _ {ℓ} {S A B : Type ℓ} where
  abbrev continue : Result A × S → (A → Action S B) → Result B × S
  continue (ok a, s) f = f a s
  continue (err e, s) f = (err e, s)

  infixl 10 ◌>>=◌ ◌>>◌
  abbrev pub ◌>>=◌ : Action S A → (A → Action S B) → Action S B
  ◌>>=◌ m f s = continue (m s) f

  abbrev pub ◌>>◌ : Action S A → Action S B → Action S B
  m >> n = m >>= λ _. n

  -- `match m.await { Ok(a) => f(a), Err(e) => g(e) }`
  abbrev choose : Result A × S → (A → Action S B) → (AppError → Action S B) → Result B × S
  choose (ok a, s) f g = f a s
  choose (err e, s) f g = g e s

  abbrev pub try_or : Action S A → (A → Action S B) → (AppError → Action S B) → Action S B
  try_or m f g s = choose (m s) f g

-- `for a in items { f(a).await?; }`
unfoldable pub for_each {ℓ} : {S A : Type ℓ} → (A → Action S Unit) → List A → Action S Unit
for_each f [] = pure tt
for_each f (a ∷ items) = f a >> for_each f items

pub Result-cases {ℓ} :
    {A : Type ℓ} (r : Result A) → ((a : A) × (r ≡ ok a)) ⊎ ((e : AppError) × (r ≡ err e))
Result-cases (ok a) = inl (a, refl)
Result-cases (err e) = inr (e, refl)
