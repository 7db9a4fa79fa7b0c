-- ===== src/Packages/Cache.antt =====
-- The table of installed packages: one row for a package at a version in a venv, also for the main
-- venv, whose rows the UNIQUE of the table does not tell apart.
use serverust_less.Prelude.{
  ◌≡◌, refl, subst, ◌∙◌, inl, inr, Bool, false, String, Option, none, some, List, [], ◌∷◌, ◌++◌,
  map, any, filter, ◌==◌, eq_sym, arith, Bool-cases, Option-cases,
}
use serverust_less.Model.Package.{PackageCache}
use serverust_less.Db.{System}
use serverust_less.Db.PackageRepository.{same_cache, in_venv, refresh, upsert_cache, delete_cache}

abbrev pub IsUnique : List PackageCache → Type 0
IsUnique [] = Unit
IsUnique (row ∷ rows) = (any (same_cache row) rows ≡ false) × IsUnique rows

in_venv-sym : (a b : Option String) → in_venv a b ≡ in_venv b a
in_venv-sym none none = refl
in_venv-sym none (some b) = refl
in_venv-sym (some a) none = refl
in_venv-sym (some a) (some b) = eq_sym b a

same_cache-sym : (a b : PackageCache) → same_cache a b ≡ same_cache b a
same_cache-sym a b = ground (
  arith,
  eq_sym a.venv_type b.venv_type,
  in_venv-sym a.venv_id b.venv_id,
  eq_sym a.package_name b.package_name,
  eq_sym a.version b.version,
)

-- A refreshed row keeps its key.
same_cache-refresh : (r c x : PackageCache) → same_cache r (refresh c x) ≡ same_cache r x
same_cache-refresh r c x = elim (Option-cases c.venv_id) [
  | inl main ↦ rw main (ground arith)
  | inr (id, custom) ↦ rw custom (ground arith)
]

refresh-same_cache : (r c x : PackageCache) → same_cache (refresh c r) x ≡ same_cache r x
refresh-same_cache r c x =
    same_cache-sym (refresh c r) x ∙ same_cache-refresh x c r ∙ same_cache-sym x r

any-refresh :
    (r c : PackageCache) (rows : List PackageCache)
    → any (same_cache (refresh c r)) (map (refresh c) rows) ≡ any (same_cache r) rows
any-refresh r c [] = refl
any-refresh r c (x ∷ rows) =
    ground
      (arith, refresh-same_cache r c (refresh c x), same_cache-refresh r c x, any-refresh r c rows)

refresh-IsUnique :
    (c : PackageCache) (rows : List PackageCache) → IsUnique rows → IsUnique (map (refresh c) rows)
refresh-IsUnique c [] h = tt
refresh-IsUnique c (r ∷ rows) h = (any-refresh r c rows ∙ h.0, refresh-IsUnique c rows h.1)

any-snoc :
    (r c : PackageCache) (rows : List PackageCache)
    → any (same_cache r) rows ≡ false
    → same_cache r c ≡ false
    → any (same_cache r) (rows ++ c ∷ []) ≡ false
any-snoc r c [] h other = ground (arith, other)
any-snoc r c (x ∷ rows) h other = ground (arith, any-snoc r c rows, other)

append-IsUnique :
    (c : PackageCache) (rows : List PackageCache)
    → any (same_cache c) rows ≡ false
    → IsUnique rows
    → IsUnique (rows ++ c ∷ [])
append-IsUnique c [] fresh h = (refl, tt)
append-IsUnique c (r ∷ rows) fresh h = (
  any-snoc r c rows h.0 (same_cache-sym r c ∙ (ground (arith, fresh))),
  append-IsUnique c rows (ground (arith, fresh)) h.1,
)

any-filtered :
    (r : PackageCache) (p : PackageCache → Bool) (rows : List PackageCache)
    → any (same_cache r) rows ≡ false
    → any (same_cache r) (filter p rows) ≡ false
any-filtered r p [] h = refl
any-filtered r p (x ∷ rows) h = ground (arith, any-filtered r p rows)

filter-IsUnique :
    (p : PackageCache → Bool) (rows : List PackageCache) → IsUnique rows → IsUnique (filter p rows)
filter-IsUnique p [] h = tt
filter-IsUnique p (r ∷ rows) h = elim (Bool-cases (p r)) [
  | inl stays ↦ rw stays (any-filtered r p rows h.0, filter-IsUnique p rows h.1)
  | inr goes ↦ rw goes (filter-IsUnique p rows h.1)
]

pub upsert_cache-IsUnique :
    (c : PackageCache) (s : System)
    → IsUnique s.package_cache
    → IsUnique (upsert_cache c s).1.package_cache
unfolding upsert_cache
upsert_cache-IsUnique c s h = elim (Bool-cases (any (same_cache c) s.package_cache)) [
  | inl there ↦
      subst IsUnique
        (let e : map (refresh c) s.package_cache ≡ (upsert_cache c s).1.package_cache =
            ground (arith, there) in
          e)
        (refresh-IsUnique c s.package_cache h)
  | inr fresh ↦ elim (Bool-cases (any (λ row. row.id == c.id) s.package_cache)) [
    | inl taken ↦
        subst IsUnique
          (let e : s.package_cache ≡ (upsert_cache c s).1.package_cache =
              ground (arith, fresh, taken) in
            e)
          h
    | inr free ↦
        subst IsUnique
          (let e : s.package_cache ++ c ∷ [] ≡ (upsert_cache c s).1.package_cache =
              ground (arith, fresh, free) in
            e)
          (append-IsUnique c s.package_cache fresh h)
  ]
]

pub delete_cache-IsUnique :
    (venv_type : String) (venv_id : Option String) (name version : String) (s : System)
    → IsUnique s.package_cache
    → IsUnique (delete_cache venv_type venv_id name version s).1.package_cache
unfolding delete_cache
delete_cache-IsUnique venv_type venv_id name version s h = filter-IsUnique _ s.package_cache h
