-- ===== src/Api/Packages/Clear.antt =====
-- clear_main_venv empties the table of the main venv.
use serverust_less.Prelude.{
  ℕ, ◌≡◌, refl, ap, ◌∙◌, Bool, true, false, not, ◌&&◌, ◌||◌, String, none, List, [], ◌∷◌, filter,
  any, length, All, All-filter, All-combine, filter-not-All, any-order_by, any-filter, any_self,
  compare_text, ◌==◌, eq_refl, arith,
}
use mathlib.Core.Path.{fun_ext}
use serverust_less.Action.{Result, ok, err, pure, for_each}
use serverust_less.Action.Post.{Post, bind-Post, for_each-Post}
use serverust_less.Model.Package.{PackageCache}
use serverust_less.Db.{System}
use serverust_less.Db.PackageRepository.{
  of_venv, cache_row, cached_in, get_cache_by_venv, delete_cache,
}
use serverust_less.Packages.{remove_package}
use serverust_less.Api.Packages.{clear_main_venv, forget_package}

abbrev pub main_row : PackageCache → Bool
main_row row = of_venv "main" none row

-- The item is an entry of the main venv, of the row's package and version.
abbrev names_row : PackageCache → PackageCache → Bool
names_row row item =
    main_row item && row.package_name == item.package_name && row.version == item.version

abbrev kept : List PackageCache → List PackageCache
kept rows = filter (λ row. not (main_row row)) rows

-- With items to go: a row of the main venv is among them, and the other rows are as they were.
record Left (start : List PackageCache) (items : List PackageCache) (s : System) : Type 0 where
  listed : All (λ row. (not (main_row row) || any (names_row row) items) ≡ true) s.package_cache
  others : kept s.package_cache ≡ kept start

filter-other :
    (name version : String) (rows : List PackageCache)
    → kept (filter (λ row. not (cache_row "main" none name version row)) rows) ≡ kept rows
filter-other name version [] = refl
filter-other name version (r ∷ rows) = ground (arith, filter-other name version rows)

start-listed :
    (rows : List PackageCache)
    → All
        (λ row. (not (main_row row) || any (names_row row) (cached_in "main" none rows)) ≡ true)
        rows
start-listed rows =
    any_self main_row names_row
      (λ x main. ground (arith, main, eq_refl x.package_name, eq_refl x.version)) rows
      (cached_in "main" none rows)
      (λ x found.
        any-order_by (λ (a b : PackageCache). compare_text a.package_name b.package_name)
          (names_row x) (filter main_row rows)
        ∙ any-filter (names_row x) main_row rows
        ∙ ap (λ p. any p rows)
            (let same : (λ (y : PackageCache). main_row y && names_row x y) ≡ names_row x =
                fun_ext (λ y. ground arith) in
              same)
        ∙ found)

forget-Left :
    (start : List PackageCache) (p : PackageCache) (todo : List PackageCache) (s : System)
    → Left start (p ∷ todo) s
    → Post (λ _. ⊥) (λ _. Left start todo) (forget_package p s)
unfolding remove_package delete_cache
forget-Left start p todo s h =
    let gone = cache_row "main" none p.package_name p.version in
    record {
      listed =
          All-combine (λ row. (not (main_row row) || any (names_row row) (p ∷ todo)) ≡ true)
            (λ row. gone row ≡ false)
            (λ row. (not (main_row row) || any (names_row row) todo) ≡ true)
            (λ row covered apart. ground (arith, covered, apart))
            (filter (λ row. not (gone row)) s.package_cache)
            (All-filter _ (λ row. not (gone row)) s.package_cache h.listed)
            (filter-not-All gone s.package_cache);
      others = filter-other p.package_name p.version s.package_cache ∙ h.others;
    }

filter-none :
    (p : PackageCache → Bool) (rows : List PackageCache)
    → All (λ row. (not (p row) || false) ≡ true) rows
    → filter p rows ≡ []
filter-none p [] h = refl
filter-none p (r ∷ rows) h = ground (arith, h.0, filter-none p rows h.1)

-- What clearing leaves, and answers.
abbrev pub Cleared : System → Result ℕ × System → Type 0
Cleared s (answer, t) =
    (answer ≡ ok (length (cached_in "main" none s.package_cache)))
    × (filter main_row t.package_cache ≡ [])
    × (filter (λ row. not (main_row row)) t.package_cache
        ≡ filter (λ row. not (main_row row)) s.package_cache)

answered :
    (s : System) (x : Result ℕ × System)
    → Post
        (λ _. ⊥)
        (λ n t.
          (n ≡ length (cached_in "main" none s.package_cache))
          × (filter main_row t.package_cache ≡ [])
          × (kept t.package_cache ≡ kept s.package_cache))
        x
    → Cleared s x
answered s (ok n, t) (count, empty, others) = (ap ok count, empty, others)
answered s (err e, t) h = absurd h

-- Clearing the main environment succeeds with the number of its entries, leaves no entry of it,
-- whatever their names and versions, and leaves the entries of all other environments as they are.
pub clear_main_venv-Cleared : (s : System) → Cleared s (clear_main_venv s)
unfolding clear_main_venv get_cache_by_venv
clear_main_venv-Cleared s =
    let items = cached_in "main" none s.package_cache in
    answered s (clear_main_venv s) (
      bind-Post (λ _. ⊥) (λ _. Left s.package_cache [])
        (λ n t.
          (n ≡ length items)
          × (filter main_row t.package_cache ≡ [])
          × (kept t.package_cache ≡ kept s.package_cache))
        (for_each forget_package items) (λ _. pure (length items)) s
        (for_each-Post (λ _. ⊥) (Left s.package_cache) forget_package (forget-Left s.package_cache)
          items s (record { listed = start-listed s.package_cache; others = refl }))
        (λ _ t left. (refl, filter-none main_row t.package_cache left.listed, left.others)))
