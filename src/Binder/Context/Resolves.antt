-- ===== src/Binder/Context/Resolves.antt =====
-- How `get_binded_column` resolves a column, against the list of all the aliases that have it.
use eva.Binder.Context.Defs.{
  keys_in, TableCatalogEntry, StatementBinderContext, check_derived_table_alias_map, count_matches,
  check_table_alias_map, search_all_alias_maps, get_binded_column,
}
use eva.Prelude.{
  ℕ, ◌+◌, String, ◌≡◌, refl, ap, ◌∙◌, inl, inr, true, Option, none, some, List, [], ◌∷◌, ◌++◌,
  arith, ltb, if◌then◌else◌, Option-cases, length, length-append,
}
use eva.Prelude.Result.{binder_error, Result, err, ok, or_raise, ◌>>=◌}

module _ {Col : Type 0} where
  -- the aliases that have a column, with their columns
  abbrev pub owners_in : (String → Option Col) → List String → List (String × Col)
  owners_in find [] = []
  owners_in find (alias ∷ aliases) = elim (find alias) [
    | none ↦ owners_in find aliases
    | some col_obj ↦ (alias, col_obj) ∷ owners_in find aliases
  ]

  -- the one element of a list
  abbrev pub the_only : List (String × Col) → Result (String × Col)
  the_only [] = err binder_error
  the_only (owner ∷ []) = ok owner
  the_only (owner ∷ second ∷ more) = err binder_error

  last_or : Option (String × Col) → List (String × Col) → Option (String × Col)
  last_or before [] = before
  last_or before (owner ∷ owners) = last_or (some owner) owners

  last_or-append :
      (before : Option (String × Col)) (xs ys : List (String × Col))
      → last_or (last_or before xs) ys ≡ last_or before (xs ++ ys)
  unfolding last_or
  last_or-append before [] ys = refl
  last_or-append before (x ∷ xs) ys = last_or-append (some x) xs ys

  count_matches_lem :
      (find : String → Option Col) (aliases : List String) (n : ℕ) (before : Option (String × Col))
      → count_matches find aliases (n, before)
        ≡ (length (owners_in find aliases) + n, last_or before (owners_in find aliases))
  unfolding count_matches last_or
  count_matches_lem find [] n before = ap (λ k. (k, before)) (omega arith)
  count_matches_lem find (alias ∷ aliases) n before = elim (Option-cases (find alias)) [
    | inl e ↦ rw (count_matches, owners_in, e) (count_matches_lem find aliases n before)
    | inr (col_obj, e) ↦
        rw (count_matches, owners_in, e)
          (count_matches_lem find aliases (n + 1) (some (alias, col_obj))
            ∙ ap (λ k. (k, last_or (some (alias, col_obj)) (owners_in find aliases))) (omega arith))
  ]

  decided :
      (n : ℕ) (xs : List (String × Col))
      → n ≡ length xs
      → ((if ltb 1 n then err binder_error else ok (last_or none xs)) >>= or_raise binder_error)
        ≡ the_only xs
  unfolding last_or
  decided n [] e = rw e refl
  decided n (x ∷ []) e = rw e refl
  decided n (x ∷ y ∷ xs) e = let many : ltb 1 n ≡ true = ground arith in rw many refl

module _ {Col : Type 0} (column_name : Col → String)
    (get_column_catalog_entry : TableCatalogEntry Col → String → Option Col) where
  -- the aliases of tables and of derived tables that have a column
  abbrev pub owners : StatementBinderContext Col → String → List (String × Col)
  owners context col_name =
      owners_in
        (λ alias. check_table_alias_map column_name get_column_catalog_entry context alias col_name)
        (keys_in context.table_alias_map)
      ++ owners_in (λ alias. check_derived_table_alias_map context alias col_name)
          (keys_in context.derived_table_alias_map)

  -- A column without an alias is bound to the one alias of a table or a derived table that has such
  -- a column; where no alias has one, or where two have, the binder raises.
  pub get_binded_column-the_only :
      (context : StatementBinderContext Col) (col_name : String)
      → get_binded_column column_name get_column_catalog_entry context col_name none
        ≡ the_only (owners context col_name)
  unfolding get_binded_column search_all_alias_maps
  get_binded_column-the_only context col_name =
      let in_table : String → Option Col = λ alias.
        check_table_alias_map column_name get_column_catalog_entry context alias col_name in
      let in_derived : String → Option Col =
        λ alias. check_derived_table_alias_map context alias col_name in
      let tables : List (String × Col) = owners_in in_table (keys_in context.table_alias_map) in
      let derived : List (String × Col) =
        owners_in in_derived (keys_in context.derived_table_alias_map) in
      rw
        (
          count_matches_lem in_table (keys_in context.table_alias_map) 0 none,
          count_matches_lem in_derived (keys_in context.derived_table_alias_map) (length tables + 0)
              (last_or none tables),
          last_or-append none tables derived,
        )
        (decided (length derived + (length tables + 0)) (tables ++ derived)
          (omega (arith, length-append tables derived)))
