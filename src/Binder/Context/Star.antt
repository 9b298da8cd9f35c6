-- ===== src/Binder/Context/Star.antt =====
-- `_get_all_alias_and_col_name`, from which a star is made, against the look-up of columns.
use eva.Binder.Context.Aliases.{IsUnambiguous}
use eva.Binder.Context.Defs.{
  Dict, dict_get, keys_in, flat, TableCatalogEntry, table_entry, StatementBinderContext,
  column_named, column_of, check_table_alias_map, get_binded_column,
}
use eva.Binder.Context.Derived.{
  bound_to, get_binded_column-derived, check_derived_table_alias_map-found,
}
use eva.Binder.Context.Dictionaries.{dict_get-missing}
use eva.Binder.Context.Lookups.{
  AllFound, AllFound-self, AllDistinct-left, AllDistinct-right, AllDistinct-apart, all_some,
  flat-found, dict_get-contains,
}
use eva.Binder.Context.Qualified.{qualified-table}
use eva.Optimizer.Operators.{
  structured_data, video_data, image_data, document_data, pdf_data, system_structured_data,
  native_data,
}
use eva.Prelude.{
  String, ◌≡◌, refl, ap, ◌∙◌, inl, inr, Bool, true, false, not, ◌&&◌, Option, none, some, List, [],
  ◌∷◌, ◌++◌, map, arith, str_eq, eq_iff, Bool-cases,
}
use eva.Prelude.Result.{attribute_error, Result, err, ok, ◌>>=◌}
use eva.Prelude.Texts.{contains}

module _ {Col : Type 0} (column_name : Col → String) where
  -- the columns of the tables; an entry that is `None` has none to ask for
  unfoldable pub table_columns :
      Dict (Option (TableCatalogEntry Col)) → Result (List (String × String))
  table_columns [] = ok []
  table_columns ((alias, none) ∷ entries) = err attribute_error
  table_columns ((alias, some (table_entry table_type columns)) ∷ entries) =
      table_columns entries >>= λ more. ok (map (λ col. (alias, column_name col)) columns ++ more)

module _ {Col : Type 0} where
  -- the columns of the derived tables
  unfoldable pub derived_columns : Dict (Dict (Option Col)) → List (String × String)
  derived_columns [] = []
  derived_columns ((alias, col_objs_map) ∷ entries) =
      map (λ col_name. (alias, col_name)) (keys_in col_objs_map) ++ derived_columns entries

-- `_get_all_alias_and_col_name`
unfoldable pub get_all_alias_and_col_name :
    {Col : Type 0} → (Col → String) → StatementBinderContext Col → Result (List (String × String))
unfolding table_columns derived_columns
get_all_alias_and_col_name column_name context =
    table_columns column_name context.table_alias_map >>= λ alias_cols.
    ok (alias_cols ++ derived_columns context.derived_table_alias_map)

module _ {Col : Type 0} where
  -- every table is one of a data source and has an alias
  abbrev pub all_native : Dict (Option (TableCatalogEntry Col)) → Bool
  all_native [] = true
  all_native ((alias, some (table_entry native_data columns)) ∷ entries) =
      not (str_eq alias "") && all_native entries
  all_native (entry ∷ entries) = false

  -- every derived table has an alias, and entries for its columns
  abbrev pub all_given : Dict (Dict (Option Col)) → Bool
  all_given [] = true
  all_given ((alias, col_objs_map) ∷ entries) =
      not (str_eq alias "") && (all_some col_objs_map && all_given entries)

  column_named_cons :
      (column_name : Col → String) (front : Col) (columns : List Col) (col_name : String)
      {found : Col}
      → column_named column_name columns col_name ≡ some found
      → (again : Col) × (column_named column_name (front ∷ columns) col_name ≡ some again)
  column_named_cons column_name front columns col_name {found} h =
      elim (Bool-cases (str_eq (column_name front) col_name)) [
        | inl e ↦ (front, rw e refl)
        | inr e ↦ (found, rw e h)
      ]

module _ {Col : Type 0} (column_name : Col → String)
    (get_column_catalog_entry : TableCatalogEntry Col → String → Option Col) where
  abbrev AllNamed : List Col → List Col → Type 0
  AllNamed whole [] = Unit
  AllNamed whole (col ∷ columns) =
      ((found : Col) × (column_named column_name whole (column_name col) ≡ some found))
      × AllNamed whole columns

  AllNamed-cons :
      (front : Col) (whole columns : List Col)
      → AllNamed whole columns
      → AllNamed (front ∷ whole) columns
  AllNamed-cons front whole [] h = tt
  AllNamed-cons front whole (col ∷ columns) h = (
    column_named_cons column_name front whole (column_name col) (h.0).1,
    AllNamed-cons front whole columns h.1,
  )

  AllNamed-self : (columns : List Col) → AllNamed columns columns
  AllNamed-self [] = tt
  AllNamed-self (col ∷ columns) =
      let same : str_eq (column_name col) (column_name col) ≡ true = (eq_iff _ _).1 refl in
      ((col, rw same refl), AllNamed-cons col columns columns (AllNamed-self columns))

  -- each column is bound under its alias
  abbrev pub AllBound : StatementBinderContext Col → List (String × String) → Type 0
  AllBound context [] = Unit
  AllBound context ((alias, col_name) ∷ alias_cols) =
      ((col_obj : Col) × (get_binded_column column_name get_column_catalog_entry context col_name
            (some alias)
          ≡ ok (alias, col_obj)))
      × AllBound context alias_cols

  AllBound-append :
      (context : StatementBinderContext Col) (xs ys : List (String × String))
      → AllBound context xs
      → AllBound context ys
      → AllBound context (xs ++ ys)
  AllBound-append context [] ys h k = k
  AllBound-append context (x ∷ xs) ys h k = (h.0, AllBound-append context xs ys h.1 k)

  table-AllBound :
      (context : StatementBinderContext Col) (alias : String) (whole columns : List Col)
      → str_eq alias "" ≡ false
      → dict_get context.table_alias_map alias ≡ some (some (table_entry native_data whole))
      → AllNamed whole columns
      → AllBound context (map (λ col. (alias, column_name col)) columns)
  unfolding check_table_alias_map
  table-AllBound context alias whole [] named h k = tt
  table-AllBound context alias whole (col ∷ columns) named h k =
      let (found, e) = k.0 in
      (
        (
          found,
          qualified-table column_name get_column_catalog_entry context alias (column_name col) found
              named
              (ap (λ o. column_of column_name get_column_catalog_entry (flat o) (column_name col)) h
                ∙ e),
        ),
        table-AllBound context alias whole columns named h k.1,
      )

  tables-AllBound :
      (context : StatementBinderContext Col) (entries : Dict (Option (TableCatalogEntry Col)))
      → all_native entries ≡ true
      → AllFound context.table_alias_map entries
      → (out : List (String × String)) × (table_columns column_name entries ≡ ok out)
        × AllBound context out
  unfolding table_columns
  tables-AllBound context [] h found = ([], refl, tt)
  tables-AllBound context ((alias, some (table_entry native_data columns)) ∷ entries) h found =
      let (out, e, bound) = tables-AllBound context entries (ground arith) found.1 in
      let mine : List (String × String) = map (λ col. (alias, column_name col)) columns in
      (
        mine ++ out,
        rw e refl,
        AllBound-append context mine out
            (table-AllBound context alias columns columns (ground arith) found.0
              (AllNamed-self columns))
            bound,
      )
  tables-AllBound context ((alias, none) ∷ entries) h found = absurd (cc)
  tables-AllBound context ((alias, some (table_entry structured_data columns)) ∷ entries) h found =
      absurd (cc)
  tables-AllBound context ((alias, some (table_entry video_data columns)) ∷ entries) h found =
      absurd (cc)
  tables-AllBound context ((alias, some (table_entry image_data columns)) ∷ entries) h found =
      absurd (cc)
  tables-AllBound context ((alias, some (table_entry document_data columns)) ∷ entries) h found =
      absurd (cc)
  tables-AllBound context ((alias, some (table_entry pdf_data columns)) ∷ entries) h found =
      absurd (cc)
  tables-AllBound context ((alias, some (table_entry system_structured_data columns)) ∷ entries) h
        found =
      absurd (cc)

  derived_table-AllBound :
      (context : StatementBinderContext Col) (alias : String) (col_objs_map : Dict (Option Col))
      (col_names : List String)
      → str_eq alias "" ≡ false
      → dict_get context.table_alias_map alias ≡ none
      → dict_get context.derived_table_alias_map alias ≡ some col_objs_map
      → all_some col_objs_map ≡ true
      → ((n : String) → contains col_names n ≡ true → contains (keys_in col_objs_map) n ≡ true)
      → AllBound context (map (λ col_name. (alias, col_name)) col_names)
  unfolding contains
  derived_table-AllBound context alias col_objs_map [] named apart h k inside = tt
  derived_table-AllBound context alias col_objs_map (n ∷ names) named apart h k inside =
      let self : str_eq n n ≡ true = (eq_iff n n).1 refl in
      let (col_obj, e) = flat-found col_objs_map n k (inside n (ground arith)) in
      (
        (
          col_obj,
          get_binded_column-derived column_name get_column_catalog_entry context alias n named apart
              ∙ ap (bound_to alias)
                  (check_derived_table_alias_map-found context alias n col_objs_map h ∙ e),
        ),
        derived_table-AllBound context alias col_objs_map names named apart h k
            (λ m there. inside m (ground arith)),
      )

  derived-AllBound :
      (context : StatementBinderContext Col) (entries : Dict (Dict (Option Col)))
      → IsUnambiguous context
      → all_given entries ≡ true
      → AllFound context.derived_table_alias_map entries
      → AllBound context (derived_columns entries)
  unfolding derived_columns
  derived-AllBound context [] h k found = tt
  derived-AllBound context ((alias, col_objs_map) ∷ entries) h k found =
      let there = dict_get-contains context.derived_table_alias_map alias found.0 in
      let apart =
        AllDistinct-apart (keys_in context.table_alias_map)
          (keys_in context.derived_table_alias_map) alias h there in
      AllBound-append context (map (λ col_name. (alias, col_name)) (keys_in col_objs_map))
        (derived_columns entries)
        (derived_table-AllBound context alias col_objs_map (keys_in col_objs_map) (ground arith)
          (dict_get-missing context.table_alias_map alias apart) found.0 (ground arith) (λ n e. e))
        (derived-AllBound context entries h (ground arith) found.1)

  -- Where the tables come from data sources, every derived table has entries for its columns, and
  -- every alias is a text that stands for one table or derived table: a star finds its columns, and
  -- each of them is bound under its alias.
  pub get_all_alias_and_col_name-AllBound :
      (context : StatementBinderContext Col)
      → IsUnambiguous context
      → all_native context.table_alias_map ≡ true
      → all_given context.derived_table_alias_map ≡ true
      → (alias_cols : List (String × String)) × (get_all_alias_and_col_name column_name context
          ≡ ok alias_cols)
        × AllBound context alias_cols
  unfolding get_all_alias_and_col_name
  get_all_alias_and_col_name-AllBound context h native given =
      let tables : List String = keys_in context.table_alias_map in
      let derived : List String = keys_in context.derived_table_alias_map in
      let (out, e, bound) =
        tables-AllBound context context.table_alias_map native
          (AllFound-self context.table_alias_map (AllDistinct-left tables derived h)) in
      (
        out ++ derived_columns context.derived_table_alias_map,
        rw e refl,
        AllBound-append context out (derived_columns context.derived_table_alias_map) bound (
            derived-AllBound context context.derived_table_alias_map h given
              (AllFound-self context.derived_table_alias_map (AllDistinct-right tables derived h))),
      )
