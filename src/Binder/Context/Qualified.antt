-- ===== src/Binder/Context/Qualified.antt =====
-- What a column without an alias is bound to, against the same column with that alias.
use eva.Binder.Context.Defs.{
  keys_in, flat, TableCatalogEntry, StatementBinderContext, check_derived_table_alias_map,
  column_of, check_table_alias_map, get_binded_column,
}
use eva.Binder.Context.Dictionaries.{dict_get-missing}
use eva.Binder.Context.Resolves.{owners_in, the_only, owners, get_binded_column-the_only}
use eva.Prelude.{
  String, ◌≡◌, refl, sym, ap, subst, ◌∙◌, ◌⊎◌, inl, inr, true, false, Option, none, some, List, [],
  ◌∷◌, ◌++◌, arith, str_eq, eq_iff, Bool-cases, Option-cases,
}
use eva.Prelude.Result.{ok, ok-injective}
use eva.Prelude.Texts.{contains}

module _ {Col : Type 0} where
  owners_in-found :
      (find : String → Option Col) (aliases : List String) (alias : String) (col_obj : Col)
      (rest : List (String × Col))
      → owners_in find aliases ≡ (alias, col_obj) ∷ rest
      → find alias ≡ some col_obj
  owners_in-found find [] alias col_obj rest h = absurd (cc)
  owners_in-found find (first ∷ aliases) alias col_obj rest h = elim (Option-cases (find first)) [
    | inl e ↦ owners_in-found find aliases alias col_obj rest (sym (owners_in-skip e) ∙ h)
    | inr (found, e) ↦
        let same : (first, found) ∷ owners_in find aliases ≡ (alias, col_obj) ∷ rest =
          sym (owners_in-take e) ∙ h in
        cc
  ]
    where
      owners_in-skip : find first ≡ none → owners_in find (first ∷ aliases) ≡ owners_in find aliases
      owners_in-skip e = rw (owners_in, e) refl

      owners_in-take :
          {found : Col}
          → find first ≡ some found
          → owners_in find (first ∷ aliases) ≡ (first, found) ∷ owners_in find aliases
      owners_in-take e = rw (owners_in, e) refl

  owners_in-none :
      (find : String → Option Col) (aliases : List String) (alias : String)
      → owners_in find aliases ≡ []
      → contains aliases alias ≡ true
      → find alias ≡ none
  unfolding contains
  owners_in-none find [] alias h k = absurd (cc)
  owners_in-none find (first ∷ aliases) alias h k = elim (Option-cases (find first)) [
    | inl e ↦ elim (Bool-cases (str_eq first alias)) [
      | inl d ↦ subst (λ a. find a ≡ none) ((eq_iff first alias).0 d) e
      | inr d ↦ owners_in-none find aliases alias (sym (skipped e) ∙ h) (ground arith)
    ]
    | inr (found, e) ↦
        let same : (first, found) ∷ owners_in find aliases ≡ [] = sym (taken e) ∙ h in absurd (cc)
  ]
    where
      skipped : find first ≡ none → owners_in find (first ∷ aliases) ≡ owners_in find aliases
      skipped e = rw (owners_in, e) refl

      taken :
          {found : Col}
          → find first ≡ some found
          → owners_in find (first ∷ aliases) ≡ (first, found) ∷ owners_in find aliases
      taken e = rw (owners_in, e) refl

  the_only-ok :
      (owners : List (String × Col)) (owner : String × Col)
      → the_only owners ≡ ok owner
      → owners ≡ owner ∷ []
  the_only-ok [] owner h = absurd (cc)
  the_only-ok (x ∷ []) owner h = ap (λ y. y ∷ []) (ok-injective h)
  the_only-ok (x ∷ y ∷ xs) owner h = absurd (cc)

  append-one :
      (xs ys : List (String × Col)) (owner : String × Col)
      → xs ++ ys ≡ owner ∷ []
      → (xs ≡ owner ∷ []) ⊎ ((xs ≡ []) × (ys ≡ owner ∷ []))
  append-one [] ys owner h = inr (refl, h)
  append-one (x ∷ []) [] owner h = inl h
  append-one (x ∷ []) (y ∷ ys) owner h = absurd (cc)
  append-one (x ∷ y ∷ xs) ys owner h = absurd (cc)

module _ {Col : Type 0} (column_name : Col → String)
    (get_column_catalog_entry : TableCatalogEntry Col → String → Option Col) where
  check_table_alias_map-none :
      (context : StatementBinderContext Col) (alias col_name : String)
      → owners_in
          (λ a. check_table_alias_map column_name get_column_catalog_entry context a col_name)
          (keys_in context.table_alias_map)
        ≡ []
      → check_table_alias_map column_name get_column_catalog_entry context alias col_name ≡ none
  unfolding check_table_alias_map
  check_table_alias_map-none context alias col_name h =
      elim (Bool-cases (contains (keys_in context.table_alias_map) alias)) [
        | inl e ↦
            owners_in-none
              (λ a. check_table_alias_map column_name get_column_catalog_entry context a col_name)
              (keys_in context.table_alias_map) alias h e
        | inr e ↦
            ap (λ found. column_of column_name get_column_catalog_entry (flat found) col_name)
              (dict_get-missing context.table_alias_map alias e)
      ]

  pub qualified-table :
      (context : StatementBinderContext Col) (alias col_name : String) (col_obj : Col)
      → str_eq alias "" ≡ false
      → check_table_alias_map column_name get_column_catalog_entry context alias col_name
        ≡ some col_obj
      → get_binded_column column_name get_column_catalog_entry context col_name (some alias)
        ≡ ok (alias, col_obj)
  unfolding get_binded_column
  qualified-table context alias col_name col_obj named h = rw (get_binded_column, named, h) refl

  qualified-derived :
      (context : StatementBinderContext Col) (alias col_name : String) (col_obj : Col)
      → str_eq alias "" ≡ false
      → check_table_alias_map column_name get_column_catalog_entry context alias col_name ≡ none
      → check_derived_table_alias_map context alias col_name ≡ some col_obj
      → get_binded_column column_name get_column_catalog_entry context col_name (some alias)
        ≡ ok (alias, col_obj)
  unfolding get_binded_column
  qualified-derived context alias col_name col_obj named none_there h =
      rw (get_binded_column, named, none_there, h) refl

  qualified-empty :
      (context : StatementBinderContext Col) (alias col_name : String)
      → str_eq alias "" ≡ true
      → get_binded_column column_name get_column_catalog_entry context col_name (some alias)
        ≡ get_binded_column column_name get_column_catalog_entry context col_name none
  unfolding get_binded_column
  qualified-empty context alias col_name e = rw (get_binded_column, e) refl

  -- Where a column without an alias is bound, the alias that is found binds it to the same entry.
  pub get_binded_column-qualified :
      (context : StatementBinderContext Col) (col_name alias : String) (col_obj : Col)
      → get_binded_column column_name get_column_catalog_entry context col_name none
        ≡ ok (alias, col_obj)
      → get_binded_column column_name get_column_catalog_entry context col_name (some alias)
        ≡ ok (alias, col_obj)
  get_binded_column-qualified context col_name alias col_obj h =
      let in_table : String → Option Col =
        λ a. check_table_alias_map column_name get_column_catalog_entry context a col_name in
      let in_derived : String → Option Col =
        λ a. check_derived_table_alias_map context a col_name in
      let tables : List String = keys_in context.table_alias_map in
      let derived_tables : List String = keys_in context.derived_table_alias_map in
      let one =
        the_only-ok (owners column_name get_column_catalog_entry context col_name) (alias, col_obj)
          (sym (get_binded_column-the_only column_name get_column_catalog_entry context col_name)
            ∙ h) in
      elim (Bool-cases (str_eq alias "")) [
        | inl e ↦ qualified-empty context alias col_name e ∙ h
        | inr named ↦
            elim (append-one (owners_in in_table tables) (owners_in in_derived derived_tables)
              (alias, col_obj) one) [
                | inl table ↦
                    qualified-table context alias col_name col_obj named
                      (owners_in-found in_table tables alias col_obj [] table)
                | inr (only_derived, derived) ↦
                    qualified-derived context alias col_name col_obj named
                      (check_table_alias_map-none context alias col_name only_derived)
                      (owners_in-found in_derived derived_tables alias col_obj [] derived)
              ]
      ]
