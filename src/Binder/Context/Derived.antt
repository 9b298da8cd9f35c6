-- ===== src/Binder/Context/Derived.antt =====
-- What a column is bound to under the alias of a derived table.
use eva.Binder.Context.Aliases.{check_duplicate_alias-new}
use eva.Binder.Context.Defs.{
  Dict, dict_get, dict_set, flat, TableCatalogEntry, Target, function_target, tuple_target,
  other_target, StatementBinderContext, set_outputs, set_targets, check_duplicate_alias,
  add_derived_table_alias, check_derived_table_alias_map, check_table_alias_map, get_binded_column,
}
use eva.Binder.Context.Dictionaries.{dict_get-missing, dict_get-dict_set}
use eva.Prelude.{
  String, ◌≡◌, refl, ap, subst, ◌∙◌, inl, inr, true, false, Option, none, some, List, [], ◌∷◌,
  str_eq, eq_iff, if◌then◌else◌, Option-cases,
}
use eva.Prelude.Result.{binder_error, Result, err, ok, ok-injective, >>=-eq-ok}

module _ {Col : Type 0} where
  -- the columns that a target list gives a name to
  abbrev pub last_output :
      (Col → String) → Option (Option Col) → List Col → String → Option (Option Col)
  last_output column_name before [] col_name = before
  last_output column_name before (obj ∷ objs) col_name =
      last_output column_name
        (if str_eq (column_name obj) col_name then some (some obj) else before) objs col_name

  abbrev pub last_target :
      (Col → String) → Option (Option Col) → List (Target Col) → String → Option (Option Col)
  last_target column_name before [] col_name = before
  last_target column_name before (function_target output_objs ∷ exprs) col_name =
      last_target column_name (last_output column_name before output_objs col_name) exprs col_name
  last_target column_name before (tuple_target name col_object ∷ exprs) col_name =
      last_target column_name (if str_eq name col_name then some col_object else before) exprs
        col_name
  last_target column_name before (other_target ∷ exprs) col_name =
      last_target column_name before exprs col_name

  dict_get-set_outputs :
      (column_name : Col → String) (entries : Dict (Option Col)) (objs : List Col)
      (col_name : String)
      → dict_get (set_outputs column_name entries objs) col_name
        ≡ last_output column_name (dict_get entries col_name) objs col_name
  unfolding set_outputs
  dict_get-set_outputs column_name entries [] col_name = refl
  dict_get-set_outputs column_name entries (obj ∷ objs) col_name =
      dict_get-set_outputs column_name (dict_set entries (column_name obj) (some obj)) objs col_name
      ∙ ap (λ before. last_output column_name before objs col_name)
          (dict_get-dict_set entries (column_name obj) col_name (some obj))

  dict_get-set_targets :
      (column_name : Col → String) (entries : Dict (Option Col)) (exprs : List (Target Col))
      (col_name : String)
      → dict_get (set_targets column_name entries exprs) col_name
        ≡ last_target column_name (dict_get entries col_name) exprs col_name
  unfolding set_targets
  dict_get-set_targets column_name entries [] col_name = refl
  dict_get-set_targets column_name entries (function_target objs ∷ exprs) col_name =
      dict_get-set_targets column_name (set_outputs column_name entries objs) exprs col_name
      ∙ ap (λ before. last_target column_name before exprs col_name)
          (dict_get-set_outputs column_name entries objs col_name)
  dict_get-set_targets column_name entries (tuple_target name col_object ∷ exprs) col_name =
      dict_get-set_targets column_name (dict_set entries name col_object) exprs col_name
      ∙ ap (λ before. last_target column_name before exprs col_name)
          (dict_get-dict_set entries name col_name col_object)
  dict_get-set_targets column_name entries (other_target ∷ exprs) col_name =
      dict_get-set_targets column_name entries exprs col_name

  -- what `get_binded_column` makes of a column that it found or not
  abbrev pub bound_to : String → Option Col → Result (String × Col)
  bound_to alias none = err binder_error
  bound_to alias (some col_obj) = ok (alias, col_obj)

  pub get_binded_column-derived :
      (column_name : Col → String)
      (get_column_catalog_entry : TableCatalogEntry Col → String → Option Col)
      (context : StatementBinderContext Col) (alias : String) (col_name : String)
      → str_eq alias "" ≡ false
      → dict_get context.table_alias_map alias ≡ none
      → get_binded_column column_name get_column_catalog_entry context col_name (some alias)
        ≡ bound_to alias (check_derived_table_alias_map context alias col_name)
  unfolding get_binded_column check_table_alias_map
  get_binded_column-derived column_name get_column_catalog_entry context alias col_name named h =
      elim (Option-cases (check_derived_table_alias_map context alias col_name)) [
        | inl e ↦ rw (get_binded_column, named, h, e) refl
        | inr (col_obj, e) ↦ rw (get_binded_column, named, h, e) refl
      ]

  pub check_derived_table_alias_map-found :
      (context : StatementBinderContext Col) (alias : String) (col_name : String)
      (col_objs_map : Dict (Option Col))
      → dict_get context.derived_table_alias_map alias ≡ some col_objs_map
      → check_derived_table_alias_map context alias col_name ≡ flat (dict_get col_objs_map col_name)
  unfolding check_derived_table_alias_map
  check_derived_table_alias_map-found context alias col_name col_objs_map h =
      rw (check_derived_table_alias_map, h) refl

  -- Under the alias of a derived table that was just added, if it is no empty text, a column is bound to the last one of
  -- its name in the target list, whatever the context held before; a name that the target list does
  -- not give raises an exception.
  pub get_binded_column-add_derived_table_alias :
      (column_name : Col → String)
      (get_column_catalog_entry : TableCatalogEntry Col → String → Option Col)
      (context : StatementBinderContext Col) (alias : String) (target_list : List (Target Col))
      (after : StatementBinderContext Col) (col_name : String)
      → str_eq alias "" ≡ false
      → add_derived_table_alias column_name context alias target_list ≡ ok after
      → get_binded_column column_name get_column_catalog_entry after col_name (some alias)
        ≡ bound_to alias (flat (last_target column_name none target_list col_name))
  unfolding add_derived_table_alias dict_get
  get_binded_column-add_derived_table_alias column_name get_column_catalog_entry context alias
        target_list after col_name named e =
      let (u, checked, made) = >>=-eq-ok (check_duplicate_alias context alias) _ e in
      let (new_table, new_derived) = check_duplicate_alias-new context alias checked in
      let col_objs_map : Dict (Option Col) = set_targets column_name [] target_list in
      let same : str_eq alias alias ≡ true = (eq_iff alias alias).1 refl in
      let added =
        dict_get-dict_set context.derived_table_alias_map alias alias col_objs_map
        ∙ ap (λ b. if b then some col_objs_map else dict_get context.derived_table_alias_map alias)
            same in
      subst
        (λ last.
          get_binded_column column_name get_column_catalog_entry last col_name (some alias)
          ≡ bound_to alias (flat (last_target column_name none target_list col_name)))
        (ok-injective made)
        (get_binded_column-derived column_name get_column_catalog_entry _ alias col_name named
            (dict_get-missing context.table_alias_map alias new_table)
          ∙ ap (bound_to alias) (
              check_derived_table_alias_map-found _ alias col_name col_objs_map added
              ∙ ap flat (dict_get-set_targets column_name [] target_list col_name)))
