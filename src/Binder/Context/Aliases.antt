-- ===== src/Binder/Context/Aliases.antt =====
-- The aliases of a context, each of which stands for one table or derived table.
use eva.Binder.Context.Defs.{
  keys_in, TableCatalogEntry, Target, StatementBinderContext, set_targets, check_duplicate_alias,
  add_table_alias, add_derived_table_alias,
}
use eva.Binder.Context.Dictionaries.{
  keys_in-dict_set, AllDistinct, contains-append, contains-none, AllDistinct-insert, snoc-append,
  append-snoc, append_none,
}
use eva.Prelude.{
  String, ◌≡◌, sym, ap, subst, ◌∙◌, inl, inr, false, Option, List, [], ◌++◌, arith, Bool-cases,
}
use eva.Prelude.Result.{Result, ok, ok-injective, >>=-eq-ok}
use eva.Prelude.Texts.{contains}

module _ {Col : Type 0} where
  -- every alias stands for one table or one derived table
  abbrev pub IsUnambiguous : StatementBinderContext Col → Type 0
  IsUnambiguous context =
      AllDistinct (keys_in context.table_alias_map ++ keys_in context.derived_table_alias_map)

  pub check_duplicate_alias-new :
      (context : StatementBinderContext Col) (alias : String) {u : Unit {0}}
      → check_duplicate_alias context alias ≡ ok u
      → (contains (keys_in context.table_alias_map) alias ≡ false)
        × (contains (keys_in context.derived_table_alias_map) alias ≡ false)
  unfolding check_duplicate_alias
  check_duplicate_alias-new context alias h =
      elim (Bool-cases (contains (keys_in context.derived_table_alias_map) alias)) [
        | inl e ↦ absurd (cc)
        | inr e ↦ elim (Bool-cases (contains (keys_in context.table_alias_map) alias)) [
          | inl d ↦ absurd (cc)
          | inr d ↦ (d, e)
        ]
      ]

  -- Whatever the catalog and the data sources answer: where every alias stands for one table or
  -- one derived table, and the alias of a table is added without an exception, that is so again.
  pub add_table_alias-IsUnambiguous :
      (data_source : String → String → Result (TableCatalogEntry Col))
      (get_table : String → Option (TableCatalogEntry Col)) (context : StatementBinderContext Col)
      (alias : String) (database : Option String) (table : String)
      (after : StatementBinderContext Col)
      → IsUnambiguous context
      → add_table_alias data_source get_table context alias database table ≡ ok after
      → IsUnambiguous after
  unfolding add_table_alias
  add_table_alias-IsUnambiguous data_source get_table context alias database table after h e =
      let (table_obj, q, made) = >>=-eq-ok _ _ e in
      let (u, checked, answered) = >>=-eq-ok (check_duplicate_alias context alias) _ q in
      let (new_table, new_derived) = check_duplicate_alias-new context alias checked in
      let tables : List String = keys_in context.table_alias_map in
      let derived : List String = keys_in context.derived_table_alias_map in
      let free : contains (tables ++ derived) alias ≡ false =
        ground (arith, contains-append tables derived alias) in
      subst IsUnambiguous (ok-injective made) (
        subst AllDistinct
          (sym (snoc-append tables derived alias)
            ∙ ap (λ keys. keys ++ derived)
                (sym (keys_in-dict_set context.table_alias_map alias table_obj new_table)))
          (AllDistinct-insert tables derived alias free h))

  pub add_derived_table_alias-IsUnambiguous :
      (column_name : Col → String) (context : StatementBinderContext Col) (alias : String)
      (target_list : List (Target Col)) (after : StatementBinderContext Col)
      → IsUnambiguous context
      → add_derived_table_alias column_name context alias target_list ≡ ok after
      → IsUnambiguous after
  unfolding add_derived_table_alias
  add_derived_table_alias-IsUnambiguous column_name context alias target_list after h e =
      let (u, checked, made) = >>=-eq-ok (check_duplicate_alias context alias) _ e in
      let (new_table, new_derived) = check_duplicate_alias-new context alias checked in
      let tables : List String = keys_in context.table_alias_map in
      let derived : List String = keys_in context.derived_table_alias_map in
      let free : contains ((tables ++ derived) ++ []) alias ≡ false = ground (
        arith,
        contains-append tables derived alias,
        contains-append (tables ++ derived) [] alias,
        contains-none alias,
      ) in
      subst IsUnambiguous (ok-injective made) (
        subst AllDistinct
          (append-snoc tables derived alias
            ∙ ap (◌++◌ tables) (
                sym (
                  keys_in-dict_set context.derived_table_alias_map alias
                    (set_targets column_name [] target_list) new_derived)))
          (AllDistinct-insert (tables ++ derived) [] alias free
            (subst AllDistinct (sym (append_none (tables ++ derived))) h)))
