-- ===== src/Binder/Context/Defs.antt =====
-- binder/statement_binder_context.py. The entries of columns are a parameter, with their names; the
-- catalog and the data sources are given by what they answer.
-- a dictionary, in the order in which the keys came in
use eva.Examples.Conditions.{column}
use eva.Optimizer.Operators.{TableType, native_data}
use eva.Prelude.{
  ℕ, ◌+◌, String, Bool, ◌||◌, Option, none, some, List, [], ◌∷◌, str_eq, ltb, if◌then◌else◌,
}
use eva.Prelude.Result.{binder_error, Result, err, ok, or_raise, ◌>>=◌, ◌>>◌}
use eva.Prelude.Texts.{contains}

abbrev pub Dict : Type 0 → Type 0
Dict V = List (String × V)

unfoldable pub dict_get : {V : Type 0} → Dict V → String → Option V
dict_get [] key = none
dict_get ((k, v) ∷ entries) key = if str_eq k key then some v else dict_get entries key

unfoldable pub dict_set : {V : Type 0} → Dict V → String → V → Dict V
dict_set [] key value = (key, value) ∷ []
dict_set ((k, v) ∷ entries) key value =
    if str_eq k key then (k, value) ∷ entries else (k, v) ∷ dict_set entries key value

abbrev pub keys_in : {V : Type 0} → Dict V → List String
keys_in [] = []
keys_in ((k, v) ∷ entries) = k ∷ keys_in entries

-- an entry that may be `None`, in a place that may be missing
abbrev pub flat : {V : Type 0} → Option (Option V) → Option V
flat none = none
flat (some v) = v

-- an empty alias counts as none
abbrev pub given_alias : Option String → Option String
given_alias none = none
given_alias (some alias) = if str_eq alias "" then none else some alias

module _ (Col : Type 0) where
  -- `table_type` and `columns` of an entry of the catalog
  pub data TableCatalogEntry : Type 0 where
    table_entry : (table_type : TableType) → (columns : List Col) → TableCatalogEntry

  -- the expressions of a target list
  pub data Target : Type 0 where
    function_target : (output_objs : List Col) → Target
    tuple_target : (col_name : String) → (col_object : Option Col) → Target
    other_target : Target

  pub record StatementBinderContext : Type 0 where
    pub table_alias_map : Dict (Option TableCatalogEntry)
    pub derived_table_alias_map : Dict (Dict (Option Col))
    pub retrieve_audio : Bool
    pub retrieve_video : Bool

module _ {Col : Type 0} (column_name : Col → String) where
  -- the loop over `table_obj.columns`
  abbrev pub column_named : List Col → String → Option Col
  column_named [] col_name = none
  column_named (column ∷ columns) col_name =
      if str_eq (column_name column) col_name then some column else column_named columns col_name

  -- the columns of `expr.output_objs`
  unfoldable pub set_outputs : Dict (Option Col) → List Col → Dict (Option Col)
  unfolding dict_set
  set_outputs col_alias_map [] = col_alias_map
  set_outputs col_alias_map (obj ∷ objs) =
      set_outputs (dict_set col_alias_map (column_name obj) (some obj)) objs

  -- the loop over the target list
  unfoldable pub set_targets : Dict (Option Col) → List (Target Col) → Dict (Option Col)
  unfolding dict_set set_outputs
  set_targets col_alias_map [] = col_alias_map
  set_targets col_alias_map (function_target output_objs ∷ exprs) =
      set_targets (set_outputs col_alias_map output_objs) exprs
  set_targets col_alias_map (tuple_target name col_object ∷ exprs) =
      set_targets (dict_set col_alias_map name col_object) exprs
  set_targets col_alias_map (other_target ∷ exprs) = set_targets col_alias_map exprs

module _ {Col : Type 0} where
  -- `_check_duplicate_alias`
  unfoldable pub check_duplicate_alias : StatementBinderContext Col → String → Result (Unit {0})
  check_duplicate_alias context alias =
      if contains (keys_in context.derived_table_alias_map) alias
        || contains (keys_in context.table_alias_map) alias
      then err binder_error
      else ok tt

  -- `add_table_alias`, given what the data source or the catalog answers
  unfoldable pub add_table_alias :
      (String → String → Result (TableCatalogEntry Col))
      → (String → Option (TableCatalogEntry Col))
      → StatementBinderContext Col
      → String
      → Option String
      → String
      → Result (StatementBinderContext Col)
  unfolding check_duplicate_alias dict_set
  add_table_alias data_source get_table_catalog_entry context alias database_name table_name =
      check_duplicate_alias context alias >> found database_name >>= (λ table_obj.
        ok (record context { table_alias_map = dict_set context.table_alias_map alias table_obj }))
    where
      found : Option String → Result (Option (TableCatalogEntry Col))
      found (some database) = data_source database table_name >>= λ table_obj. ok (some table_obj)
      found none = ok (get_table_catalog_entry table_name)

  -- `add_derived_table_alias`
  unfoldable pub add_derived_table_alias :
      (Col → String)
      → StatementBinderContext Col
      → String
      → List (Target Col)
      → Result (StatementBinderContext Col)
  unfolding check_duplicate_alias dict_set set_targets
  add_derived_table_alias column_name context alias target_list =
      check_duplicate_alias context alias
      >> ok (record context {
        derived_table_alias_map =
            dict_set context.derived_table_alias_map alias (set_targets column_name [] target_list);
      })

  -- `_check_derived_table_alias_map`
  unfoldable pub check_derived_table_alias_map :
      StatementBinderContext Col → String → String → Option Col
  unfolding dict_get
  check_derived_table_alias_map context alias col_name =
      elim (dict_get context.derived_table_alias_map alias) [
        | none ↦ none
        | some col_objs_map ↦ flat (dict_get col_objs_map col_name)
      ]

  -- a loop of `_search_all_alias_maps`: the number of matches, and the last one
  unfoldable pub count_matches :
      (String → Option Col) → List String → ℕ × Option (String × Col) → ℕ × Option (String × Col)
  count_matches find [] found = found
  count_matches find (alias ∷ aliases) found = elim (find alias) [
    | none ↦ count_matches find aliases found
    | some col_obj ↦ count_matches find aliases (found.0 + 1, some (alias, col_obj))
  ]

-- `column_name` of an entry, and `get_column_catalog_entry` of the catalog
module _ {Col : Type 0} (column_name : Col → String)
    (get_column_catalog_entry : TableCatalogEntry Col → String → Option Col) where
  -- the column of a table: the catalog is asked unless the data is native
  abbrev pub column_of : Option (TableCatalogEntry Col) → String → Option Col
  column_of none col_name = none
  column_of (some (table_entry native_data columns)) col_name =
      column_named column_name columns col_name
  column_of (some table_obj) col_name = get_column_catalog_entry table_obj col_name

  -- `_check_table_alias_map`
  unfoldable pub check_table_alias_map : StatementBinderContext Col → String → String → Option Col
  unfolding dict_get
  check_table_alias_map context alias col_name =
      column_of (flat (dict_get context.table_alias_map alias)) col_name

  -- `_search_all_alias_maps`
  unfoldable pub search_all_alias_maps :
      StatementBinderContext Col → String → Result (Option (String × Col))
  unfolding count_matches check_table_alias_map check_derived_table_alias_map
  search_all_alias_maps context col_name =
      let tables =
        count_matches (λ alias. check_table_alias_map context alias col_name)
          (keys_in context.table_alias_map) (0, none) in
      let all =
        count_matches (λ alias. check_derived_table_alias_map context alias col_name)
          (keys_in context.derived_table_alias_map) tables in
      if ltb 1 all.0 then err binder_error else ok all.1

  -- `get_binded_column`
  unfoldable pub get_binded_column :
      StatementBinderContext Col → String → Option String → Result (String × Col)
  unfolding search_all_alias_maps check_table_alias_map check_derived_table_alias_map
  get_binded_column context col_name given = elim (given_alias given) [
    | none ↦ search_all_alias_maps context col_name >>= or_raise binder_error
    | some alias ↦ elim (check_table_alias_map context alias col_name) [
      | some col_obj ↦ ok (alias, col_obj)
      | none ↦ elim (check_derived_table_alias_map context alias col_name) [
        | some col_obj ↦ ok (alias, col_obj)
        | none ↦ err binder_error
      ]
    ]
  ]
