-- ===== src/Examples/Binders.antt =====
-- The theorems on the binder's context, where entries of columns are their names.
use eva.Binder.Context.Aliases.{IsUnambiguous, add_table_alias-IsUnambiguous}
use eva.Binder.Context.Defs.{
  dict_get, dict_set, TableCatalogEntry, table_entry, Target, function_target, tuple_target,
  StatementBinderContext, set_outputs, set_targets, check_duplicate_alias, add_table_alias,
  add_derived_table_alias, check_derived_table_alias_map, count_matches, check_table_alias_map,
  search_all_alias_maps, get_binded_column,
}
use eva.Binder.Context.Derived.{get_binded_column-add_derived_table_alias}
use eva.Binder.Context.Qualified.{get_binded_column-qualified}
use eva.Binder.Context.Resolves.{the_only, owners, get_binded_column-the_only}
use eva.Binder.Context.Star.{
  table_columns, derived_columns, get_all_alias_and_col_name, AllBound,
  get_all_alias_and_col_name-AllBound,
}
use eva.Examples.Conditions.{column}
use eva.Optimizer.Operators.{native_data}
use eva.Prelude.{String, ◌≡◌, refl, false, Option, none, some, List, [], ◌∷◌}
use eva.Prelude.Result.{binder_error, Result, err, ok}
use eva.Prelude.Texts.{contains}

abbrev own_name : String → String
own_name column = column

abbrev no_answer : TableCatalogEntry String → String → Option String
no_answer table col_name = none

abbrev empty_context : StatementBinderContext String
empty_context = record {
  table_alias_map = [];
  derived_table_alias_map = [];
  retrieve_audio = false;
  retrieve_video = false;
}

abbrev one_table : String → Option (TableCatalogEntry String)
one_table table = some (table_entry native_data ("id" ∷ "label" ∷ []))

abbrev no_source : String → String → Result (TableCatalogEntry String)
no_source database table = err binder_error

-- a table with the columns `id` and `label`, under the alias `t`
abbrev with_table : StatementBinderContext String
with_table = record empty_context { table_alias_map = ("t", one_table "videos") ∷ [] }

-- the outputs `label` and `score` of a function, then a column with the name `label`
abbrev function_outputs : List (Target String)
function_outputs = function_target ("label" ∷ "score" ∷ []) ∷ tuple_target "label" (some "id") ∷ []

abbrev with_function : StatementBinderContext String
with_function = record with_table {
  derived_table_alias_map = ("f", (("label", some "id") ∷ ("score", some "score") ∷ [])) ∷ [];
}

table_added : add_table_alias no_source one_table empty_context "t" none "videos" ≡ ok with_table
unfolding add_table_alias check_duplicate_alias dict_set contains
table_added = refl

function_added : add_derived_table_alias own_name with_table "f" function_outputs ≡ ok with_function
unfolding add_derived_table_alias check_duplicate_alias dict_set contains set_targets set_outputs
function_added = refl

add_table_alias-IsUnambiguous_example : IsUnambiguous with_table
add_table_alias-IsUnambiguous_example =
    add_table_alias-IsUnambiguous no_source one_table empty_context "t" none "videos" with_table tt
      table_added

get_binded_column-the_only_example :
    get_binded_column own_name no_answer with_function "score" none
    ≡ the_only (owners own_name no_answer with_function "score")
get_binded_column-the_only_example =
    get_binded_column-the_only own_name no_answer with_function "score"

-- a column of the table and of the function
label_is_ambiguous :
    get_binded_column own_name no_answer with_function "label" none ≡ err binder_error
unfolding get_binded_column search_all_alias_maps count_matches check_table_alias_map
    check_derived_table_alias_map dict_get
label_is_ambiguous = refl

score_found : get_binded_column own_name no_answer with_function "score" none ≡ ok ("f", "score")
unfolding get_binded_column search_all_alias_maps count_matches check_table_alias_map
    check_derived_table_alias_map dict_get
score_found = refl

get_binded_column-qualified_example :
    get_binded_column own_name no_answer with_function "score" (some "f") ≡ ok ("f", "score")
get_binded_column-qualified_example =
    get_binded_column-qualified own_name no_answer with_function "score" "f" "score" score_found

get_binded_column-add_derived_table_alias_example :
    get_binded_column own_name no_answer with_function "label" (some "f") ≡ ok ("f", "id")
get_binded_column-add_derived_table_alias_example =
    get_binded_column-add_derived_table_alias own_name no_answer with_table "f" function_outputs
      with_function "label" refl function_added

star_of_both :
    get_all_alias_and_col_name own_name with_function
    ≡ ok (("t", "id") ∷ ("t", "label") ∷ ("f", "label") ∷ ("f", "score") ∷ [])
unfolding get_all_alias_and_col_name table_columns derived_columns
star_of_both = refl

with_function-IsUnambiguous : IsUnambiguous with_function
unfolding contains
with_function-IsUnambiguous = (refl, (refl, tt))

get_all_alias_and_col_name-AllBound_example :
    (alias_cols : List (String × String)) × (get_all_alias_and_col_name own_name with_function
      ≡ ok alias_cols)
    × AllBound own_name no_answer with_function alias_cols
get_all_alias_and_col_name-AllBound_example =
    get_all_alias_and_col_name-AllBound own_name no_answer with_function with_function-IsUnambiguous
      refl refl
