-- ===== src/Optimizer/OperatorType.antt =====
-- optimizer/operators.py: the members of `OperatorType`.
use eva.Prelude.{ℕ, Bool, ◌==◌}

pub data OperatorType : Type 0 where
  opr_dummy : OperatorType
  logicalexchange : OperatorType
  logicalget : OperatorType
  logicalfilter : OperatorType
  logicalproject : OperatorType
  logicalinsert : OperatorType
  logicaldelete : OperatorType
  logicalcreate : OperatorType
  logicalrename : OperatorType
  logical_drop_object : OperatorType
  logicalcreatefunction : OperatorType
  logicalloaddata : OperatorType
  logicalqueryderivedget : OperatorType
  logicalunion : OperatorType
  logicalgroupby : OperatorType
  logicalorderby : OperatorType
  logicallimit : OperatorType
  logicalsample : OperatorType
  logicaljoin : OperatorType
  logicalfunctionscan : OperatorType
  logical_show : OperatorType
  logicalexplain : OperatorType
  logicalcreateindex : OperatorType
  logical_apply_and_merge : OperatorType
  logical_extract_object : OperatorType
  logical_vector_index_scan : OperatorType
  logical_use : OperatorType
  logicaldelimiter : OperatorType

abbrev pub operator_value : OperatorType → ℕ
operator_value opr_dummy = 1
operator_value logicalexchange = 2
operator_value logicalget = 3
operator_value logicalfilter = 4
operator_value logicalproject = 5
operator_value logicalinsert = 6
operator_value logicaldelete = 7
operator_value logicalcreate = 8
operator_value logicalrename = 9
operator_value logical_drop_object = 10
operator_value logicalcreatefunction = 11
operator_value logicalloaddata = 12
operator_value logicalqueryderivedget = 13
operator_value logicalunion = 14
operator_value logicalgroupby = 15
operator_value logicalorderby = 16
operator_value logicallimit = 17
operator_value logicalsample = 18
operator_value logicaljoin = 19
operator_value logicalfunctionscan = 20
operator_value logical_show = 21
operator_value logicalexplain = 22
operator_value logicalcreateindex = 23
operator_value logical_apply_and_merge = 24
operator_value logical_extract_object = 25
operator_value logical_vector_index_scan = 26
operator_value logical_use = 27
operator_value logicaldelimiter = 28

abbrev pub eq_operator_type : OperatorType → OperatorType → Bool
eq_operator_type a b = operator_value a == operator_value b
