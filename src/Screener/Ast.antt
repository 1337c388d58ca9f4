-- ===== src/Screener/Ast.antt =====
-- `validate_expression`, `dict_to_expression` and `expression_to_dict`
-- (backend/app/services/screener_ast.py).
use tw_stock_android_spec.Base.{
  String, Bool, true, false, not, ◌||◌, Option, none, some, any, if◌then◌else◌, str_eq,
}
use tw_stock_android_spec.Outcome.{
  Result, ok, err, Error, app_error, value_error, type_error, ◌>>=◌, ◌>>◌, raise_if, or_raise,
}
use tw_stock_android_spec.Value.{
  Value, null, text, array, dict, Items, nil, cons, Fields, end, field, truthy, is_null, get,
}
use tw_stock_android_spec.Screener.Types.{
  Operator, between, is_in, not_in, is_available, is_unavailable, name_of, operator_of, FieldMeta,
  field_meta, Expression, node, Expressions, leaf, child,
}

abbrev pub bad_format : Error
bad_format = app_error "INVALID_AST_FORMAT" 400

abbrev pub bad_type : Error
bad_type = app_error "INVALID_AST_NODE_TYPE" 400

abbrev pub bad_field : Error
bad_field = app_error "INVALID_AST_FIELD" 400

abbrev pub bad_operator : Error
bad_operator = app_error "INVALID_AST_OPERATOR" 400

abbrev pub bad_value : Error
bad_value = app_error "INVALID_AST_VALUE" 400

-- `ScreenerOperator(op_raw) if op_raw else None`
unfoldable pub read_operator : Value → Result (Option Operator)
read_operator (text s) =
    if str_eq s "" then ok none else or_raise (operator_of s) value_error >>= λ o. ok (some o)
read_operator v = if truthy v then err value_error else ok none

unfoldable pub read_condition : Fields → Result Expression
read_condition fs = do
  operator ← read_operator (get "operator" fs)
  ok (node "CONDITION" (get "field" fs) operator (get "value" fs) (get "value2" fs) leaf)

abbrev pub is_group : String → Bool
is_group s = str_eq s "AND" || str_eq s "OR"

abbrev pub group : String → Expressions → Expression
group s children = node s null none null null children

-- The three kinds of node; `children` is what the children read as, which a condition does not ask.
unfoldable pub read_text : Fields → String → Result Expressions → Result Expression
read_text fs s children =
    if str_eq s "CONDITION"
    then read_condition fs
    else if is_group s
    then children >>= (λ cs. ok (group s cs))
    else err bad_type

unfoldable pub read_node : Fields → Value → Result Expressions → Result Expression
read_node fs (text s) children = if str_eq s "" then err bad_format else read_text fs s children
read_node fs v children = if truthy v then err bad_type else err bad_format

unfoldable pub read_child : Result Expression → Result Expressions → Result Expressions
read_child first rest = do e ← first; es ← rest; ok (child e es)

unfoldable mutual
  pub dict_to_expression : Value → Result Expression
  dict_to_expression (dict fs) = read_node fs (get "type" fs) (read_children fs)
  dict_to_expression v = err bad_format

  -- `data.get("children", [])`, each of them read
  pub read_children : Fields → Result Expressions
  read_children end = ok leaf
  read_children (field k v fs) = if str_eq k "children" then read_list v else read_children fs

  pub read_list : Value → Result Expressions
  read_list (array items) = read_items items
  read_list v = err bad_format

  pub read_items : Items → Result Expressions
  read_items nil = ok leaf
  read_items (cons v items) = read_child (dict_to_expression v) (read_items items)

abbrev pub operator_value : Option Operator → Value
operator_value none = null
operator_value (some o) = text (name_of o)

-- `if expr.value2 is not None: res["value2"] = expr.value2`
unfoldable pub with_value2 : Value → Fields
with_value2 v = if is_null v then end else field "value2" v end

unfoldable mutual
  pub expression_to_dict : Expression → Value
  expression_to_dict (node s f o v w children) =
      if str_eq s "CONDITION"
      then dict (
          field "type" (text "CONDITION") (
            field "field" f
              (field "operator" (operator_value o) (field "value" v (with_value2 w)))))
      else dict (field "type" (text s) (field "children" (array (children_to_items children)) end))

  pub children_to_items : Expressions → Items
  children_to_items leaf = nil
  children_to_items (child e es) = cons (expression_to_dict e) (children_to_items es)

abbrev pub is_array : Value → Bool
is_array (array items) = true
is_array _ = false

-- `expr.field not in SCREENER_FIELDS_REGISTRY`, which asks for a hash
unfoldable pub registered : Value → Result FieldMeta
registered (text f) = or_raise (field_meta f) bad_field
registered (array items) = if truthy (array items) then err type_error else err bad_field
registered (dict fs) = if truthy (dict fs) then err type_error else err bad_field
registered v = err bad_field

abbrev pub check_value : Bool → Result (Unit {0})
check_value fits = raise_if (not fits) bad_value

unfoldable pub validate_value : Operator → Value → Value → Result (Unit {0})
validate_value is_available v w = ok tt
validate_value is_unavailable v w = ok tt
validate_value between v w = check_value (not (is_null v || is_null w))
validate_value is_in v w = check_value (is_array v)
validate_value not_in v w = check_value (is_array v)
validate_value o v w = check_value (not (is_null v))

abbrev pub same_operator : Operator → Operator → Bool
same_operator o p = str_eq (name_of o) (name_of p)

unfoldable pub validate_operator : Option Operator → FieldMeta → Result Operator
validate_operator none meta = err bad_operator
validate_operator (some o) meta =
    if any (same_operator o) meta.allowed_operators then ok o else err bad_operator

unfoldable pub validate_condition : Value → Option Operator → Value → Value → Result (Unit {0})
validate_condition f o v w = do
  meta ← registered f
  operator ← validate_operator o meta
  validate_value operator v w

abbrev pub is_leaf : Expressions → Bool
is_leaf leaf = true
is_leaf (child e es) = false

unfoldable mutual
  pub validate_expression : Expression → Result (Unit {0})
  validate_expression (node s f o v w children) =
      if str_eq s "CONDITION"
      then validate_condition f o v w
      else if not (is_group s)
      then err bad_type
      else if is_leaf children
      then err (app_error "INVALID_AST_GROUP" 400)
      else validate_children children

  pub validate_children : Expressions → Result (Unit {0})
  validate_children leaf = ok tt
  validate_children (child e es) = validate_expression e >> validate_children es
