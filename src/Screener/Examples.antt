-- ===== src/Screener/Examples.antt =====
-- A condition tree as a request has it, and each theorem on the trees at that input.
use tw_stock_android_spec.Base.{◌≡◌, refl, some, [], ◌∷◌}
use tw_stock_android_spec.Base.Int.{pos}
use tw_stock_android_spec.Outcome.{ok, err, app_error}
use tw_stock_android_spec.Value.{
  Value, null, int, text, array, dict, nil, cons, fields, truthy, lookup,
}
use tw_stock_android_spec.Screener.Types.{
  gt, between, name_of, operator_of, field_meta, Expression, node, leaf, child,
}
use tw_stock_android_spec.Screener.Ast.{
  read_operator, read_condition, group, read_text, read_node, read_child, dict_to_expression,
  with_value2, expression_to_dict, registered, validate_value, validate_operator,
  validate_condition, validate_expression,
}
use tw_stock_android_spec.Screener.Roundtrip.{reread}
use tw_stock_android_spec.Screener.Whitelist.{IsSafe, validate_expression-IsSafe}

program : Unit {0}
unfolding truthy lookup name_of operator_of field_meta read_operator read_condition read_text
    read_node read_child dict_to_expression with_value2 expression_to_dict registered validate_value
    validate_operator validate_condition validate_expression
program = tt

abbrev cheap : Value
cheap = dict (
    fields (
      ("type", text "CONDITION")
      ∷ ("field", text "close")
      ∷ ("operator", text "GT")
      ∷ ("value", int (pos 100))
      ∷ []))

abbrev request : Value
request = dict (fields (("type", text "AND") ∷ ("children", array (cons cheap nil)) ∷ []))

abbrev tree : Expression
tree =
    group "AND" (child (node "CONDITION" (text "close") (some gt) (int (pos 100)) null leaf) leaf)

request_reads : dict_to_expression request ≡ ok tree
unfolding program
request_reads = refl

tree_is_valid : validate_expression tree ≡ ok tt
unfolding program
tree_is_valid = refl

empty_group : validate_expression (group "OR" leaf) ≡ err (app_error "INVALID_AST_GROUP" 400)
unfolding program
empty_group = refl

not_allowed :
    validate_expression (node "CONDITION" (text "close_vs_ma20") (some between) null null leaf)
    ≡ err (app_error "INVALID_AST_OPERATOR" 400)
unfolding program
not_allowed = refl

reread_example : dict_to_expression (expression_to_dict tree) ≡ ok tree
reread_example = reread request request_reads

validate_expression-IsSafe_example : IsSafe tree
validate_expression-IsSafe_example = validate_expression-IsSafe tree tree_is_valid
