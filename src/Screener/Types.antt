-- ===== src/Screener/Types.antt =====
-- The operators, the registry of fields and the expressions of backend/app/domain/screener.py.
use tw_stock_android_spec.Base.{
  String, ◌≡◌, refl, Option, none, some, List, [], ◌∷◌, if◌then◌else◌, str_eq,
}
use tw_stock_android_spec.Value.{Value}

pub data Operator : Type 0 where
  gt gte lt lte eq ne between is_in not_in is_available is_unavailable : Operator

-- `operator.value`
unfoldable pub name_of : Operator → String
name_of gt = "GT"
name_of gte = "GTE"
name_of lt = "LT"
name_of lte = "LTE"
name_of eq = "EQ"
name_of ne = "NE"
name_of between = "BETWEEN"
name_of is_in = "IN"
name_of not_in = "NOT_IN"
name_of is_available = "IS_AVAILABLE"
name_of is_unavailable = "IS_UNAVAILABLE"

-- `ScreenerOperator(value)`
unfoldable pub operator_of : String → Option Operator
operator_of s =
    if str_eq s "GT"
    then some gt
    else if str_eq s "GTE"
    then some gte
    else if str_eq s "LT"
    then some lt
    else if str_eq s "LTE"
    then some lte
    else if str_eq s "EQ"
    then some eq
    else if str_eq s "NE"
    then some ne
    else if str_eq s "BETWEEN"
    then some between
    else if str_eq s "IN"
    then some is_in
    else if str_eq s "NOT_IN"
    then some not_in
    else if str_eq s "IS_AVAILABLE"
    then some is_available
    else if str_eq s "IS_UNAVAILABLE"
    then some is_unavailable
    else none

pub operator_of-name_of : (o : Operator) → operator_of (name_of o) ≡ some o
unfolding operator_of name_of
operator_of-name_of gt = refl
operator_of-name_of gte = refl
operator_of-name_of lt = refl
operator_of-name_of lte = refl
operator_of-name_of eq = refl
operator_of-name_of ne = refl
operator_of-name_of between = refl
operator_of-name_of is_in = refl
operator_of-name_of not_in = refl
operator_of-name_of is_available = refl
operator_of-name_of is_unavailable = refl

pub data FilterCategory : Type 0 where
  price_return technical institutional credit taxonomy industry_strength : FilterCategory

pub data FieldType : Type 0 where
  numeric words truth : FieldType

-- A field's entry, without its label and unit, which are only shown.
pub record FieldMeta : Type 0 where
  pub category : FilterCategory
  pub value_type : FieldType
  pub allowed_operators : List Operator

abbrev pub ordering : List Operator
ordering = gt ∷ gte ∷ lt ∷ lte ∷ []

abbrev pub ranges : List Operator
ranges = gt ∷ gte ∷ lt ∷ lte ∷ between ∷ []

abbrev pub choices : List Operator
choices = eq ∷ ne ∷ is_in ∷ not_in ∷ []

abbrev pub meta : FilterCategory → FieldType → List Operator → Option FieldMeta
meta category value_type operators =
    some (record { category = category; value_type = value_type; allowed_operators = operators })

-- `SCREENER_FIELDS_REGISTRY.get(field)`
unfoldable pub field_meta : String → Option FieldMeta
field_meta f =
    if str_eq f "close"
    then meta price_return numeric (gt ∷ gte ∷ lt ∷ lte ∷ between ∷ is_available ∷ [])
    else if str_eq f "return_1d"
    then meta price_return numeric ranges
    else if str_eq f "return_5d"
    then meta price_return numeric ranges
    else if str_eq f "rsi14"
    then meta technical numeric ranges
    else if str_eq f "close_vs_ma20"
    then meta technical numeric ordering
    else if str_eq f "close_vs_ma60"
    then meta technical numeric ordering
    else if str_eq f "close_vs_ma240"
    then meta technical numeric ordering
    else if str_eq f "foreign_5d_net"
    then meta institutional numeric ordering
    else if str_eq f "trust_5d_net"
    then meta institutional numeric ordering
    else if str_eq f "margin_balance_change"
    then meta credit numeric ordering
    else if str_eq f "industry_name"
    then meta taxonomy words choices
    else if str_eq f "theme_name"
    then meta taxonomy words choices
    else if str_eq f "industry_strength_score"
    then meta industry_strength numeric ranges
    else none

-- `field` is any JSON value, since nothing checks it before the registry is asked.
mutual
  pub data Expression : Type 0 where
    node :
        (type : String) (field : Value) (operator : Option Operator) (value value2 : Value)
        → Expressions
        → Expression

  pub data Expressions : Type 0 where
    leaf : Expressions
    child : Expression → Expressions → Expressions
