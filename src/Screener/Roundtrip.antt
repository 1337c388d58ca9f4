-- ===== src/Screener/Roundtrip.antt =====
-- Reading a condition tree and writing it back (backend/app/services/screener_ast.py).
use tw_stock_android_spec.Base.{
  String, ◌≡◌, refl, sym, ap, subst, true, Option, none, some, str_eq, eq_iff, Bool-cases, inl, inr,
  arith,
}
use tw_stock_android_spec.Outcome.{Result, ok, err, Error, >>=-eq-ok, ok-injective}
use tw_stock_android_spec.Value.{
  Value, null, bool, int, real, text, uuid, time, array, dict, Items, nil, cons, Fields, end, field,
  truthy, get, lookup,
}
use tw_stock_android_spec.Screener.Types.{
  Operator, gt, gte, lt, lte, eq, ne, between, is_in, not_in, is_available, is_unavailable, name_of,
  operator_of, Expression, node, Expressions, leaf, child,
}
use tw_stock_android_spec.Screener.Ast.{
  read_operator, read_condition, is_group, group, read_text, read_node, read_child,
  dict_to_expression, read_children, read_list, read_items, operator_value, with_value2,
  expression_to_dict, children_to_items,
}

-- A tree whose conditions have no children and whose groups have nothing else.
mutual
  pub data IsPlain : Expression → Type 0 where
    condition :
        (f : Value) (o : Option Operator) (v w : Value) → IsPlain (node "CONDITION" f o v w leaf)
    both : (es : Expressions) → ArePlain es → IsPlain (group "AND" es)
    either : (es : Expressions) → ArePlain es → IsPlain (group "OR" es)

  pub data ArePlain : Expressions → Type 0 where
    none_left : ArePlain leaf
    one_more : (e : Expression) (es : Expressions) → IsPlain e → ArePlain es → ArePlain (child e es)

read_operator-value : (o : Option Operator) → read_operator (operator_value o) ≡ ok o
unfolding read_operator name_of operator_of truthy
read_operator-value none = refl
read_operator-value (some gt) = refl
read_operator-value (some gte) = refl
read_operator-value (some lt) = refl
read_operator-value (some lte) = refl
read_operator-value (some eq) = refl
read_operator-value (some ne) = refl
read_operator-value (some between) = refl
read_operator-value (some is_in) = refl
read_operator-value (some not_in) = refl
read_operator-value (some is_available) = refl
read_operator-value (some is_unavailable) = refl

get-with_value2 : (w : Value) → get "value2" (with_value2 w) ≡ w
unfolding with_value2 lookup
get-with_value2 null = refl
get-with_value2 (bool b) = refl
get-with_value2 (int z) = refl
get-with_value2 (real d) = refl
get-with_value2 (text s) = refl
get-with_value2 (uuid n) = refl
get-with_value2 (time n) = refl
get-with_value2 (array vs) = refl
get-with_value2 (dict fs) = refl

condition-reread :
    (f : Value) (o : Option Operator) (v w : Value)
    → dict_to_expression (expression_to_dict (node "CONDITION" f o v w leaf))
      ≡ ok (node "CONDITION" f o v w leaf)
unfolding dict_to_expression expression_to_dict read_node read_text read_condition lookup
condition-reread f o v w =
    rw (read_operator-value o) (ap (λ x. ok (node "CONDITION" f o v x leaf)) (get-with_value2 w))

mutual
  unfolding dict_to_expression expression_to_dict read_node read_text lookup read_child

  plain-reread : (e : Expression) → IsPlain e → dict_to_expression (expression_to_dict e) ≡ ok e
  plain-reread _ (condition f o v w) = condition-reread f o v w
  plain-reread _ (both es p) = rw (plain-reread_all es p) refl
  plain-reread _ (either es p) = rw (plain-reread_all es p) refl

  plain-reread_all : (es : Expressions) → ArePlain es → read_items (children_to_items es) ≡ ok es
  plain-reread_all _ none_left = refl
  plain-reread_all _ (one_more e es p q) = rw (plain-reread e p, plain-reread_all es q) refl

err_ok : {A : Type 0} {e : Error} {a : A} → err e ≡ ok a → ⊥
err_ok p = cc

read_condition-IsPlain : (fs : Fields) (e : Expression) → read_condition fs ≡ ok e → IsPlain e
unfolding read_condition
read_condition-IsPlain fs e h =
    let r = >>=-eq-ok (read_operator (get "operator" fs)) _ h in
    subst IsPlain (ok-injective r.2)
      (condition (get "field" fs) r.0 (get "value" fs) (get "value2" fs))

group-IsPlain :
    (s : String) (es : Expressions) → is_group s ≡ true → ArePlain es → IsPlain (group s es)
group-IsPlain s es h p = elim (Bool-cases (str_eq s "AND")) [
  | inl t ↦ subst (λ n. IsPlain (group n es)) (sym ((eq_iff s "AND").0 t)) (both es p)
  | inr t ↦ subst (λ n. IsPlain (group n es)) (sym ((eq_iff s "OR").0 (rw t at h))) (either es p)
]

read_text-IsPlain :
    (fs : Fields) (s : String) (children : Result Expressions) (e : Expression)
    → ((es : Expressions) → children ≡ ok es → ArePlain es)
    → read_text fs s children ≡ ok e
    → IsPlain e
unfolding read_text
read_text-IsPlain fs s children e p h = elim (Bool-cases (str_eq s "CONDITION")) [
  | inl t ↦ read_condition-IsPlain fs e (rw t at h)
  | inr t ↦ elim (Bool-cases (is_group s)) [
    | inl u ↦
        let r = >>=-eq-ok children (λ cs. ok (group s cs)) (rw (t, u) at h) in
        subst IsPlain (ok-injective r.2) (group-IsPlain s r.0 u (p r.0 r.1))
    | inr u ↦ absurd (err_ok (rw (t, u) at h))
  ]
]

read_node-IsPlain :
    (fs : Fields) (v : Value) (children : Result Expressions) (e : Expression)
    → ((es : Expressions) → children ≡ ok es → ArePlain es)
    → read_node fs v children ≡ ok e
    → IsPlain e
unfolding read_node
read_node-IsPlain fs (text s) children e p h = elim (Bool-cases (str_eq s "")) [
  | inl t ↦ absurd (err_ok (rw t at h))
  | inr t ↦ read_text-IsPlain fs s children e p (rw t at h)
]
read_node-IsPlain fs null children e p h = ground arith
read_node-IsPlain fs (bool b) children e p h = ground arith
read_node-IsPlain fs (int z) children e p h = ground arith
read_node-IsPlain fs (real d) children e p h = ground arith
read_node-IsPlain fs (uuid n) children e p h = ground arith
read_node-IsPlain fs (time n) children e p h = ground arith
read_node-IsPlain fs (array vs) children e p h = ground arith
read_node-IsPlain fs (dict gs) children e p h = ground arith

mutual
  unfolding dict_to_expression read_child

  read-IsPlain : (v : Value) (e : Expression) → dict_to_expression v ≡ ok e → IsPlain e
  read-IsPlain (dict fs) e h =
      read_node-IsPlain fs (get "type" fs) (read_children fs) e (read_children-ArePlain fs) h
  read-IsPlain null e h = absurd (err_ok h)
  read-IsPlain (bool b) e h = absurd (err_ok h)
  read-IsPlain (int z) e h = absurd (err_ok h)
  read-IsPlain (real d) e h = absurd (err_ok h)
  read-IsPlain (text s) e h = absurd (err_ok h)
  read-IsPlain (uuid n) e h = absurd (err_ok h)
  read-IsPlain (time n) e h = absurd (err_ok h)
  read-IsPlain (array vs) e h = absurd (err_ok h)

  read_children-ArePlain : (fs : Fields) (es : Expressions) → read_children fs ≡ ok es → ArePlain es
  read_children-ArePlain end es h = subst ArePlain (ok-injective h) none_left
  read_children-ArePlain (field k v fs) es h = elim (Bool-cases (str_eq k "children")) [
    | inl t ↦ read_list-ArePlain v es (rw t at h)
    | inr t ↦ read_children-ArePlain fs es (rw t at h)
  ]

  read_list-ArePlain : (v : Value) (es : Expressions) → read_list v ≡ ok es → ArePlain es
  read_list-ArePlain (array items) es h = read_items-ArePlain items es h
  read_list-ArePlain null es h = absurd (err_ok h)
  read_list-ArePlain (bool b) es h = absurd (err_ok h)
  read_list-ArePlain (int z) es h = absurd (err_ok h)
  read_list-ArePlain (real d) es h = absurd (err_ok h)
  read_list-ArePlain (text s) es h = absurd (err_ok h)
  read_list-ArePlain (uuid n) es h = absurd (err_ok h)
  read_list-ArePlain (time n) es h = absurd (err_ok h)
  read_list-ArePlain (dict fs) es h = absurd (err_ok h)

  read_items-ArePlain : (items : Items) (es : Expressions) → read_items items ≡ ok es → ArePlain es
  read_items-ArePlain nil es h = subst ArePlain (ok-injective h) none_left
  read_items-ArePlain (cons v items) es h =
      let r = >>=-eq-ok (dict_to_expression v) _ h in
      let q = >>=-eq-ok (read_items items) _ r.2 in
      subst ArePlain (ok-injective q.2)
        (one_more r.0 q.0 (read-IsPlain v r.0 r.1) (read_items-ArePlain items q.0 q.1))

-- What was read from a request can be stored and read again: the tree that a value reads as is written
-- to a value that reads as the same tree.
pub reread :
    (v : Value) {e : Expression}
    → dict_to_expression v ≡ ok e
    → dict_to_expression (expression_to_dict e) ≡ ok e
reread v {e} h = plain-reread e (read-IsPlain v e h)
