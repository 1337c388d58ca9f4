-- ===== src/Screener/Whitelist.antt =====
-- What the validation of a condition tree guarantees (backend/app/services/screener_ast.py).
use tw_stock_android_spec.Base.{
  String, ◌≡◌, ◌⊎◌, refl, ap, ◌∙◌, subst, true, false, Option, none, some, str_eq, eq_iff,
  Bool-cases, Option-cases, inl, inr, any, arith,
}
use tw_stock_android_spec.Outcome.{ok, err, Error, >>=-eq-ok, ok-injective}
use tw_stock_android_spec.Value.{Value, null, bool, int, real, text, uuid, time, array, dict}
use tw_stock_android_spec.Screener.Types.{
  Operator, FieldMeta, field_meta, Expression, node, Expressions, leaf, child,
}
use tw_stock_android_spec.Screener.Ast.{
  is_group, registered, validate_operator, validate_condition, is_leaf, same_operator,
  validate_expression, validate_children,
}

-- A field of the registry with an operator that it allows.
abbrev pub IsListed : Value → Option Operator → Type 0
IsListed f o =
    (name : String) × (meta : FieldMeta) × (op : Operator) × (f ≡ text name)
    × (field_meta name ≡ some meta)
    × (o ≡ some op)
    × (any (same_operator op) meta.allowed_operators ≡ true)

-- Every condition of the tree is listed, and every group has a child.
unfoldable mutual
  pub IsSafe : Expression → Type 0
  IsSafe (node s f o v w es) =
      ((s ≡ "CONDITION") × IsListed f o) ⊎ ((is_group s ≡ true) × (is_leaf es ≡ false) × AreSafe es)

  pub AreSafe : Expressions → Type 0
  AreSafe leaf = Unit
  AreSafe (child e es) = IsSafe e × AreSafe es

err_ok : {A : Type 0} {e : Error} {a : A} → err e ≡ ok a → ⊥
err_ok p = cc

registered-ok :
    (f : Value) (meta : FieldMeta)
    → registered f ≡ ok meta
    → (name : String) × (f ≡ text name) × (field_meta name ≡ some meta)
unfolding registered
registered-ok (text n) meta h = elim (Option-cases (field_meta n)) [
  | inl t ↦ absurd (err_ok (rw t at h))
  | inr (m, t) ↦ (n, refl, t ∙ ap some (ok-injective (rw t at h)))
]
registered-ok null meta h = absurd (err_ok h)
registered-ok (bool b) meta h = absurd (err_ok h)
registered-ok (int z) meta h = absurd (err_ok h)
registered-ok (real d) meta h = absurd (err_ok h)
registered-ok (uuid n) meta h = absurd (err_ok h)
registered-ok (time n) meta h = absurd (err_ok h)
registered-ok (array vs) meta h = ground arith
registered-ok (dict fs) meta h = ground arith

validate_operator-ok :
    (o : Option Operator) (meta : FieldMeta) (op : Operator)
    → validate_operator o meta ≡ ok op
    → (o ≡ some op) × (any (same_operator op) meta.allowed_operators ≡ true)
unfolding validate_operator
validate_operator-ok none meta op h = absurd (err_ok h)
validate_operator-ok (some p) meta op h =
    elim (Bool-cases (any (same_operator p) meta.allowed_operators)) [
      | inl t ↦
          let e = ok-injective (rw t at h) in
          (ap some e, subst (λ q. any (same_operator q) meta.allowed_operators ≡ true) e t)
      | inr t ↦ absurd (err_ok (rw t at h))
    ]

validate_condition-IsListed :
    (f : Value) (o : Option Operator) (v w : Value)
    → validate_condition f o v w ≡ ok tt
    → IsListed f o
unfolding validate_condition
validate_condition-IsListed f o v w h =
    let m = >>=-eq-ok (registered f) _ h in
    let p = >>=-eq-ok (validate_operator o m.0) _ m.2 in
    let r = registered-ok f m.0 m.1 in
    let q = validate_operator-ok o m.0 p.0 p.1 in (r.0, m.0, p.0, r.1, r.2, q.0, q.1)

mutual
  unfolding validate_expression IsSafe

  validate_all-IsSafe : (e : Expression) → validate_expression e ≡ ok tt → IsSafe e
  validate_all-IsSafe (node s f o v w es) h = elim (Bool-cases (str_eq s "CONDITION")) [
    | inl t ↦ inl ((eq_iff s "CONDITION").0 t, validate_condition-IsListed f o v w (rw t at h))
    | inr t ↦ elim (Bool-cases (is_group s)) [
      | inl u ↦ elim (Bool-cases (is_leaf es)) [
        | inl x ↦ absurd (err_ok (rw (t, u, x) at h))
        | inr x ↦ inr (u, x, validate_children-AreSafe es (rw (t, u, x) at h))
      ]
      | inr u ↦ absurd (err_ok (rw (t, u) at h))
    ]
  ]

  validate_children-AreSafe : (es : Expressions) → validate_children es ≡ ok tt → AreSafe es
  validate_children-AreSafe leaf h = tt
  validate_children-AreSafe (child e es) h =
      let r = >>=-eq-ok (validate_expression e) _ h in
      (validate_all-IsSafe e r.1, validate_children-AreSafe es r.2)

-- A tree that passes its validation asks only for fields of the registry, each by an operator that the
-- registry allows it, and has no empty group, at any depth.
pub validate_expression-IsSafe : (e : Expression) → validate_expression e ≡ ok tt → IsSafe e
validate_expression-IsSafe e h = validate_all-IsSafe e h
