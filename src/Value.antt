-- ===== src/Value.antt =====
-- The values that a JSON request body or an ORM attribute holds, and Python dictionaries of them.
use tw_stock_android_spec.Base.{
  ℕ, String, ◌≡◌, refl, Bool, true, false, not, Option, none, some, List, [], ◌∷◌, if◌then◌else◌,
  str_eq, eq_iff, arith,
}
use tw_stock_android_spec.Base.Int.{ℤ, magnitude_zero}
use tw_stock_android_spec.Base.Decimal.{Decimal, is_zero}

mutual
  pub data Value : Type 0 where
    null : Value
    bool : Bool → Value
    int : ℤ → Value
    real : Decimal → Value
    text : String → Value
    uuid : ℕ → Value
    time : ℕ → Value
    array : Items → Value
    dict : Fields → Value

  pub data Items : Type 0 where
    nil : Items
    cons : Value → Items → Items

  pub data Fields : Type 0 where
    end : Fields
    field : String → Value → Fields → Fields

-- `bool(value)`
unfoldable pub truthy : Value → Bool
truthy null = false
truthy (bool b) = b
truthy (int z) = not (magnitude_zero z)
truthy (real d) = not (is_zero d)
truthy (text s) = not (str_eq s "")
truthy (uuid n) = true
truthy (time n) = true
truthy (array nil) = false
truthy (array (cons v vs)) = true
truthy (dict end) = false
truthy (dict (field k v fs)) = true

abbrev pub is_null : Value → Bool
is_null null = true
is_null _ = false

abbrev pub is_dict : Value → Bool
is_dict (dict fs) = true
is_dict _ = false

abbrev pub is_text : Value → Bool
is_text (text s) = true
is_text _ = false

-- `d.get(key)`, absent told from null
unfoldable pub lookup : String → Fields → Option Value
lookup k end = none
lookup k (field j v fs) = if str_eq j k then some v else lookup k fs

-- `d[key] = value`, and `setattr` on a row
unfoldable pub insert : String → Value → Fields → Fields
insert k v end = field k v end
insert k v (field j w fs) = if str_eq j k then field j v fs else field j w (insert k v fs)

-- `d.get(key, default)`
abbrev pub get_or : String → Value → Fields → Value
get_or k d fs = elim (lookup k fs) [ none ↦ d | some v ↦ v ]

abbrev pub get : String → Fields → Value
get k fs = get_or k null fs

abbrev pub fields : List (String × Value) → Fields
fields [] = end
fields ((k, v) ∷ l) = field k v (fields l)

pub lookup-insert :
    (k j : String) (v : Value) (fs : Fields)
    → lookup j (insert k v fs) ≡ (if str_eq k j then some v else lookup j fs)
unfolding lookup insert
lookup-insert k j v end = refl
lookup-insert k j v (field i w fs) =
    ground (arith, eq_iff k j, eq_iff i k, eq_iff i j, lookup-insert k j v fs)
