-- ===== src/Sync/Build.antt =====
-- `CloudSyncService._validate_and_build_model`, one function for each entity
-- (backend/app/services/cloud_sync.py).
use tw_stock_android_spec.Base.{
  ℕ, String, Bool, true, false, not, ◌||◌, Option, none, some, List, [], ◌∷◌, ◌==◌, if◌then◌else◌,
  str_eq, any, is_some,
}
use tw_stock_android_spec.Base.Int.{pos}
use tw_stock_android_spec.Outcome.{
  Result, ok, err, key_error, value_error, type_error, attribute_error, ◌>>=◌, or_raise,
}
use tw_stock_android_spec.Value
use tw_stock_android_spec.Value.{
  Value, Fields, null, bool, int, text, uuid, time, dict, array, nil, cons, field, end, truthy,
  is_null, is_dict, get, get_or, fields,
}
use tw_stock_android_spec.Sync.Types.{
  Entity, watchlist, watchlist_item, portfolio, portfolio_transaction, alert_rule, saved_screener,
  user_setting, Row, Db, Runtime, find,
}

abbrev pub forbidden_setting_keys : List String
forbidden_setting_keys =
    "auth_token" ∷ "device_id" ∷ "refresh_token" ∷ "notification_permission_state" ∷ "os_setting"
    ∷ []

-- `not key or key in FORBIDDEN_SETTING_KEYS`; the membership raises on an unhashable key.
unfoldable pub refused_key : Value → Result Bool
refused_key (text k) = ok (str_eq k "" || any (λ f. str_eq f k) forbidden_setting_keys)
refused_key (array nil) = ok true
refused_key (array (cons v vs)) = err type_error
refused_key (dict end) = ok true
refused_key (dict (field k v fs)) = err type_error
refused_key v = ok (not (truthy v))

-- `val if isinstance(val, dict) else {"value": val}`
unfoldable pub wrapped : Value → Value
wrapped v = if is_dict v then v else dict (field "value" v end)

-- The row of the id, where it is there, belongs to the user and is not deleted.
unfoldable pub live_parent : Db → Entity → ℕ → ℕ → Option Row
live_parent db e id user = elim (find e id db.rows) [
  | none ↦ none
  | some r ↦ if not (r.user_id == user) || is_some r.deleted_at then none else some r
]

-- `payload.get(key, default)` for each of the columns
unfoldable pub columns : List (String × Value) → Fields → Fields
columns [] payload = end
columns ((k, d) ∷ l) payload = field k (get_or k d payload) (columns l payload)

-- A row as its constructor leaves it: `created_at` and `updated_at` are now, nothing is deleted.
unfoldable pub new_row : Entity → ℕ → ℕ → ℕ → ℕ → Fields → Row
new_row e id user version now attributes = record {
  entity = e;
  id = id;
  user_id = user;
  version = version;
  created_at = now;
  updated_at = now;
  deleted_at = none;
  attributes = attributes;
}

unfoldable pub build_watchlist : ℕ → ℕ → Fields → ℕ → ℕ → Row
build_watchlist user id payload version now =
    new_row watchlist id user version now
      (columns (("name", text "Watchlist") ∷ ("sort_order", int (pos 0)) ∷ []) payload)

unfoldable pub build_portfolio : ℕ → ℕ → Fields → ℕ → ℕ → Row
build_portfolio user id payload version now = new_row portfolio id user version now (
    columns
      (("name", text "Portfolio") ∷ ("base_currency", text "TWD") ∷ ("is_default", bool false) ∷ [])
      payload)

unfoldable pub build_screener : ℕ → ℕ → Fields → ℕ → ℕ → Option Row
build_screener user id payload version now =
    let expression = get "expression" payload in
    if not (is_dict expression) || not (truthy expression)
    then none
    else some (
        new_row saved_screener id user version now (
          columns
            (("name", text "Screener")
              ∷ ("description", null)
              ∷ ("expression", expression)
              ∷ ("sort_field", text "code")
              ∷ ("sort_direction", text "ASC")
              ∷ [])
            payload))

unfoldable pub build_setting : ℕ → ℕ → Fields → ℕ → ℕ → Result (Option Row)
build_setting user id payload version now = do
  let key = get_or "key" (text "") payload
  refused ← refused_key key
  let value = get "value" payload
  ok (
      if refused || is_null value
      then none
      else some (
          new_row user_setting id user version now
            (fields (("key", key) ∷ ("value", wrapped value) ∷ []))))

-- `scope_type == scope`
abbrev pub is_scope : String → Value → Bool
is_scope scope (text s) = str_eq s scope
is_scope scope v = false

module _ (rt : Runtime) where
  -- `UUID(payload[key])`
  unfoldable pub required_uuid : String → Fields → Result ℕ
  required_uuid key payload = elim (Value.lookup key payload) [
    | none ↦ err key_error
    | some (text s) ↦ or_raise (rt.parse_uuid s) value_error
    | some _ ↦ err attribute_error
  ]

  -- `session.get(SecurityModel, id) is None`
  abbrev pub unknown_security : Db → ℕ → Bool
  unknown_security db id = not (any (λ s. s == id) db.securities)

  unfoldable pub build_item : Db → ℕ → ℕ → Fields → ℕ → ℕ → Result (Option Row)
  build_item db user id payload version now = do
    list_id ← required_uuid "watchlist_id" payload
    security_id ← required_uuid "security_id" payload
    ok (elim (live_parent db watchlist list_id user) [
      | none ↦ none
      | some parent ↦
          if unknown_security db security_id
          then none
          else some (
              new_row watchlist_item id user version now (
                field "watchlist_id" (uuid parent.id) (
                  field "security_id" (uuid security_id) (
                    columns
                      (("sort_order", int (pos 0))
                        ∷ ("note", null)
                        ∷ ("target_price", null)
                        ∷ ("stop_price", null)
                        ∷ ("add_price", null)
                        ∷ [])
                      payload))))
    ])

  -- The payload's time where it is a text, and now otherwise.
  unfoldable pub executed_time : Value → ℕ → Result ℕ
  executed_time (text s) now = or_raise (rt.parse_time s) value_error
  executed_time v now = ok now

  unfoldable pub transaction_row : ℕ → ℕ → ℕ → ℕ → Fields → ℕ → ℕ → Result Row
  transaction_row user id portfolio_id security_id payload version now = do
    executed ← executed_time (get "executed_at" payload) now
    quantity ← or_raise (rt.int_of (get_or "quantity_shares" (int (pos 0)) payload)) value_error
    ok (
        new_row portfolio_transaction id user version now (
          field "portfolio_id" (uuid portfolio_id) (
            field "security_id" (uuid security_id) (
              field "executed_at" (time executed) (
                field "quantity_shares" (int quantity) (
                  columns
                    (("side", text "BUY")
                      ∷ ("price", text "0.0")
                      ∷ ("fee", text "0.0")
                      ∷ ("lot_type", text "BOARD_LOT")
                      ∷ [])
                    payload))))))

  unfoldable pub build_transaction : Db → ℕ → ℕ → Fields → ℕ → ℕ → Result (Option Row)
  build_transaction db user id payload version now = do
    parent_id ← required_uuid "portfolio_id" payload
    security_id ← required_uuid "security_id" payload
    elim (live_parent db portfolio parent_id user) [
      | none ↦ ok none
      | some parent ↦ if unknown_security db security_id then ok none else (do
        row ← transaction_row user id parent.id security_id payload version now
        ok (some row))
    ]

  -- `payload.get(key) or (payload.get("scope_id") if scope_type == scope else None)`
  unfoldable pub scope_target : String → String → Value → Fields → Value
  scope_target key scope scope_type payload =
      let own = get key payload in
      if truthy own then own else if is_scope scope scope_type then get "scope_id" payload else null

  -- `UUID(str(raw)) if raw else None`
  unfoldable pub optional_uuid : Value → Result (Option ℕ)
  optional_uuid raw =
      if truthy raw
      then (do id ← or_raise (rt.parse_uuid (rt.show raw)) value_error; ok (some id))
      else ok none

  -- A named parent that is not there, not the user's own or deleted makes the rule invalid.
  unfoldable pub scope_refused : Db → Entity → ℕ → Option ℕ → Bool
  scope_refused db e user none = false
  scope_refused db e user (some id) = not (is_some (live_parent db e id user))

  abbrev pub uuid_or_null : Option ℕ → Value
  uuid_or_null none = null
  uuid_or_null (some id) = uuid id

  unfoldable pub alert_row : ℕ → ℕ → Value → Option ℕ → Option ℕ → Option ℕ → Fields → ℕ → ℕ → Row
  alert_row user id scope_type security holder list payload version now =
      new_row alert_rule id user version now (
        field "scope_type" scope_type (
          field "security_id" (uuid_or_null security) (
            field "portfolio_id" (uuid_or_null holder) (
              field "watchlist_id" (uuid_or_null list) (
                columns
                  (("name", text "Alert Rule")
                    ∷ ("rule_type", text "PRICE_THRESHOLD")
                    ∷ ("ma_period", null)
                    ∷ ("threshold_price", null)
                    ∷ ("threshold_percent", null)
                    ∷ ("consecutive_days", null)
                    ∷ ("enabled", bool true)
                    ∷ ("cooldown_minutes", int (pos 60))
                    ∷ ("daily_limit", int (pos 5))
                    ∷ ("evaluation_mode", text "EOD")
                    ∷ ("session_scope", text "REGULAR")
                    ∷ [])
                  payload)))))

  unfoldable pub build_alert : Db → ℕ → ℕ → Fields → ℕ → ℕ → Result (Option Row)
  build_alert db user id payload version now = do
    let scope_type = get_or "scope_type" (text "SECURITY") payload
    security ← optional_uuid (scope_target "security_id" "SECURITY" scope_type payload)
    holder ← optional_uuid (scope_target "portfolio_id" "PORTFOLIO" scope_type payload)
    list ← optional_uuid (scope_target "watchlist_id" "WATCHLIST" scope_type payload)
    ok (
        if scope_refused db portfolio user holder || scope_refused db watchlist user list
        then none
        else some (alert_row user id scope_type security holder list payload version now))

  -- `_validate_and_build_model`; `none` is a payload that is not valid.
  unfoldable pub validate_and_build : Db → ℕ → Entity → ℕ → Fields → ℕ → ℕ → Result (Option Row)
  validate_and_build db user watchlist id payload version now =
      ok (some (build_watchlist user id payload version now))
  validate_and_build db user watchlist_item id payload version now =
      build_item db user id payload version now
  validate_and_build db user portfolio id payload version now =
      ok (some (build_portfolio user id payload version now))
  validate_and_build db user portfolio_transaction id payload version now =
      build_transaction db user id payload version now
  validate_and_build db user alert_rule id payload version now =
      build_alert db user id payload version now
  validate_and_build db user saved_screener id payload version now =
      ok (build_screener user id payload version now)
  validate_and_build db user user_setting id payload version now =
      build_setting user id payload version now
