-- ===== src/Sync/Payload.antt =====
-- `CloudSyncService._payload` (backend/app/services/cloud_sync.py): a row as the client sees it.
use tw_stock_android_spec.Base.{ℕ, Option, none, some, [], ◌∷◌, if◌then◌else◌}
use tw_stock_android_spec.Base.Int.{pos}
use tw_stock_android_spec.Value.{
  Value, Fields, null, int, text, field, truthy, is_null, get, fields,
}
use tw_stock_android_spec.Sync.Types.{
  Entity, watchlist, watchlist_item, portfolio, portfolio_transaction, alert_rule, saved_screener,
  user_setting, Row, Runtime,
}

module _ (rt : Runtime) where
  -- `str(value) if value is not None else None`
  abbrev pub shown : Value → Value
  shown v = if is_null v then null else text (rt.show v)

  -- `str(value) if value else None`
  abbrev pub shown_if_truthy : Value → Value
  shown_if_truthy v = if truthy v then text (rt.show v) else null

  -- The columns that `_payload` sends for each entity, after those that all share.
  unfoldable pub own_payload : Entity → Fields → Fields
  own_payload watchlist a =
      fields (("name", get "name" a) ∷ ("sort_order", get "sort_order" a) ∷ [])
  own_payload watchlist_item a = fields (
      ("watchlist_id", text (rt.show (get "watchlist_id" a)))
      ∷ ("security_id", text (rt.show (get "security_id" a)))
      ∷ ("sort_order", get "sort_order" a)
      ∷ ("note", get "note" a)
      ∷ ("target_price", shown (get "target_price" a))
      ∷ ("stop_price", shown (get "stop_price" a))
      ∷ ("add_price", shown (get "add_price" a))
      ∷ [])
  own_payload portfolio a = fields (
      ("name", get "name" a)
      ∷ ("base_currency", get "base_currency" a)
      ∷ ("is_default", get "is_default" a)
      ∷ [])
  own_payload portfolio_transaction a = fields (
      ("portfolio_id", text (rt.show (get "portfolio_id" a)))
      ∷ ("security_id", text (rt.show (get "security_id" a)))
      ∷ ("side", get "side" a)
      ∷ ("executed_at", text (rt.show (get "executed_at" a)))
      ∷ ("quantity_shares", get "quantity_shares" a)
      ∷ ("price", text (rt.show (get "price" a)))
      ∷ ("fee", text (rt.show (get "fee" a)))
      ∷ ("lot_type", get "lot_type" a)
      ∷ [])
  own_payload alert_rule a = fields (
      ("name", get "name" a)
      ∷ ("rule_type", get "rule_type" a)
      ∷ ("scope_type", get "scope_type" a)
      ∷ ("security_id", shown_if_truthy (get "security_id" a))
      ∷ ("portfolio_id", shown_if_truthy (get "portfolio_id" a))
      ∷ ("watchlist_id", shown_if_truthy (get "watchlist_id" a))
      ∷ ("ma_period", get "ma_period" a)
      ∷ ("threshold_price", shown (get "threshold_price" a))
      ∷ ("threshold_percent", shown (get "threshold_percent" a))
      ∷ ("consecutive_days", get "consecutive_days" a)
      ∷ ("enabled", get "enabled" a)
      ∷ ("cooldown_minutes", get "cooldown_minutes" a)
      ∷ ("daily_limit", get "daily_limit" a)
      ∷ ("evaluation_mode", get "evaluation_mode" a)
      ∷ ("session_scope", get "session_scope" a)
      ∷ [])
  own_payload saved_screener a = fields (
      ("name", get "name" a)
      ∷ ("description", get "description" a)
      ∷ ("expression", get "expression" a)
      ∷ ("sort_field", get "sort_field" a)
      ∷ ("sort_direction", get "sort_direction" a)
      ∷ [])
  own_payload user_setting a = fields (("key", get "key" a) ∷ ("value", get "value" a) ∷ [])

  abbrev pub shown_time : Option ℕ → Value
  shown_time none = null
  shown_time (some t) = text (rt.show_time t)

  -- `_payload`; a `str` of a datetime column stands for its `isoformat`.
  unfoldable pub payload_of : Row → Fields
  payload_of row = field "id" (text (rt.show_uuid row.id)) (
      field "version" (int (pos row.version)) (
        field "updated_at" (text (rt.show_time row.updated_at))
          (field "deleted_at" (shown_time row.deleted_at) (own_payload row.entity row.attributes))))
