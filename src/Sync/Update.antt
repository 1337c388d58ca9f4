-- ===== src/Sync/Update.antt =====
-- `CloudSyncService._update_row` (backend/app/services/cloud_sync.py): an accepted payload written
-- onto a row that is there.
use tw_stock_android_spec.Base.{
  String, Bool, not, ◌&&◌, Option, none, some, List, [], ◌∷◌, if◌then◌else◌, is_some,
}
use tw_stock_android_spec.Outcome.{Result, ok, value_error, ◌>>=◌, or_raise}
use tw_stock_android_spec.Value
use tw_stock_android_spec.Value.{Value, Fields, null, text, time, is_null, is_dict, get}
use tw_stock_android_spec.Sync.Types.{
  watchlist, watchlist_item, portfolio, portfolio_transaction, alert_rule, saved_screener,
  user_setting, Entity, Runtime,
}
use tw_stock_android_spec.Sync.Build.{refused_key, wrapped}

-- What `_update_row` answers, with the attributes that the row has afterwards: on a refusal `none`
-- where nothing was written yet.
pub data Update : Type 0 where
  updated : Fields → Update
  refused : Option Fields → Update

abbrev pub has_key : String → Fields → Bool
has_key k payload = is_some (Value.lookup k payload)

-- `for k in keys: if k in payload: setattr(row, k, payload[k])`
unfoldable pub copy_keys : List String → Fields → Fields → Fields
copy_keys [] payload a = a
copy_keys (k ∷ ks) payload a =
    copy_keys ks payload (elim (Value.lookup k payload) [ none ↦ a | some v ↦ Value.insert k v a ])

-- The keys that an update may write, entity by entity.
unfoldable pub updatable_keys : Entity → List String
updatable_keys watchlist = "name" ∷ "sort_order" ∷ []
updatable_keys watchlist_item =
    "sort_order" ∷ "note" ∷ "target_price" ∷ "stop_price" ∷ "add_price" ∷ []
updatable_keys portfolio = "name" ∷ "base_currency" ∷ "is_default" ∷ []
updatable_keys portfolio_transaction =
    "side" ∷ "quantity_shares" ∷ "price" ∷ "fee" ∷ "lot_type" ∷ []
updatable_keys alert_rule =
    "name" ∷ "rule_type" ∷ "scope_type" ∷ "ma_period" ∷ "threshold_price" ∷ "threshold_percent"
    ∷ "consecutive_days" ∷ "enabled" ∷ "cooldown_minutes" ∷ "daily_limit" ∷ "evaluation_mode"
    ∷ "session_scope" ∷ []
updatable_keys saved_screener =
    "name" ∷ "description" ∷ "expression" ∷ "sort_field" ∷ "sort_direction" ∷ []
updatable_keys user_setting = []

unfoldable pub update_screener : Fields → Fields → Update
update_screener payload a =
    if has_key "expression" payload && not (is_dict (get "expression" payload))
    then refused none
    else updated (copy_keys (updatable_keys saved_screener) payload a)

-- The `key` part of the setting's branch: the row's attributes, or `none` for a key that is refused.
unfoldable pub update_setting_key : Fields → Fields → Result (Option Fields)
update_setting_key payload a = elim (Value.lookup "key" payload) [
  | none ↦ ok (some a)
  | some key ↦ do bad ← refused_key key; ok (if bad then none else some (Value.insert "key" key a))
]

-- The key is written before the value is looked at.
unfoldable pub update_setting : Fields → Fields → Result Update
update_setting payload a = do
  keyed ← update_setting_key payload a
  ok (elim keyed [
    | none ↦ refused none
    | some a' ↦ elim (Value.lookup "value" payload) [
      | none ↦ updated a'
      | some value ↦
          if is_null value
          then refused (some a')
          else updated (Value.insert "value" (wrapped value) a')
    ]
  ])

module _ (rt : Runtime) where
  unfoldable pub update_transaction : Fields → Fields → Result Update
  update_transaction payload a = do
    let a' = copy_keys (updatable_keys portfolio_transaction) payload a
    elim (Value.lookup "executed_at" payload) [
      | some (text s) ↦ do
        t ← or_raise (rt.parse_time s) value_error
        ok (updated (Value.insert "executed_at" (time t) a'))
      | _ ↦ ok (updated a')
    ]

  unfoldable pub update_attributes : Entity → Fields → Fields → Result Update
  update_attributes portfolio_transaction payload a = update_transaction payload a
  update_attributes saved_screener payload a = ok (update_screener payload a)
  update_attributes user_setting payload a = update_setting payload a
  update_attributes e payload a = ok (updated (copy_keys (updatable_keys e) payload a))
