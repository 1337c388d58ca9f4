-- ===== src/Sync/Types.antt =====
-- The entities, rows and tables that cloud sync works on, and the conversions it calls
-- (backend/app/services/cloud_sync.py, backend/app/repositories/models.py).
use tw_stock_android_spec.Base.{
  ℕ, String, ◌≡◌, refl, Bool, ◌&&◌, Option, none, some, List, [], ◌∷◌, ◌==◌, if◌then◌else◌, str_eq,
  arith,
}
use tw_stock_android_spec.Base.Int.{ℤ}
use tw_stock_android_spec.Value.{Value, Fields}

-- The seven synchronised models.
pub data Entity : Type 0 where
  watchlist watchlist_item portfolio portfolio_transaction alert_rule saved_screener user_setting :
      Entity

unfoldable pub index_of : Entity → ℕ
index_of watchlist = 0
index_of watchlist_item = 1
index_of portfolio = 2
index_of portfolio_transaction = 3
index_of alert_rule = 4
index_of saved_screener = 5
index_of user_setting = 6

abbrev pub same_entity : Entity → Entity → Bool
same_entity e f = index_of e == index_of f

-- Membership of `ENTITY_TYPES` and the mapping of `_get_model`.
unfoldable pub entity_of : String → Option Entity
entity_of s =
    if str_eq s "WATCHLIST"
    then some watchlist
    else if str_eq s "WATCHLIST_ITEM"
    then some watchlist_item
    else if str_eq s "PORTFOLIO"
    then some portfolio
    else if str_eq s "PORTFOLIO_TRANSACTION"
    then some portfolio_transaction
    else if str_eq s "ALERT_RULE"
    then some alert_rule
    else if str_eq s "SAVED_SCREENER"
    then some saved_screener
    else if str_eq s "USER_SETTING"
    then some user_setting
    else none

pub data Mutation : Type 0 where
  upsert delete : Mutation

-- Membership of `OPERATIONS`.
unfoldable pub mutation_of : String → Option Mutation
mutation_of s =
    if str_eq s "UPSERT" then some upsert else if str_eq s "DELETE" then some delete else none

-- A row of one of the seven tables: the columns that all share, and the others by name. A row whose
-- nullable column says no user stands under a user whom no call is made for.
pub record Row : Type 0 where
  pub entity : Entity
  pub id : ℕ
  pub user_id : ℕ
  pub version : ℕ
  pub created_at : ℕ
  pub updated_at : ℕ
  pub deleted_at : Option ℕ
  pub attributes : Fields

pub record Device : Type 0 where
  pub id : ℕ
  pub user_id : ℕ
  pub revoked_at : Option ℕ

pub record Operation : Type 0 where
  pub operation_id : ℕ
  pub entity_type : String
  pub entity_id : ℕ
  pub operation : String
  pub base_version : ℕ
  pub payload : Option Fields

pub data Status : Type 0 where
  accepted rejected conflict duplicate : Status

pub data ConflictType : Type 0 where
  stale_version tombstoned : ConflictType

-- What a result holds beside its operation id and status.
pub data Detail : Type 0 where
  nothing : Detail
  applied : (entity_id server_version server_cursor : ℕ) → Detail
  disagreed :
      (entity_id client_base_version server_version : ℕ) (server_value : Fields)
      → ConflictType
      → Detail

pub record SyncResult : Type 0 where
  pub operation_id : ℕ
  pub status : Status
  pub detail : Detail

-- `SyncOperationModel`
pub record Recorded : Type 0 where
  pub user_id : ℕ
  pub device_id : ℕ
  pub operation_id : ℕ
  pub result : SyncResult
  pub created_at : ℕ

-- `SyncChangeModel`
pub record Change : Type 0 where
  pub sequence : ℕ
  pub user_id : ℕ
  pub entity : Entity
  pub entity_id : ℕ
  pub operation : Mutation
  pub version : ℕ
  pub payload : Fields
  pub changed_at : ℕ

-- The tables; `next_sequence` is the next value of the change log's key.
pub record Db : Type 0 where
  pub devices : List Device
  pub securities : List ℕ
  pub rows : List Row
  pub operations : List Recorded
  pub changes : List Change
  pub next_sequence : ℕ

-- The conversions of Python's library between values and texts, and what the database's own
-- constraints say of a row that is flushed.
pub record Runtime : Type 0 where
  pub parse_uuid : String → Option ℕ
  pub show_uuid : ℕ → String
  pub parse_time : String → Option ℕ
  pub show_time : ℕ → String
  pub show : Value → String
  pub int_of : Value → Option ℤ
  pub accepts : List Row → Row → Bool

abbrev pub is_row : Entity → ℕ → Row → Bool
is_row e i r = same_entity r.entity e && r.id == i

-- `session.get(model, id)`
unfoldable pub find : Entity → ℕ → List Row → Option Row
find e i [] = none
find e i (r ∷ rows) = if is_row e i r then some r else find e i rows

-- The table with the row added, or written over the one of its key.
unfoldable pub store : Row → List Row → List Row
store r [] = r ∷ []
store r (s ∷ rows) = if is_row r.entity r.id s then r ∷ rows else s ∷ store r rows

pub find-store :
    (e : Entity) (i : ℕ) (r : Row) (rows : List Row)
    → find e i (store r rows) ≡ (if is_row e i r then some r else find e i rows)
unfolding find store
find-store e i r [] = refl
find-store e i r (s ∷ rows) = ground (arith, find-store e i r rows)
