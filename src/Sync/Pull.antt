-- ===== src/Sync/Pull.antt =====
-- `CloudSyncService.changes` and `bootstrap` (backend/app/services/cloud_sync.py).
use Prim.Native.Nat.{min, max}
use tw_stock_android_spec.Base.{
  ℕ, ◌+◌, String, Bool, not, ◌&&◌, none, some, List, [], ◌∷◌, map, ◌==◌, ltb, if◌then◌else◌, length,
  take, filter, get_last?, is_some, sort_by,
}
use tw_stock_android_spec.Value.{Fields}
use tw_stock_android_spec.Sync.Types.{
  Entity, watchlist, watchlist_item, portfolio, portfolio_transaction, alert_rule, saved_screener,
  user_setting, same_entity, Mutation, Row, Change, Db, Runtime,
}
use tw_stock_android_spec.Sync.Payload.{payload_of}

pub record ChangeView : Type 0 where
  pub cursor : ℕ
  pub entity_type : Entity
  pub entity_id : String
  pub operation : Mutation
  pub version : ℕ
  pub payload : Fields
  pub changed_at : String

pub record ChangePage : Type 0 where
  pub changes : List ChangeView
  pub next_cursor : ℕ
  pub has_more : Bool
  pub server_time : String

pub record Bootstrap : Type 0 where
  pub watchlists : List Fields
  pub items : List Fields
  pub portfolios : List Fields
  pub portfolio_transactions : List Fields
  pub alert_rules : List Fields
  pub saved_screeners : List Fields
  pub user_settings : List Fields
  pub cursor : ℕ
  pub server_time : String

-- The user's changes past the cursor, by ascending sequence.
unfoldable pub pending : ℕ → ℕ → Db → List Change
pending user cursor db =
    sort_by (λ x y. ltb x.sequence y.sequence)
      (filter (λ c. c.user_id == user && ltb cursor c.sequence) db.changes)

-- `rows[-1].sequence if rows else cursor`
unfoldable pub cursor_after : ℕ → List Change → ℕ
cursor_after cursor rows = elim (get_last? rows) [ none ↦ cursor | some c ↦ c.sequence ]

-- `coalesce(max(sequence), 0)` over the user's changes
unfoldable pub last_sequence : ℕ → List Change → ℕ
last_sequence user [] = 0
last_sequence user (c ∷ cs) =
    if c.user_id == user then max c.sequence (last_sequence user cs) else last_sequence user cs

-- The user's rows of an entity that are not deleted.
abbrev pub is_live : Entity → ℕ → Row → Bool
is_live e user row = same_entity row.entity e && row.user_id == user && not (is_some row.deleted_at)

module _ (rt : Runtime) where
  -- `_change`
  unfoldable pub change_view : Change → ChangeView
  change_view c = record {
    cursor = c.sequence;
    entity_type = c.entity;
    entity_id = rt.show_uuid c.entity_id;
    operation = c.operation;
    version = c.version;
    payload = c.payload;
    changed_at = rt.show_time c.changed_at;
  }

  unfoldable pub changes : ℕ → ℕ → ℕ → ℕ → ℕ → Db → ChangePage
  changes page_limit user cursor limit now db =
      let bounded = min limit page_limit in
      let rows = take (bounded + 1) (pending user cursor db) in
      let page = take bounded rows in
      record {
        changes = map change_view page;
        next_cursor = cursor_after cursor page;
        has_more = ltb bounded (length rows);
        server_time = rt.show_time now;
      }

  -- The seven queries of `bootstrap`; `before` is the order of each one's ORDER BY.
  module _ (before : Entity → Row → Row → Bool) where
    unfoldable pub live_payloads : Entity → ℕ → Db → List Fields
    live_payloads e user db =
        map (payload_of rt) (sort_by (before e) (filter (is_live e user) db.rows))

    unfoldable pub bootstrap : ℕ → ℕ → Db → Bootstrap
    bootstrap user now db = record {
      watchlists = live_payloads watchlist user db;
      items = live_payloads watchlist_item user db;
      portfolios = live_payloads portfolio user db;
      portfolio_transactions = live_payloads portfolio_transaction user db;
      alert_rules = live_payloads alert_rule user db;
      saved_screeners = live_payloads saved_screener user db;
      user_settings = live_payloads user_setting user db;
      cursor = last_sequence user db.changes;
      server_time = rt.show_time now;
    }
