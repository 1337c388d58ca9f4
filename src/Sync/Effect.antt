-- ===== src/Sync/Effect.antt =====
-- What one operation of a push does to the tables, case by case
-- (`_apply` and `_mutate` of backend/app/services/cloud_sync.py).
use tw_stock_android_spec.Base.{
  ℕ, ◌+◌, ◌∙◌, ap, ◌≡◌, ◌≢◌, refl, true, false, Option, none, some, List, [], ◌∷◌, ◌==◌, inl, inr,
  if◌then◌else◌, is_some, Bool-cases, arith, or_else,
}
use tw_stock_android_spec.Outcome.{ok, >>=-eq-ok}
use tw_stock_android_spec.Value.{Fields, end}
use tw_stock_android_spec.Sync.Types.{
  Entity, Mutation, upsert, delete, Row, Operation, accepted, SyncResult, Db, Runtime, is_row, find,
  store, index_of, watchlist, user_setting, alert_rule, saved_screener, watchlist_item, portfolio,
  portfolio_transaction,
}
use tw_stock_android_spec.Sync.Build.{validate_and_build}
use tw_stock_android_spec.Sync.Update.{
  Update, updated, refused, update_attributes, update_transaction, update_screener,
}
use tw_stock_android_spec.Sync.Push.{
  reject, accepted_result, conflict_with, flush_row, logged, accept, add_built, create, remove,
  write_update, modify, mutate, decide,
}
use tw_stock_android_spec.Sync.Built.{IsBuilt, validate_and_build-IsBuilt}

module _ (rt : Runtime) where
  -- Only a setting's row is written by an update that is then refused.
  refused_update :
      (e : Entity) (p a : Fields) {a' : Fields}
      → update_attributes rt e p a ≡ ok (refused (some a'))
      → e ≡ user_setting
  unfolding update_attributes update_transaction update_screener
  refused_update watchlist p a h = ground arith
  refused_update watchlist_item p a h = ground arith
  refused_update portfolio p a h = ground arith
  refused_update portfolio_transaction p a h = ground arith
  refused_update alert_rule p a h = ground arith
  refused_update saved_screener p a h = ground arith
  refused_update user_setting p a h = refl

-- How the version and the tombstone of a written row relate to what was found under its key.
abbrev pub VersionStep : ℕ → ℕ → Option Row → Row → Type 0
VersionStep user base none row = row.version ≡ 1
VersionStep user base (some old) row =
    (old.user_id ≡ user)
    × (old.version ≡ base)
    × (row.version ≡ old.version + 1)
    × (is_some old.deleted_at ≡ true → is_some row.deleted_at ≡ true)

pub record Writes (user : ℕ) (e : Entity) (op : Operation) (rows : List Row) (row : Row)
    : Type 0 where
  pub entity : row.entity ≡ e
  pub key : row.id ≡ op.entity_id
  pub owner : row.user_id ≡ user
  pub step : VersionStep user op.base_version (find e op.entity_id rows) row

pub data Effect (rt : Runtime) (user : ℕ) (e : Entity) (op : Operation) (db : Db)
    (out : SyncResult × Db) : Type 0 where
  unchanged : out.1 ≡ db → out.0.status ≢ accepted → Effect rt user e op db out
  written :
      (m : Mutation) (now : ℕ) (row : Row)
      → Writes user e op db.rows row
      → out.0 ≡ accepted_result op row db.next_sequence
      → out.1 ≡ logged rt user e m now row db
      → Effect rt user e op db out
  leaked :
      (row : Row) (a : Fields)
      → e ≡ user_setting
      → find e op.entity_id db.rows ≡ some row
      → row.user_id ≡ user
      → out.0 ≡ reject op
      → out.1 ≡ record db { rows = store (record row { attributes = a }) db.rows }
      → Effect rt user e op db out

find-is_row :
    (e : Entity) (i : ℕ) (rows : List Row) (r : Row) → find e i rows ≡ some r → is_row e i r ≡ true
unfolding find
find-is_row e i [] r h = cc
find-is_row e i (s ∷ rows) r h = ground (arith, find-is_row e i rows r)

pub index_of-injective : (e f : Entity) → index_of e ≡ index_of f → e ≡ f
unfolding index_of
index_of-injective e f h = ground arith

-- The row that is found under a key has that key.
pub find_key :
    (e : Entity) (i : ℕ) (rows : List Row) {r : Row}
    → find e i rows ≡ some r
    → (r.entity ≡ e) × (r.id ≡ i)
find_key e i rows {r} h = ground (arith, find-is_row e i rows r h, index_of-injective r.entity e)

module _ (rt : Runtime) where
  accept-written :
      (user : ℕ) (op : Operation) (e : Entity) (m : Mutation) (now : ℕ) (row : Row) (db : Db)
      {out : SyncResult × Db}
      → accept rt user op e m now row db ≡ ok out
      → Writes user e op db.rows row
      → Effect rt user e op db out
  unfolding accept flush_row
  accept-written user op e m now row db h w = written m now row w (ground arith) (ground arith)

  add_built-Effect :
      (user : ℕ) (e : Entity) (op : Operation) (now : ℕ) (db : Db) (built : Option Row)
      {out : SyncResult × Db}
      → find e op.entity_id db.rows ≡ none
      → ((row : Row) → built ≡ some row → IsBuilt user e op.entity_id 1 row)
      → add_built rt user e op now db built ≡ ok out
      → Effect rt user e op db out
  unfolding add_built
  add_built-Effect user e op now db none f valid h = unchanged (ground arith) (ground arith)
  add_built-Effect user e op now db (some row) f valid h =
      let b = valid row refl in
      accept-written user op e upsert now row db h
        (record { entity = b.entity; key = b.key; owner = b.owner; step = rw f b.first })

  create-Effect :
      (user : ℕ) (e : Entity) (m : Mutation) (op : Operation) (now : ℕ) (db : Db)
      {out : SyncResult × Db}
      → find e op.entity_id db.rows ≡ none
      → create rt user e m op now db ≡ ok out
      → Effect rt user e op db out
  unfolding create
  create-Effect user e delete op now db f h = unchanged (ground arith) (ground arith)
  create-Effect user e upsert op now db f h =
      let (built, valid, rest) =
        >>=-eq-ok (validate_and_build rt db user e op.entity_id (or_else op.payload end) 1 now) _
          h in
      add_built-Effect user e op now db built f
        (λ row is_row.
          validate_and_build-IsBuilt rt db user e op.entity_id _ 1 now (valid ∙ ap ok is_row))
        rest

  remove-Effect :
      (user : ℕ) (e : Entity) (op : Operation) (now : ℕ) (row : Row) (db : Db)
      {out : SyncResult × Db}
      → find e op.entity_id db.rows ≡ some row
      → row.user_id ≡ user
      → row.version ≡ op.base_version
      → remove rt user e op now row db ≡ ok out
      → Effect rt user e op db out
  unfolding remove
  remove-Effect user e op now row db f mine fresh h =
      accept-written user op e delete now _ db h (record {
        entity = (find_key e op.entity_id db.rows f).0;
        key = (find_key e op.entity_id db.rows f).1;
        owner = mine;
        step = rw f (mine, fresh, refl, λ _. refl);
      })

  write_update-Effect :
      (user : ℕ) (e : Entity) (op : Operation) (now : ℕ) (row : Row) (db : Db) (u : Update)
      {out : SyncResult × Db}
      → find e op.entity_id db.rows ≡ some row
      → row.user_id ≡ user
      → row.version ≡ op.base_version
      → is_some row.deleted_at ≡ false
      → ((a : Fields) → u ≡ refused (some a) → e ≡ user_setting)
      → write_update rt user e op now row db u ≡ ok out
      → Effect rt user e op db out
  unfolding write_update flush_row
  write_update-Effect user e op now row db (updated a) f mine fresh alive setting h =
      accept-written user op e upsert now _ db h (record {
        entity = (find_key e op.entity_id db.rows f).0;
        key = (find_key e op.entity_id db.rows f).1;
        owner = mine;
        step = rw f (mine, fresh, refl, λ gone. gone);
      })
  write_update-Effect user e op now row db (refused none) f mine fresh alive setting h =
      unchanged (ground arith) (ground arith)
  write_update-Effect user e op now row db (refused (some a)) f mine fresh alive setting h =
      leaked row a (setting a refl) f mine (ground arith) (ground arith)

  modify-Effect :
      (user : ℕ) (e : Entity) (op : Operation) (now : ℕ) (row : Row) (db : Db)
      {out : SyncResult × Db}
      → find e op.entity_id db.rows ≡ some row
      → row.user_id ≡ user
      → row.version ≡ op.base_version
      → modify rt user e op now row db ≡ ok out
      → Effect rt user e op db out
  unfolding modify conflict_with
  modify-Effect user e op now row db f mine fresh h = elim (Bool-cases (is_some row.deleted_at)) [
    | inl gone ↦ let h' = rw (gone, if◌then◌else◌) at h in unchanged (ground arith) (ground arith)
    | inr alive ↦
        let (u, update, rest) =
          >>=-eq-ok (update_attributes rt e (or_else op.payload end) row.attributes) _
            (rw (alive, if◌then◌else◌) at h) in
        write_update-Effect user e op now row db u f mine fresh alive
          (λ a is_refused. refused_update rt e _ row.attributes (update ∙ ap ok is_refused)) rest
  ]

  pub decide-Effect :
      (user : ℕ) (e : Entity) (m : Mutation) (op : Operation) (now : ℕ) (db : Db) (o : Option Row)
      {out : SyncResult × Db}
      → find e op.entity_id db.rows ≡ o
      → decide rt user e m op now o db ≡ ok out
      → Effect rt user e op db out
  unfolding decide mutate conflict_with
  decide-Effect user e m op now db none f h = create-Effect user e m op now db f h
  decide-Effect user e m op now db (some row) f h = elim (Bool-cases (row.user_id == user)) [
    | inr other ↦ unchanged (ground arith) (ground arith)
    | inl mine ↦ elim (Bool-cases (row.version == op.base_version)) [
      | inr stale ↦ unchanged (ground arith) (ground arith)
      | inl fresh ↦ by_mutation m (rw (mine, fresh) at h) (ground arith) (ground arith)
    ]
  ]
    where
      by_mutation :
          (m : Mutation) {out : SyncResult × Db}
          → mutate rt user e m op now (some row) db ≡ ok out
          → row.user_id ≡ user
          → row.version ≡ op.base_version
          → Effect rt user e op db out
      by_mutation upsert k mine fresh = modify-Effect user e op now row db f mine fresh k
      by_mutation delete k mine fresh = remove-Effect user e op now row db f mine fresh k
