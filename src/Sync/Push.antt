-- ===== src/Sync/Push.antt =====
-- `CloudSyncService.push`, `_apply` and `_mutate` (backend/app/services/cloud_sync.py). A call that
-- raises commits nothing, so an error carries no new tables.
use tw_stock_android_spec.Base.{
  ℕ, ◌+◌, Bool, true, not, ◌&&◌, ◌||◌, Option, none, some, List, [], ◌∷◌, ◌++◌, ◌==◌, if◌then◌else◌,
  find?, any, is_some, or_else,
}
use tw_stock_android_spec.Outcome.{
  Result, ok, err, app_error, integrity_error, ◌>>=◌, ◌>>◌, raise_if,
}
use tw_stock_android_spec.Value.{end}
use tw_stock_android_spec.Sync.Types.{
  Entity, entity_of, Mutation, upsert, delete, mutation_of, Row, Device, Operation, accepted,
  rejected, conflict, duplicate, ConflictType, stale_version, tombstoned, nothing, applied,
  disagreed, SyncResult, Recorded, Change, Db, Runtime, find, store,
}
use tw_stock_android_spec.Sync.Build.{validate_and_build}
use tw_stock_android_spec.Sync.Payload.{payload_of}
use tw_stock_android_spec.Sync.Update.{Update, updated, refused, update_attributes}

abbrev pub reject : Operation → SyncResult
reject op = record { operation_id = op.operation_id; status = rejected; detail = nothing }

unfoldable pub accepted_result : Operation → Row → ℕ → SyncResult
accepted_result op row sequence = record {
  operation_id = op.operation_id;
  status = accepted;
  detail = applied row.id row.version sequence;
}

abbrev pub is_recorded : ℕ → ℕ → Recorded → Bool
is_recorded user id r = r.user_id == user && r.operation_id == id

-- The insertion into `sync_operations`, whose user and operation id are unique.
unfoldable pub record_result : ℕ → ℕ → ℕ → ℕ → SyncResult × Db → Result (SyncResult × Db)
record_result user device now id (result, db) = do
  raise_if (any (is_recorded user id) db.operations) integrity_error
  let entry : Recorded = record {
    user_id = user;
    device_id = device;
    operation_id = id;
    result = result;
    created_at = now;
  }
  ok (result, record db { operations = entry ∷ db.operations })

-- `priors.get(operation_id)`, from the rows read before the first operation runs
unfoldable pub prior_of : List Recorded → ℕ → ℕ → Option Recorded
prior_of recorded user id = find? (is_recorded user id) recorded

-- `device is None or device.user_id != user_id or device.revoked_at is not None`
unfoldable pub device_refused : ℕ → ℕ → List Device → Bool
device_refused user device devices = elim (find? (λ d. d.id == device) devices) [
  | none ↦ true
  | some d ↦ not (d.user_id == user) || is_some d.revoked_at
]

module _ (rt : Runtime) where
  unfoldable pub conflict_with : Operation → Row → ConflictType → SyncResult
  conflict_with op row kind = record {
    operation_id = op.operation_id;
    status = conflict;
    detail = disagreed row.id op.base_version row.version (payload_of rt row) kind;
  }

  -- `session.flush()` with one row new or changed
  unfoldable pub flush_row : Db → Row → Result Db
  flush_row db row =
      if rt.accepts db.rows row
      then ok (record db { rows = store row db.rows })
      else err integrity_error

  unfoldable pub new_change : ℕ → Entity → Mutation → ℕ → Row → ℕ → Change
  new_change user e mutation now row sequence = record {
    sequence = sequence;
    user_id = user;
    entity = e;
    entity_id = row.id;
    operation = mutation;
    version = row.version;
    payload = payload_of rt row;
    changed_at = now;
  }

  -- The tables after a row is written and its change logged under the next key.
  unfoldable pub logged : ℕ → Entity → Mutation → ℕ → Row → Db → Db
  logged user e mutation now row db = record db {
    rows = store row db.rows;
    changes = db.changes ++ new_change user e mutation now row db.next_sequence ∷ [];
    next_sequence = db.next_sequence + 1;
  }

  -- The end of `_mutate`: the row is flushed and the change logged.
  unfoldable pub accept :
      ℕ → Operation → Entity → Mutation → ℕ → Row → Db → Result (SyncResult × Db)
  accept user op e mutation now row db = do
    _ ← flush_row db row
    ok (accepted_result op row db.next_sequence, logged user e mutation now row db)

  -- A payload that is not valid makes no row.
  unfoldable pub add_built : ℕ → Entity → Operation → ℕ → Db → Option Row → Result (SyncResult × Db)
  add_built user e op now db none = ok (reject op, db)
  add_built user e op now db (some row) = accept user op e upsert now row db

  -- `_mutate` where the row is not there
  unfoldable pub create : ℕ → Entity → Mutation → Operation → ℕ → Db → Result (SyncResult × Db)
  create user e delete op now db = ok (reject op, db)
  create user e upsert op now db = do
    built ← validate_and_build rt db user e op.entity_id (or_else op.payload end) 1 now
    add_built user e op now db built

  -- `_mutate` where the row is there, by a deletion
  unfoldable pub remove : ℕ → Entity → Operation → ℕ → Row → Db → Result (SyncResult × Db)
  remove user e op now row db =
      accept user op e delete now
        (record row { deleted_at = some now; updated_at = now; version = row.version + 1 }) db

  -- What follows `_update_row`. Attributes written before a refusal are flushed by `_apply`.
  unfoldable pub write_update :
      ℕ → Entity → Operation → ℕ → Row → Db → Update → Result (SyncResult × Db)
  write_update user e op now row db (updated a) =
      accept user op e upsert now
        (record row { attributes = a; updated_at = now; version = row.version + 1 }) db
  write_update user e op now row db (refused none) = ok (reject op, db)
  write_update user e op now row db (refused (some a)) = do
    db' ← flush_row db (record row { attributes = a })
    ok (reject op, db')

  -- `_mutate` where the row is there, by an update
  unfoldable pub modify : ℕ → Entity → Operation → ℕ → Row → Db → Result (SyncResult × Db)
  modify user e op now row db =
      if is_some row.deleted_at then ok (conflict_with op row tombstoned, db) else (do
        update ← update_attributes rt e (or_else op.payload end) row.attributes
        write_update user e op now row db update)

  unfoldable pub mutate :
      ℕ → Entity → Mutation → Operation → ℕ → Option Row → Db → Result (SyncResult × Db)
  mutate user e mutation op now none db = create user e mutation op now db
  mutate user e delete op now (some row) db = remove user e op now row db
  mutate user e upsert op now (some row) db = modify user e op now row db

  -- `_apply` from the row that was found: another user's row, a stale version, or the mutation.
  unfoldable pub decide :
      ℕ → Entity → Mutation → Operation → ℕ → Option Row → Db → Result (SyncResult × Db)
  decide user e mutation op now none db = mutate user e mutation op now none db
  decide user e mutation op now (some row) db =
      if not (row.user_id == user)
      then ok (reject op, db)
      else if not (row.version == op.base_version)
      then ok (conflict_with op row stale_version, db)
      else mutate user e mutation op now (some row) db

  -- The two tests of the operation's names; what they let through is decided.
  unfoldable pub dispatch : ℕ → ℕ → Operation → Db → Result (SyncResult × Db)
  dispatch user now op db = elim (entity_of op.entity_type) [
    | none ↦ ok (reject op, db)
    | some e ↦ elim (mutation_of op.operation) [
      | none ↦ ok (reject op, db)
      | some mutation ↦ decide user e mutation op now (find e op.entity_id db.rows) db
    ]
  ]

  unfoldable pub apply : ℕ → ℕ → ℕ → Operation → Option Recorded → Db → Result (SyncResult × Db)
  apply user device now op (some prior) db = ok (
    record {
      operation_id = prior.result.operation_id;
      status = duplicate;
      detail = prior.result.detail;
    },
    db,
  )
  apply user device now op none db = do
    outcome ← dispatch user now op db
    record_result user device now op.operation_id outcome

  -- The loop of `push`; each operation comes with the time at which it runs.
  unfoldable pub apply_all :
      List Recorded → ℕ → ℕ → List (ℕ × Operation) → Db → Result (List SyncResult × Db)
  apply_all recorded user device [] db = ok ([], db)
  apply_all recorded user device ((now, op) ∷ ops) db = do
    (result, db') ← apply user device now op (prior_of recorded user op.operation_id) db
    (results, db'') ← apply_all recorded user device ops db'
    ok (result ∷ results, db'')

  unfoldable pub push : ℕ → ℕ → List (ℕ × Operation) → Db → Result (List SyncResult × Db)
  push user device ops db = do
    raise_if (device_refused user device db.devices) (app_error "FORBIDDEN" 403)
    apply_all db.operations user device ops db
