-- ===== src/Sync/Races.antt =====
-- Optimistic concurrency of `_apply` (backend/app/services/cloud_sync.py), and the one way in which a
-- rejected operation still writes.
use tw_stock_android_spec.Base.{
  ℕ, ◌+◌, ◌≡◌, ◌≢◌, refl, sym, ◌∙◌, ap, true, false, none, Option, some, String, is_some, or_else,
  arith,
}
use tw_stock_android_spec.Outcome.{Result, ok, >>=-eq-ok}
use tw_stock_android_spec.Value.{Fields, null, text, end, lookup, insert}
use tw_stock_android_spec.Sync.Types.{
  Entity, entity_of, mutation_of, user_setting, Mutation, upsert, index_of, Row, Operation,
  SyncResult, accepted, Db, Runtime, is_row, stale_version, find, store, find-store,
}
use tw_stock_android_spec.Sync.Build.{refused_key}
use tw_stock_android_spec.Sync.Update.{
  refused, update_attributes, update_setting, update_setting_key,
}
use tw_stock_android_spec.Sync.Push.{
  reject, accepted_result, logged, conflict_with, flush_row, write_update, modify, mutate, decide,
  dispatch, apply,
}
use tw_stock_android_spec.Sync.Step.{entry, with_entry, record_result-stored}
use tw_stock_android_spec.Sync.Effect.{Effect, unchanged, written, leaked, decide-Effect}

-- `_apply` from the lookup of the row to the result, which it records then
abbrev pub run : Runtime → ℕ → Entity → Mutation → Operation → ℕ → Db → Result (SyncResult × Db)
run rt user e m op now db = decide rt user e m op now (find e op.entity_id db.rows) db

run-Effect :
    (rt : Runtime) (user : ℕ) (e : Entity) (m : Mutation) (op : Operation) (now : ℕ) (db : Db)
    {out : SyncResult × Db}
    → run rt user e m op now db ≡ ok out
    → Effect rt user e op db out
run-Effect rt user e m op now db h = decide-Effect rt user e m op now db _ refl h

-- What an accepted operation leaves under its key.
accepted_row :
    (rt : Runtime) (user : ℕ) (e : Entity) (op : Operation) (db : Db) (old : Row)
    (out : SyncResult × Db)
    → find e op.entity_id db.rows ≡ some old
    → out.0.status ≡ accepted
    → Effect rt user e op db out
    → (row : Row) × (find e op.entity_id out.1.rows ≡ some row)
      × (row.user_id ≡ user)
      × (row.version ≡ op.base_version + 1)
unfolding logged
accepted_row rt user e op db old out found done (unchanged same other) = absurd (other done)
accepted_row rt user e op db old out found done (written m now row w result tables) =
    let step = rw found at w.step in
    let here : is_row e op.entity_id row ≡ true = ground (arith, ap index_of w.entity, w.key) in
    (row, rw (tables, find-store, here), w.owner, omega (arith, step.1, step.2))
accepted_row rt user e op db old out found done (leaked row a setting here mine result tables) =
    absurd (rejected_accepted (sym (ap (λ r. r.status) result) ∙ done))
  where
    rejected_accepted : (reject op).status ≡ accepted → ⊥
    rejected_accepted h = cc

stale_conflict :
    (rt : Runtime) (user : ℕ) (e : Entity) (m : Mutation) (op : Operation) (now : ℕ) (db : Db)
    (row : Row)
    → find e op.entity_id db.rows ≡ some row
    → row.user_id ≡ user
    → row.version ≢ op.base_version
    → run rt user e m op now db ≡ ok (conflict_with rt op row stale_version, db)
unfolding decide
stale_conflict rt user e m op now db row found mine stale = rw found (ground arith)

-- Two operations that start from one version of a row: once the first is accepted, the row has the
-- next version, and the second is answered with a conflict that names it and changes nothing.
pub no_lost_update :
    (rt : Runtime) (user : ℕ) (e : Entity) (m m' : Mutation) (op op' : Operation) (now now' : ℕ)
    (db : Db) (old : Row) {out : SyncResult × Db}
    → find e op.entity_id db.rows ≡ some old
    → op'.entity_id ≡ op.entity_id
    → op'.base_version ≡ op.base_version
    → run rt user e m op now db ≡ ok out
    → out.0.status ≡ accepted
    → (row : Row) × (find e op.entity_id out.1.rows ≡ some row)
      × (row.version ≡ op.base_version + 1)
      × (run rt user e m' op' now' out.1 ≡ ok (conflict_with rt op' row stale_version, out.1))
no_lost_update rt user e m m' op op' now now' db old {out} found same_row same_base first done =
    let (row, there, mine, next) =
      accepted_row rt user e op db old out found done (run-Effect rt user e m op now db first) in
    (
      row,
      there,
      next,
      stale_conflict rt user e m' op' now' out.1 row (rw same_row there) mine (omega arith),
    )

unaccepted_effect :
    (rt : Runtime) (user : ℕ) (e : Entity) (op : Operation) (db : Db) (out : SyncResult × Db)
    → e ≢ user_setting
    → out.0.status ≢ accepted
    → Effect rt user e op db out
    → out.1 ≡ db
unfolding accepted_result
unaccepted_effect rt user e op db out other bad (unchanged same done) = same
unaccepted_effect rt user e op db out other bad (written m now row w result tables) =
    absurd (bad (ap (λ r. r.status) result))
unaccepted_effect rt user e op db out other bad (leaked row a setting here mine result tables) =
    absurd (other setting)

dispatch_unaccepted :
    (rt : Runtime) (user now : ℕ) (op : Operation) (db : Db) (out : SyncResult × Db)
    → entity_of op.entity_type ≢ some user_setting
    → dispatch rt user now op db ≡ ok out
    → out.0.status ≢ accepted
    → out.1 ≡ db
unfolding dispatch
dispatch_unaccepted rt user now op db out other h bad =
    by_names (entity_of op.entity_type) (mutation_of op.operation) other h
  where
    by_names :
        (e : Option Entity) (m : Option Mutation)
        → e ≢ some user_setting
        → elim e [
          | none ↦ ok (reject op, db)
          | some e ↦ elim m [
            | none ↦ ok (reject op, db)
            | some m ↦ decide rt user e m op now (find e op.entity_id db.rows) db
          ]
        ]
          ≡ ok out
        → out.1 ≡ db
    by_names none m o k = ground arith
    by_names (some e) none o k = ground arith
    by_names (some e) (some m) o k =
        unaccepted_effect rt user e op db out (λ s. o (ap some s)) bad
          (run-Effect rt user e m op now db k)

-- A new operation on any entity but a setting that is not accepted changes no row, no change of the
-- log and no device: all that it leaves is the record of its result.
pub unaccepted_writes_nothing :
    (rt : Runtime) (user device now : ℕ) (op : Operation) (db : Db) {out : SyncResult × Db}
    → entity_of op.entity_type ≢ some user_setting
    → apply rt user device now op none db ≡ ok out
    → out.0.status ≢ accepted
    → out.1 ≡ with_entry (entry user device now op.operation_id out.0) db
unfolding apply
unaccepted_writes_nothing rt user device now op db {out} other h bad =
    let (mid, first, rest) = >>=-eq-ok (dispatch rt user now op db) _ h in
    let (fresh, answer, stored) =
      record_result-stored rt user device now op.operation_id mid rest in
    let refusal = λ (done : mid.0.status ≡ accepted). bad (ap (λ r. r.status) answer ∙ done) in
    let same = dispatch_unaccepted rt user now op db mid other first refusal in
    stored
    ∙ ap (λ r. with_entry (entry user device now op.operation_id r) mid.1) (sym answer)
    ∙ ap (with_entry (entry user device now op.operation_id out.0)) same

update_setting_key_lem :
    (payload a : Fields) (k : String)
    → lookup "key" payload ≡ some (text k)
    → refused_key (text k) ≡ ok false
    → update_setting_key payload a ≡ ok (some (insert "key" (text k) a))
unfolding update_setting_key
update_setting_key_lem payload a k sent fine = rw (sent, update_setting_key) (rw fine)

update_setting_null :
    (payload a : Fields) (k : String)
    → lookup "key" payload ≡ some (text k)
    → lookup "value" payload ≡ some null
    → refused_key (text k) ≡ ok false
    → update_setting payload a ≡ ok (refused (some (insert "key" (text k) a)))
unfolding update_setting
update_setting_null payload a k sent value fine =
    rw (update_setting_key_lem payload a k sent fine) (ground arith)

modify_setting_null :
    (rt : Runtime) (user : ℕ) (op : Operation) (now : ℕ) (db : Db) (row : Row) (payload a : Fields)
    → row.deleted_at ≡ none
    → op.payload ≡ some payload
    → update_setting payload row.attributes ≡ ok (refused (some a))
    → rt.accepts db.rows (record row { attributes = a }) ≡ true
    → modify rt user user_setting op now row db
      ≡ ok (reject op, record db { rows = store (record row { attributes = a }) db.rows })
unfolding modify update_attributes write_update flush_row
modify_setting_null rt user op now db row payload a alive sent refusal fits =
    let shown : update_setting (or_else op.payload end) row.attributes ≡ ok (refused (some a)) =
      ap (λ p. update_setting (or_else p end) row.attributes) sent ∙ refusal in
    simp (ap is_some alive, shown, fits)

-- An update of a live setting that carries a new key and a null value is rejected, and yet the row's
-- key is overwritten: under the old version, and with no change in the log.
pub rejected_setting_writes :
    (rt : Runtime) (user : ℕ) (op : Operation) (now : ℕ) (db : Db) (row : Row) (payload : Fields)
    (k : String)
    → find user_setting op.entity_id db.rows ≡ some row
    → row.user_id ≡ user
    → row.version ≡ op.base_version
    → row.deleted_at ≡ none
    → op.payload ≡ some payload
    → lookup "key" payload ≡ some (text k)
    → lookup "value" payload ≡ some null
    → refused_key (text k) ≡ ok false
    → rt.accepts db.rows (record row { attributes = insert "key" (text k) row.attributes }) ≡ true
    → run rt user user_setting upsert op now db
      ≡ ok (
        reject op,
        record db {
          rows = store (record row { attributes = insert "key" (text k) row.attributes }) db.rows;
        },
      )
unfolding decide mutate
rejected_setting_writes rt user op now db row payload k found mine fresh alive sent key value fine
      fits =
    let done =
      modify_setting_null rt user op now db row payload _ alive sent
        (update_setting_null payload row.attributes k key value fine) fits in
    rw found (ground (arith, done))
