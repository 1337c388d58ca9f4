-- ===== src/Sync/Step.antt =====
-- The steps of a push: what `_apply` does with one operation, and induction over the loop of `push`
-- (backend/app/services/cloud_sync.py).
use tw_stock_android_spec.Base.{ℕ, ◌≡◌, refl, false, Option, none, some, List, [], ◌∷◌, any, arith}
use tw_stock_android_spec.Outcome.{app_error, raise_if, ok, >>=-eq-ok, ok-injective}
use tw_stock_android_spec.Sync.Types.{
  Entity, watchlist, Mutation, Operation, SyncResult, Recorded, Db, Runtime, find, entity_of,
  mutation_of,
}
use tw_stock_android_spec.Sync.Push.{
  reject, is_recorded, record_result, decide, dispatch, apply, prior_of, apply_all, push,
  device_refused,
}
use tw_stock_android_spec.Sync.Effect.{Effect, unchanged, decide-Effect}

abbrev pub entry : ℕ → ℕ → ℕ → ℕ → SyncResult → Recorded
entry user device now id result = record {
  user_id = user;
  device_id = device;
  operation_id = id;
  result = result;
  created_at = now;
}

abbrev pub with_entry : Recorded → Db → Db
with_entry r db = record db { operations = r ∷ db.operations }

-- An operation that has no prior result: its effect, and the entry that remembers its result.
pub record Applied (rt : Runtime) (user device now : ℕ) (op : Operation) (db : Db)
    (out : SyncResult × Db) : Type 0 where
  pub entity : Entity
  pub result : SyncResult
  pub tables : Db
  pub effect : Effect rt user entity op db (result, tables)
  pub new_id : any (is_recorded user op.operation_id) tables.operations ≡ false
  pub answer : out.0 ≡ result
  pub stored : out.1 ≡ with_entry (entry user device now op.operation_id result) tables

module _ (rt : Runtime) where
  dispatch-Effect :
      (user now : ℕ) (op : Operation) (db : Db) {out : SyncResult × Db}
      → dispatch rt user now op db ≡ ok out
      → (e : Entity) × Effect rt user e op db out
  unfolding dispatch
  dispatch-Effect user now op db {out} h =
      by_names (entity_of op.entity_type) (mutation_of op.operation) h
    where
      by_names :
          (e : Option Entity) (m : Option Mutation)
          → elim e [
            | none ↦ ok (reject op, db)
            | some e ↦ elim m [
              | none ↦ ok (reject op, db)
              | some m ↦ decide rt user e m op now (find e op.entity_id db.rows) db
            ]
          ]
            ≡ ok out
          → (e : Entity) × Effect rt user e op db out
      by_names none m k = (watchlist, unchanged (ground arith) (ground arith))
      by_names (some e) none k = (e, unchanged (ground arith) (ground arith))
      by_names (some e) (some m) k = (e, decide-Effect rt user e m op now db _ refl k)

  pub record_result-stored :
      (user device now id : ℕ) (r : SyncResult × Db) {out : SyncResult × Db}
      → record_result user device now id r ≡ ok out
      → (any (is_recorded user id) r.1.operations ≡ false)
        × (out.0 ≡ r.0)
        × (out.1 ≡ with_entry (entry user device now id r.0) r.1)
  unfolding record_result
  record_result-stored user device now id r h = ground arith

  pub apply-Applied :
      (user device now : ℕ) (op : Operation) (db : Db) {out : SyncResult × Db}
      → apply rt user device now op none db ≡ ok out
      → Applied rt user device now op db out
  unfolding apply
  apply-Applied user device now op db h =
      let (mid, first, rest) = >>=-eq-ok (dispatch rt user now op db) _ h in
      let (e, effect) = dispatch-Effect user now op db first in
      let (fresh, answer, stored) = record_result-stored user device now op.operation_id mid rest in
      record {
        entity = e;
        result = mid.0;
        tables = mid.1;
        effect = effect;
        new_id = fresh;
        answer = answer;
        stored = stored;
      }

  -- A repeated operation reads nothing but its recorded result, and writes nothing.
  pub apply-prior :
      (user device now : ℕ) (op : Operation) (r : Recorded) (db : Db) {out : SyncResult × Db}
      → apply rt user device now op (some r) db ≡ ok out
      → out.1 ≡ db
  unfolding apply
  apply-prior user device now op r db h = ground arith

  -- What every operation keeps, a push keeps.
  module _ {ℓ} (P : Db → Type ℓ) (user device : ℕ) where
    abbrev pub Keeps : Type ℓ
    Keeps =
        (now : ℕ) (op : Operation) (db : Db) (out : SyncResult × Db)
        → Applied rt user device now op db out
        → P db
        → P out.1

    pub apply-keeps :
        Keeps
        → (now : ℕ) (op : Operation) (prior : Option Recorded) (db : Db) {out : SyncResult × Db}
        → apply rt user device now op prior db ≡ ok out
        → P db
        → P out.1
    apply-keeps keep now op none db h p = keep now op db _ (apply-Applied user device now op db h) p
    apply-keeps keep now op (some r) db h p = rw (apply-prior user device now op r db h) p

    pub apply_all-keeps :
        Keeps
        → (recorded : List Recorded) (ops : List (ℕ × Operation)) (db : Db)
          {out : List SyncResult × Db}
        → apply_all rt recorded user device ops db ≡ ok out
        → P db
        → P out.1
    unfolding apply_all
    apply_all-keeps keep recorded [] db h p = rw (← ok-injective h) p
    apply_all-keeps keep recorded ((now, op) ∷ ops) db h p =
        let prior = prior_of recorded user op.operation_id in
        let (first, e1, h1) = >>=-eq-ok (apply rt user device now op prior db) _ h in
        let (rest, e2, h2) = >>=-eq-ok (apply_all rt recorded user device ops first.1) _ h1 in
        rw (← ok-injective h2)
          (apply_all-keeps keep recorded ops first.1 e2 (apply-keeps keep now op prior db e1 p))

    pub push-keeps :
        Keeps
        → (ops : List (ℕ × Operation)) (db : Db) {out : List SyncResult × Db}
        → push rt user device ops db ≡ ok out
        → P db
        → P out.1
    unfolding push
    push-keeps keep ops db h p =
        let (_, _, rest) =
          >>=-eq-ok (raise_if (device_refused user device db.devices) (app_error "FORBIDDEN" 403)) _
            h in
        apply_all-keeps keep db.operations ops db rest p
