-- ===== src/Sync/Isolation.antt =====
-- Users and deletions under a push (backend/app/services/cloud_sync.py): whose rows it can touch, and
-- which rows it can bring back.
use tw_stock_android_spec.Base.{
  ℕ, ◌≡◌, ◌≢◌, ◌≤◌, refl, sym, ◌∙◌, ap, inl, inr, true, some, List, is_some, Bool-cases, arith,
}
use tw_stock_android_spec.Outcome.{ok}
use tw_stock_android_spec.Value.{Fields}
use tw_stock_android_spec.Sync.Types.{
  Entity, Row, Operation, SyncResult, Db, Runtime, index_of, is_row, find, store, find-store,
}
use tw_stock_android_spec.Sync.Push.{logged, push}
use tw_stock_android_spec.Sync.Effect.{
  Effect, unchanged, written, leaked, index_of-injective, VersionStep, find_key,
}
use tw_stock_android_spec.Sync.Step.{push-keeps}

-- A row under the key `(e, i)` that has the property.
abbrev pub Holds : Entity → ℕ → (Row → Type 0) → Db → Type 0
Holds e i P db = (row : Row) × (find e i db.rows ≡ some row) × P row

-- A row that fits a key and was written under another: the keys are one.
pub is_row_key :
    (e f : Entity) (i j : ℕ) (r : Row)
    → is_row e i r ≡ true
    → r.entity ≡ f
    → r.id ≡ j
    → (f ≡ e) × (j ≡ i)
is_row_key e f i j r h p q = ground (arith, index_of-injective f e, ap index_of p)

module _ (rt : Runtime) (user : ℕ) (e : Entity) (i : ℕ) (P : Row → Type 0) where
  store-Holds :
      (row : Row) (db db' : Db)
      → db'.rows ≡ store row db.rows
      → (is_row e i row ≡ true → P row)
      → Holds e i P db
      → Holds e i P db'
  store-Holds row db db' tables here (old, found, p) = elim (Bool-cases (is_row e i row)) [
    | inl same ↦ (row, rw (tables, find-store, same), here same)
    | inr other ↦ (old, rw (tables, find-store, other) found, p)
  ]

  -- A property of the row under a key survives an operation if every write to that key keeps it.
  pub Effect-Holds :
      (f : Entity) (op : Operation) (db : Db) (out : SyncResult × Db)
      → ((old row : Row) → VersionStep user op.base_version (some old) row → P old → P row)
      → ((old : Row) (a : Fields) → old.user_id ≡ user → P old → P (record old { attributes = a }))
      → Effect rt user f op db out
      → Holds e i P db
      → Holds e i P out.1
  unfolding logged
  Effect-Holds f op db out keep spill (unchanged same other) h = rw same h
  Effect-Holds f op db out keep spill (written m now row w result tables) (old, found, p) =
      store-Holds row db out.1 (ap (λ d. d.rows) tables)
        (λ same.
          let (f_e, j_i) = is_row_key e f i op.entity_id row same w.entity w.key in
          let there : find f op.entity_id db.rows ≡ some old = rw (f_e, j_i) found in
          keep old row (rw there at w.step) p)
        (old, found, p)
  Effect-Holds f op db out keep spill (leaked row a setting here mine result tables)
        (old, found, p) =
      store-Holds (record row { attributes = a }) db out.1 (ap (λ d. d.rows) tables)
        (λ same.
          let (row_f, row_j) = find_key f op.entity_id db.rows here in
          let (f_e, j_i) = is_row_key e f i op.entity_id row same row_f row_j in
          let there : find f op.entity_id db.rows ≡ some old = rw (f_e, j_i) found in
          let one : old ≡ row = cc in rw (← one) (spill old a (rw one mine) p))
        (old, found, p)

-- Whatever a user pushes, a row of another user stays where it is, unchanged.
pub push_keeps_others :
    (rt : Runtime) (user device : ℕ) (ops : List (ℕ × Operation)) (db : Db) (e : Entity) (i : ℕ)
    (row : Row) {out : List SyncResult × Db}
    → push rt user device ops db ≡ ok out
    → find e i db.rows ≡ some row
    → row.user_id ≢ user
    → find e i out.1.rows ≡ some row
push_keeps_others rt user device ops db e i row pushed found other =
    let Same : Row → Type 0 = λ r. r ≡ row in
    let (r, there, same) =
      push-keeps rt (Holds e i Same) user device
        (λ now op d o applied h. rw applied.stored (
          Effect-Holds rt user e i Same applied.entity op d (applied.result, applied.tables)
            (λ old r step is_row. absurd (other (sym (ap (λ x. x.user_id) is_row) ∙ step.0)))
            (λ old a mine is_row. absurd (other (sym (ap (λ x. x.user_id) is_row) ∙ mine)))
            applied.effect h))
        ops db pushed (row, found, refl) in
    there ∙ ap some same

-- A deleted row stays deleted, whoever pushes what.
pub push_keeps_tombstones :
    (rt : Runtime) (user device : ℕ) (ops : List (ℕ × Operation)) (db : Db) (e : Entity) (i : ℕ)
    {out : List SyncResult × Db}
    → push rt user device ops db ≡ ok out
    → Holds e i (λ r. is_some r.deleted_at ≡ true) db
    → Holds e i (λ r. is_some r.deleted_at ≡ true) out.1
push_keeps_tombstones rt user device ops db e i pushed gone =
    let Deleted : Row → Type 0 = λ r. is_some r.deleted_at ≡ true in
    push-keeps rt (Holds e i Deleted) user device
      (λ now op d o applied h. rw applied.stored (
        Effect-Holds rt user e i Deleted applied.entity op d (applied.result, applied.tables)
          (λ old r step p. step.3 p) (λ old a mine p. p) applied.effect h))
      ops db pushed gone

-- No row is lost by a push, and its version never falls.
pub push_version_grows :
    (rt : Runtime) (user device : ℕ) (ops : List (ℕ × Operation)) (db : Db) (e : Entity) (i n : ℕ)
    {out : List SyncResult × Db}
    → push rt user device ops db ≡ ok out
    → Holds e i (λ r. n ≤ r.version) db
    → Holds e i (λ r. n ≤ r.version) out.1
push_version_grows rt user device ops db e i n pushed h =
    let Above : Row → Type 0 = λ r. n ≤ r.version in
    push-keeps rt (Holds e i Above) user device
      (λ now op d o applied k. rw applied.stored (
        Effect-Holds rt user e i Above applied.entity op d (applied.result, applied.tables)
          (λ old r step p. omega (arith, step.2)) (λ old a mine p. p) applied.effect k))
      ops db pushed h
