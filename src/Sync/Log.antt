-- ===== src/Sync/Log.antt =====
-- The change log under a push (backend/app/services/cloud_sync.py): its sequence numbers ascend, and
-- its latest entry for a key has the version of the row under that key.
use tw_stock_android_spec.Base.{
  ℕ, ◌+◌, ◌<◌, ◌≡◌, refl, sym, ◌∙◌, ap, inl, inr, Bool, Option, none, some, List, [], ◌∷◌, ◌++◌,
  ◌&&◌, ◌==◌, if◌then◌else◌, All, All-append, Ascending, Ascending-append_one, Bool-cases, arith,
}
use tw_stock_android_spec.Outcome.{ok}
use tw_stock_android_spec.Sync.Types.{
  Entity, Row, Operation, SyncResult, Change, Db, Runtime, same_entity, is_row, find, store,
  find-store,
}
use tw_stock_android_spec.Sync.Push.{new_change, logged, push}
use tw_stock_android_spec.Sync.Effect.{Effect, unchanged, written, leaked, find_key}
use tw_stock_android_spec.Sync.Isolation.{is_row_key}
use tw_stock_android_spec.Value.{Fields}
use tw_stock_android_spec.Sync.Step.{push-keeps}

-- Sequence numbers ascend, and the next one is above them all.
pub record IsLog (db : Db) : Type 0 where
  pub ascending : Ascending (λ c. c.sequence) db.changes
  pub bounded : All (λ c. c.sequence < db.next_sequence) db.changes

All-weaken :
    (n : ℕ) (cs : List Change) → All (λ c. c.sequence < n) cs → All (λ c. c.sequence < n + 1) cs
All-weaken n [] h = tt
All-weaken n (c ∷ cs) h = (omega arith, All-weaken n cs h.1)

Effect-IsLog :
    (rt : Runtime) (user : ℕ) (e : Entity) (op : Operation) (db : Db) (out : SyncResult × Db)
    → Effect rt user e op db out
    → IsLog db
    → IsLog out.1
unfolding logged new_change
Effect-IsLog rt user e op db out (unchanged same other) h = rw same h
Effect-IsLog rt user e op db out (written m now row w result tables) h = rw tables (record {
  ascending = Ascending-append_one (λ c. c.sequence) db.changes _ h.ascending h.bounded;
  bounded =
      All-append _ db.changes _ (All-weaken db.next_sequence db.changes h.bounded)
        (omega arith, tt);
})
Effect-IsLog rt user e op db out (leaked row a setting here mine result tables) h =
    rw tables (record { ascending = h.ascending; bounded = h.bounded })

-- A push numbers its changes upwards: the log stays in strictly ascending order.
pub push-IsLog :
    (rt : Runtime) (user device : ℕ) (ops : List (ℕ × Operation)) (db : Db)
    {out : List SyncResult × Db}
    → push rt user device ops db ≡ ok out
    → IsLog db
    → IsLog out.1
push-IsLog rt user device ops db pushed h =
    push-keeps rt IsLog user device
      (λ now op d o applied k.
        let log =
          Effect-IsLog rt user applied.entity op d (applied.result, applied.tables) applied.effect
            k in
        rw applied.stored (record { ascending = log.ascending; bounded = log.bounded }))
      ops db pushed h

abbrev pub is_about : Entity → ℕ → Change → Bool
is_about e i c = same_entity c.entity e && c.entity_id == i

-- The version in the last change of a key.
abbrev pub latest : Entity → ℕ → List Change → Option ℕ
latest e i [] = none
latest e i (c ∷ cs) = elim (latest e i cs) [
  | some v ↦ some v
  | none ↦ if is_about e i c then some c.version else none
]

abbrev pub row_version : Option Row → Option ℕ
row_version none = none
row_version (some row) = some row.version

-- The log tells the version of every row: of each key, the last change has the row's version, and
-- a key with no change has no row.
abbrev pub IsTold : Db → Type 0
IsTold db = (e : Entity) (i : ℕ) → row_version (find e i db.rows) ≡ latest e i db.changes

latest-append_one :
    (e : Entity) (i : ℕ) (cs : List Change) (c : Change)
    → latest e i (cs ++ c ∷ []) ≡ (if is_about e i c then some c.version else latest e i cs)
latest-append_one e i [] c = refl
latest-append_one e i (d ∷ cs) c = ground (arith, latest-append_one e i cs c)

written_told :
    (e : Entity) (i : ℕ) (row : Row) (c : Change) (rows : List Row) (cs : List Change)
    → is_about e i c ≡ is_row e i row
    → c.version ≡ row.version
    → row_version (find e i rows) ≡ latest e i cs
    → row_version (find e i (store row rows)) ≡ latest e i (cs ++ c ∷ [])
written_told e i row c rows cs same version told = elim (Bool-cases (is_row e i row)) [
  | inl here ↦ rw (find-store, latest-append_one, same, here) (ap some (sym version))
  | inr other ↦ rw (find-store, latest-append_one, same, other) told
]

leaked_told :
    (f e : Entity) (j i : ℕ) (row : Row) (a : Fields) (rows : List Row)
    → find f j rows ≡ some row
    → row_version (find e i (store (record row { attributes = a }) rows))
      ≡ row_version (find e i rows)
leaked_told f e j i row a rows here = elim (Bool-cases (is_row e i row)) [
  | inl same ↦
      let (row_f, row_j) = find_key f j rows here in
      let (f_e, j_i) = is_row_key e f i j row same row_f row_j in
      let there : find e i rows ≡ some row = rw (← f_e, ← j_i) here in rw (find-store, same, there)
  | inr other ↦ rw (find-store, other)
]

Effect-IsTold :
    (rt : Runtime) (user : ℕ) (f : Entity) (op : Operation) (db : Db) (out : SyncResult × Db)
    → Effect rt user f op db out
    → IsTold db
    → IsTold out.1
unfolding logged new_change
Effect-IsTold rt user f op db out (unchanged same other) h = rw same h
Effect-IsTold rt user f op db out (written m now row w result tables) h = rw tables (λ e i.
    written_told e i row (new_change rt user f m now row db.next_sequence) db.rows db.changes
      (ap (λ x. same_entity x e && row.id == i) (sym w.entity)) refl (h e i))
Effect-IsTold rt user f op db out (leaked row a setting here mine result tables) h =
    rw tables (λ e i. leaked_told f e op.entity_id i row a db.rows here ∙ h e i)

-- Where the log told every row's version, it does after a push: a client that has read a key's last
-- change knows the version to send as its base.
pub push-IsTold :
    (rt : Runtime) (user device : ℕ) (ops : List (ℕ × Operation)) (db : Db)
    {out : List SyncResult × Db}
    → push rt user device ops db ≡ ok out
    → IsTold db
    → IsTold out.1
push-IsTold rt user device ops db pushed h =
    push-keeps rt IsTold user device
      (λ now op d o applied k. rw applied.stored (
        Effect-IsTold rt user applied.entity op d (applied.result, applied.tables) applied.effect
          k))
      ops db pushed h
