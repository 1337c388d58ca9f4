-- ===== src/Sync/Replay.antt =====
-- Idempotence of `push` (backend/app/services/cloud_sync.py): what was pushed once is remembered, and
-- pushing it again reports duplicates and writes nothing.
use tw_stock_android_spec.Base.{
  ℕ, ◌≡◌, refl, sym, ◌∙◌, ap, inl, inr, false, Option, none, some, List, [], ◌∷◌, map, ◌==◌, any,
  any-find?, Bool-cases, arith,
}
use tw_stock_android_spec.Outcome.{ok, app_error, raise_if, >>=-eq-ok, ok-injective}
use tw_stock_android_spec.Sync.Types.{
  Entity, Operation, SyncResult, duplicate, Recorded, Device, Db, Runtime,
}
use tw_stock_android_spec.Sync.Push.{
  is_recorded, prior_of, device_refused, logged, apply, apply_all, push,
}
use tw_stock_android_spec.Sync.Effect.{Effect, unchanged, written, leaked}
use tw_stock_android_spec.Sync.Step.{Keeps, apply-keeps, entry, apply-Applied, apply_all-keeps}

abbrev pub as_duplicate : SyncResult → SyncResult
as_duplicate r = record r { status = duplicate }

module _ (rt : Runtime) (user : ℕ) where
  -- Rows and changes are all that an operation writes before its result is recorded.
  Effect-operations :
      (e : Entity) (op : Operation) (db : Db) (out : SyncResult × Db)
      → Effect rt user e op db out
      → (out.1.operations ≡ db.operations) × (out.1.devices ≡ db.devices)
  unfolding logged
  Effect-operations e op db out (unchanged same other) =
      (ap (λ d. d.operations) same, ap (λ d. d.devices) same)
  Effect-operations e op db out (written m now row w result tables) =
      (ap (λ d. d.operations) tables, ap (λ d. d.devices) tables)
  Effect-operations e op db out (leaked row a setting here mine result tables) =
      (ap (λ d. d.operations) tables, ap (λ d. d.devices) tables)

  entry-keeps :
      (device now id id' : ℕ) (result : SyncResult) (ops : List Recorded) (r : Recorded)
      → any (is_recorded user id') ops ≡ false
      → prior_of ops user id ≡ some r
      → prior_of (entry user device now id' result ∷ ops) user id ≡ some r
  unfolding prior_of
  entry-keeps device now id id' result ops r new old = elim (Bool-cases (id' == id)) [
    | inl same ↦
        let e : id' ≡ id = ground arith in
        cc (any-find? (is_recorded user id) ops r old, ap (λ k. any (is_recorded user k) ops) e)
    | inr other ↦ ground arith
  ]

  -- An operation that is remembered stays remembered, with its result.
  Applied-keeps-prior :
      (device id : ℕ) (r : Recorded)
      → Keeps rt (λ db. prior_of db.operations user id ≡ some r) user device
  Applied-keeps-prior device id r now op db out applied old =
      let same =
        (Effect-operations applied.entity op db (applied.result, applied.tables)
          applied.effect).0 in
      rw applied.stored (
        entry-keeps device now id op.operation_id applied.result applied.tables.operations r
          applied.new_id (ap (λ ops. prior_of ops user id) same ∙ old))

  Applied-keeps-devices :
      (device : ℕ) (devices : List Device) → Keeps rt (λ db. db.devices ≡ devices) user device
  Applied-keeps-devices device devices now op db out applied old = rw applied.stored (
      (Effect-operations applied.entity op db (applied.result, applied.tables) applied.effect).1
      ∙ old)

  -- The result is on record, up to its status.
  abbrev IsRemembered : Db → ℕ → SyncResult → Type 0
  IsRemembered db id result =
      (r : Recorded) × (prior_of db.operations user id ≡ some r)
      × (as_duplicate r.result ≡ as_duplicate result)

  abbrev AllRemembered : Db → List (ℕ × Operation) → List SyncResult → Type 0
  AllRemembered db [] [] = Unit {0}
  AllRemembered db ((now, op) ∷ ops) (r ∷ results) =
      IsRemembered db op.operation_id r × AllRemembered db ops results
  AllRemembered db _ _ = ⊥

  apply-IsRemembered :
      (device now : ℕ) (op : Operation) (prior : Option Recorded) (db : Db) {out : SyncResult × Db}
      → ((r : Recorded) → prior ≡ some r → prior_of db.operations user op.operation_id ≡ some r)
      → apply rt user device now op prior db ≡ ok out
      → IsRemembered out.1 op.operation_id out.0
  unfolding apply prior_of
  apply-IsRemembered device now op (some r) db known h = (
    r,
    ap (λ d. prior_of d.operations user op.operation_id) (sym (ap (λ o. o.1) (ok-injective h)))
        ∙ known r refl,
    ap (λ o. as_duplicate o.0) (ok-injective h),
  )
  apply-IsRemembered device now op none db known h =
      let applied = apply-Applied rt user device now op db h in
      (
        entry user device now op.operation_id applied.result,
        ap (λ d. prior_of d.operations user op.operation_id) applied.stored ∙ ground arith,
        ap as_duplicate (sym applied.answer),
      )

  apply_all-AllRemembered :
      (recorded : List Recorded) (device : ℕ) (ops : List (ℕ × Operation)) (db : Db)
      {out : List SyncResult × Db}
      → ((id : ℕ) (r : Recorded)
          → prior_of recorded user id ≡ some r
          → prior_of db.operations user id ≡ some r)
      → apply_all rt recorded user device ops db ≡ ok out
      → AllRemembered out.1 ops out.0
  unfolding apply_all
  apply_all-AllRemembered recorded device [] db known h = rw (← ok-injective h) tt
  apply_all-AllRemembered recorded device ((now, op) ∷ ops) db known h =
      let prior = prior_of recorded user op.operation_id in
      let (first, e1, h1) = >>=-eq-ok (apply rt user device now op prior db) _ h in
      let (rest, e2, h2) = >>=-eq-ok (apply_all rt recorded user device ops first.1) _ h1 in
      let (r, found, same) =
        apply-IsRemembered device now op prior db (λ r. known op.operation_id r) e1 in
      rw (← ok-injective h2) (
        (
          r,
          apply_all-keeps rt _ user device (Applied-keeps-prior device op.operation_id r) recorded
              ops first.1 e2 found,
          same,
        ),
        apply_all-AllRemembered recorded device ops first.1
            (λ id r k.
              apply-keeps rt _ user device (Applied-keeps-prior device id r) now op prior db e1
                (known id r k))
            e2,
      )

  replay-AllRemembered :
      (device : ℕ) (later : ℕ → ℕ) (ops : List (ℕ × Operation)) (results : List SyncResult)
      (db : Db)
      → AllRemembered db ops results
      → apply_all rt db.operations user device (map (λ (t, op). (later t, op)) ops) db
        ≡ ok (map as_duplicate results, db)
  unfolding apply_all apply
  replay-AllRemembered device later [] [] db h = refl
  replay-AllRemembered device later [] (r ∷ results) db h = absurd h
  replay-AllRemembered device later ((t, op) ∷ ops) [] db h = absurd h
  replay-AllRemembered device later ((t, op) ∷ ops) (r ∷ results) db ((prior, found, same), rest) =
      rw (found, replay-AllRemembered device later ops results db rest)
        (ap (λ x. ok (x ∷ map as_duplicate results, db)) same)

-- A push that went through can be sent again from the same device, at any later times: every
-- operation is answered as a duplicate of its first result, and no table changes.
pub push_replay :
    (rt : Runtime) (user device : ℕ) (later : ℕ → ℕ) (ops : List (ℕ × Operation)) (db : Db)
    {out : List SyncResult × Db}
    → push rt user device ops db ≡ ok out
    → push rt user device (map (λ (t, op). (later t, op)) ops) out.1
      ≡ ok (map as_duplicate out.0, out.1)
unfolding push
push_replay rt user device later ops db {out} h =
    let (_, open_, rest) =
      >>=-eq-ok (raise_if (device_refused user device db.devices) (app_error "FORBIDDEN" 403)) _
        h in
    let devices =
      apply_all-keeps rt _ user device (Applied-keeps-devices rt user device db.devices)
        db.operations ops db rest refl in
    rw
      (ap (λ ds. raise_if (device_refused user device ds) (app_error "FORBIDDEN" 403)) devices
        ∙ open_)
      (replay-AllRemembered rt user device later ops out.0 out.1
        (apply_all-AllRemembered rt user db.operations device ops db (λ id r k. k) rest))
