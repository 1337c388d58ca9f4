-- ===== src/Push/Drained.antt =====
-- A drain of the outbox leaves no delivery pending (`drain_outbox` of
-- backend/app/services/push_notifications.py).
use tw_stock_android_spec.Base.{
  length-sort_by, ℕ, ◌≤◌, ◌≡◌, refl, sym, ap, ◌∙◌, Bool, true, false, ◌||◌, Option, none, some,
  List, [], ◌∷◌, ◌==◌, length, if◌then◌else◌, find?, filter, take_of_length-le, insert_sorted,
  sort_by, by_key, inl, inr, ◌⊎◌, Bool-cases, subst, some_eq, arith, ==_iff, is_some,
}
use tw_stock_android_spec.Base.Assoc.{nat_eq, contains}
use tw_stock_android_spec.Base.Int.{ℤ, pos, ◌-ℤ◌}
use tw_stock_android_spec.Push.Types.{
  PushDeliveryResult, PushDeliveryModel, PushNotificationProvider, Outbox,
}
use tw_stock_android_spec.Push.Delivery.{deliver_single_delivery}
use tw_stock_android_spec.Push.Materialize.{ids_in, materialize_all}
use tw_stock_android_spec.Push.Outbox.{
  is_pending, is_eligible, claimed, after_delivery, deliver_all, processed, events_to_materialize,
  drain_claimed, drain_outbox,
}
use tw_stock_android_spec.Push.Machine.{Progress}
use tw_stock_android_spec.Push.Attempts.{IsCoherent}
use tw_stock_android_spec.Push.Refinement.{deliver_single_delivery-Delivers}
use tw_stock_android_spec.Push.Induction.{processed_same}
use tw_stock_android_spec.Push.Served.{
  IsServed, Advances-find?, Moves-not_pending, NeverCancels, deliver_single_delivery-IsServed,
  deliver_single_delivery_some,
}

module _ (before : PushDeliveryModel → PushDeliveryModel → Bool) where
  contains-insert_sorted :
      (k : ℕ) (x : PushDeliveryModel) (ys : List PushDeliveryModel)
      → contains k (ids_in (insert_sorted before x ys)) ≡ contains k (ids_in (x ∷ ys))
  contains-insert_sorted k x [] = refl
  contains-insert_sorted k x (y ∷ ys) = ground (arith, contains-insert_sorted k x ys)

  contains-sort_by :
      (k : ℕ) (xs : List PushDeliveryModel)
      → contains k (ids_in (sort_by before xs)) ≡ contains k (ids_in xs)
  contains-sort_by k [] = refl
  contains-sort_by k (x ∷ xs) =
      contains-insert_sorted k x (sort_by before xs) ∙ ap (◌||◌ (x.id == k)) (contains-sort_by k xs)

contains-filter :
    (p : PushDeliveryModel → Bool) (k : ℕ) (rows : List PushDeliveryModel) (d : PushDeliveryModel)
    → find? (λ x. x.id == k) rows ≡ some d
    → p d ≡ true
    → contains k (ids_in (filter p rows)) ≡ true
contains-filter p k [] d f h = cc
contains-filter p k (x ∷ rows) d f h = elim (Bool-cases (x.id == k)) [
  | inl t ↦
      rw (subst (λ (y : PushDeliveryModel). p y ≡ true) (sym (some_eq (rw t at f))) h) (rw t refl)
  | inr t ↦ ground (arith, contains-filter p k rows d (rw t at f) h)
]

-- Where a batch takes all that are eligible, every eligible delivery is claimed.
contains-claimed :
    (batch_size : ℕ) (cutoff : ℤ) (w : Outbox) (k : ℕ) (d : PushDeliveryModel)
    → length (filter (is_eligible cutoff) w.deliveries) ≤ batch_size
    → find? (λ x. x.id == k) w.deliveries ≡ some d
    → is_eligible cutoff d ≡ true
    → contains k (claimed batch_size cutoff w) ≡ true
unfolding claimed
contains-claimed batch_size cutoff w k d fits f h =
    let before = by_key (λ (x : PushDeliveryModel). x.id) in
    let rows = filter (is_eligible cutoff) w.deliveries in
    let whole =
      take_of_length-le batch_size (sort_by before rows)
        (omega (arith, length-sort_by before rows)) in
    ap (λ xs. contains k (ids_in xs)) whole
    ∙ contains-sort_by before k rows
    ∙ contains-filter (is_eligible cutoff) k w.deliveries d f h

eligible_or_not_pending :
    (cutoff : ℤ) (d : PushDeliveryModel)
    → (is_eligible cutoff d ≡ true) ⊎ (is_pending d.status ≡ false)
unfolding is_eligible
eligible_or_not_pending cutoff d = elim (Bool-cases (is_pending d.status)) [
  | inl t ↦ inl (rw t refl)
  | inr t ↦ inr t
]

after_delivery_some :
    (next : Outbox → Outbox × Option (List PushDeliveryResult))
    (r : Outbox × Option PushDeliveryResult)
    → is_some r.1 ≡ true
    → (after_delivery next r).0 ≡ (next r.0).0
unfolding after_delivery
after_delivery_some next (w, none) h = cc
after_delivery_some next (w, some r) h = refl

module _ (provider : PushNotificationProvider) (clock : ℕ → ℕ) (uuid4 : List ℕ → ℕ)
    (coherent : IsCoherent provider) (never : NeverCancels provider) where
  -- After one call the delivery is still to be delivered, or is served.
  module _ (max_retries : ℤ) (id : ℕ) (ids : List ℕ) (w : Outbox) (k : ℕ) (d : PushDeliveryModel)
      (found : find? (λ x. x.id == k) w.deliveries ≡ some d) where
    abbrev Remains : Type 0
    Remains =
        (e : PushDeliveryModel) × (find? (λ x. x.id == k)
            (deliver_single_delivery provider clock id max_retries w).0.deliveries
          ≡ some e)
        × ((contains k ids ≡ true) ⊎ (is_pending e.status ≡ false))

    moved_on :
        (e : PushDeliveryModel) × (find?
            (λ x. x.id == k)
            (deliver_single_delivery provider clock id max_retries w).0.deliveries
          ≡ some e)
        × Progress d e
    moved_on =
        Advances-find? k w.deliveries _ d
          (deliver_single_delivery-Delivers provider clock coherent id max_retries
            w).refines.advances
          found

    remains_served :
        IsServed k (deliver_single_delivery provider clock id max_retries w).0.deliveries → Remains
    remains_served (e, there, free) = (e, there, inr free)

    remains_same : id ≡ k → Remains
    remains_same same = remains_served (
        subst
          (λ j. IsServed k (deliver_single_delivery provider clock j max_retries w).0.deliveries)
          (sym same)
          (deliver_single_delivery-IsServed provider clock coherent k max_retries w d found))

    remains : (contains k (id ∷ ids) ≡ true) ⊎ (is_pending d.status ≡ false) → Remains
    remains (inr free) = (moved_on.0, moved_on.1, inr (Moves-not_pending moved_on.2.moves free))
    remains (inl h) = elim (Bool-cases (id == k)) [
      | inl t ↦ remains_same ((==_iff id k).0 t)
      | inr t ↦ (moved_on.0, moved_on.1, inl (rw t at h))
    ]

  -- A delivery that is among those delivered, or was not pending, is served.
  deliver_all-IsServed :
      (max_retries : ℤ) (ids : List ℕ) (w : Outbox) (k : ℕ) (d : PushDeliveryModel)
      → find? (λ x. x.id == k) w.deliveries ≡ some d
      → (contains k ids ≡ true) ⊎ (is_pending d.status ≡ false)
      → IsServed k (deliver_all provider clock max_retries ids w).0.deliveries
  unfolding deliver_all
  deliver_all-IsServed max_retries [] w k d f (inl h) = cc
  deliver_all-IsServed max_retries [] w k d f (inr h) = (d, f, h)
  deliver_all-IsServed max_retries (id ∷ ids) w k d f h =
      let next = deliver_single_delivery provider clock id max_retries w in
      let goes_on =
        after_delivery_some (deliver_all provider clock max_retries ids) next
          (deliver_single_delivery_some provider clock coherent never max_retries w id) in
      let rest = remains max_retries id ids w k d f h in
      subst (λ (v : Outbox). IsServed k v.deliveries) (sym goes_on)
        (deliver_all-IsServed max_retries ids next.0 k rest.0 rest.1 rest.2)

  -- Where a provider is configured, its calls are not cancelled, it does not ask to try again a token
  -- that it calls invalid, and a batch takes all deliveries that are eligible once events are
  -- materialized, however many others there are: after a drain every delivery of that table is
  -- there and is not pending.
  pub drain_outbox-IsServed :
      (batch_size : ℕ) (max_retries : ℤ) (stale_seconds now : ℕ) (w : Outbox) (k : ℕ)
      (d : PushDeliveryModel)
      → provider.configured ≡ true
      → length (
          filter
            (is_eligible (pos now -ℤ pos stale_seconds))
            (materialize_all uuid4 (events_to_materialize batch_size w) w).deliveries)
        ≤ batch_size
      → find?
          (λ x. x.id == k)
          (materialize_all uuid4 (events_to_materialize batch_size w) w).deliveries
        ≡ some d
      → IsServed k
          (drain_outbox provider clock uuid4 batch_size max_retries stale_seconds now
            w).0.deliveries
  unfolding drain_outbox drain_claimed
  drain_outbox-IsServed batch_size max_retries stale_seconds now w k d ready fits found =
      let v = materialize_all uuid4 (events_to_materialize batch_size w) w in
      let cutoff = pos now -ℤ pos stale_seconds in
      let ids = claimed batch_size cutoff v in
      let due : (contains k ids ≡ true) ⊎ (is_pending d.status ≡ false) =
        elim (eligible_or_not_pending cutoff d) [
          | inl t ↦ inl (contains-claimed batch_size cutoff v k d fits found t)
          | inr t ↦ inr t
        ] in
      let drained =
        subst (λ (u : Outbox). IsServed k u.deliveries)
          (sym (processed_same (deliver_all provider clock max_retries ids v)))
          (deliver_all-IsServed max_retries ids v k d found due) in
      let out = processed (deliver_all provider clock max_retries ids v) in
      subst (λ b. IsServed k (if b then out else (w, some 0)).0.deliveries) (sym ready) drained
