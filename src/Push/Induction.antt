-- ===== src/Push/Induction.antt =====
-- How a relation of outboxes that each step keeps reaches over any sequence of calls of the push
-- notification service (backend/app/services/push_notifications.py).
use tw_stock_android_spec.Base.{
  ℕ, ◌≡◌, refl, Option, none, some, List, [], ◌∷◌, ◌++◌, ◌==◌, if_both, find?, filter, is_some, inl,
  inr, ◌⊎◌, sym, subst, Bool-cases,
}
use tw_stock_android_spec.Base.Int.{ℤ, pos, ◌-ℤ◌}
use tw_stock_android_spec.Outcome.{Error, Result, ok, err}
use tw_stock_android_spec.Push.Types.{
  PushDeliveryResult, PushEventModel, PushTokenModel, PushNotificationProvider, Outbox,
}
use tw_stock_android_spec.Push.Tokens.{register_token, unregister_token}
use tw_stock_android_spec.Push.Delivery.{deliver_single_delivery}
use tw_stock_android_spec.Push.Materialize.{
  Batch, add_delivery, add_deliveries, is_active_of, materialize_for, materialize_found,
  materialize_event_deliveries, materialize_all,
}
use tw_stock_android_spec.Push.Outbox.{
  Dispatch, dispatched_event, after_delivery, deliver_all, deliver_event, dispatch_new,
  dispatch_alert_event, events_to_materialize, claimed, processed, drain_claimed, drain_outbox,
}
use tw_stock_android_spec.Push.Calls.{
  Call, register, unregister, add_event, materialize, deliver, deliver_for, dispatch, drain, call,
  run_calls,
}

Result-cases : {A : Type 0} (r : Result A) → ((e : Error) × (r ≡ err e)) ⊎ ((a : A) × (r ≡ ok a))
Result-cases (err e) = inl (e, refl)
Result-cases (ok a) = inr (a, refl)

pub processed_same : (r : Outbox × Option (List PushDeliveryResult)) → (processed r).0 ≡ r.0
unfolding processed
processed_same (w, none) = refl
processed_same (w, some results) = refl

abbrev pub with_rows : Outbox → Batch → Outbox
with_rows w b = record w { deliveries = b.deliveries }

-- A relation that the service's single steps keep, and that composes.
pub record IsStepwise (provider : PushNotificationProvider) (clock : ℕ → ℕ) (uuid4 : List ℕ → ℕ)
    (R : Outbox → Outbox → Type 0) : Type 0 where
  pub reflexive : (w : Outbox) → R w w
  pub transitive : (u v w : Outbox) → R u v → R v w → R u w
  pub delivered :
      (k : ℕ) (max_retries : ℤ) (w : Outbox)
      → R w (deliver_single_delivery provider clock k max_retries w).0
  pub added :
      (event : ℕ) (t : PushTokenModel) (w : Outbox) (b : Batch)
      → R (with_rows w b) (with_rows w (add_delivery uuid4 event t b))
  pub unchanged :
      (w : Outbox) (tokens : List PushTokenModel) (events : List PushEventModel)
      → R w record w { tokens = tokens; events = events }

module _ {provider : PushNotificationProvider} {clock : ℕ → ℕ} {uuid4 : List ℕ → ℕ}
    {R : Outbox → Outbox → Type 0} (steps : IsStepwise provider clock uuid4 R) where
  add_deliveries_step :
      (event : ℕ) (tokens : List PushTokenModel) (w : Outbox) (b : Batch)
      → R (with_rows w b) (with_rows w (add_deliveries uuid4 event tokens b))
  unfolding add_deliveries
  add_deliveries_step event [] w b = steps.reflexive (with_rows w b)
  add_deliveries_step event (t ∷ tokens) w b =
      steps.transitive (with_rows w b) _ _ (steps.added event t w b)
        (add_deliveries_step event tokens w (add_delivery uuid4 event t b))

  materialize_for_step :
      (w : Outbox) (event : PushEventModel) (user : Option ℕ)
      → R w (with_rows w (materialize_for uuid4 w event user))
  unfolding materialize_for
  materialize_for_step w event none = steps.reflexive w
  materialize_for_step w event (some user) =
      add_deliveries_step event.id (filter (is_active_of user) w.tokens) w
        record { deliveries = w.deliveries; materialized = [] }

  materialize_found_step :
      (w : Outbox) (event : Option PushEventModel)
      → R w (with_rows w (materialize_found uuid4 w event))
  unfolding materialize_found
  materialize_found_step w none = steps.reflexive w
  materialize_found_step w (some event) = materialize_for_step w event event.user_id

  materialize_step : (event : ℕ) (w : Outbox) → R w (materialize_event_deliveries uuid4 event w).0
  unfolding materialize_event_deliveries
  materialize_step event w = materialize_found_step w (find? (λ e. e.id == event) w.events)

  materialize_all_step : (events : List ℕ) (w : Outbox) → R w (materialize_all uuid4 events w)
  unfolding materialize_all
  materialize_all_step [] w = steps.reflexive w
  materialize_all_step (event ∷ events) w =
      steps.transitive w _ _ (materialize_step event w) (materialize_all_step events _)

  after_delivery_step :
      (w : Outbox) (next : Outbox → Outbox × Option (List PushDeliveryResult))
      (r : Outbox × Option PushDeliveryResult)
      → ((v : Outbox) → R v (next v).0)
      → R w r.0
      → R w (after_delivery next r).0
  unfolding after_delivery
  after_delivery_step w next (v, none) h p = p
  after_delivery_step w next (v, some r) h p = steps.transitive w v _ p (h v)

  deliver_all_step :
      (max_retries : ℤ) (ids : List ℕ) (w : Outbox)
      → R w (deliver_all provider clock max_retries ids w).0
  unfolding deliver_all
  deliver_all_step max_retries [] w = steps.reflexive w
  deliver_all_step max_retries (id ∷ ids) w =
      after_delivery_step w (deliver_all provider clock max_retries ids)
        (deliver_single_delivery provider clock id max_retries w) (deliver_all_step max_retries ids)
        (steps.delivered id max_retries w)

  deliver_event_step :
      (event : PushEventModel) (max_retries : ℤ) (w : Outbox)
      → R w (deliver_event provider clock uuid4 event max_retries w).0
  unfolding deliver_event
  deliver_event_step event max_retries w = elim (Bool-cases (is_some event.user_id)) [
    | inl t ↦
        rw t
          (steps.transitive w _ _ (materialize_step event.id w) (deliver_all_step max_retries _ _))
    | inr t ↦ rw t (steps.reflexive w)
  ]

  dispatch_step :
      (a : Dispatch) (w : Outbox) → R w (dispatch_alert_event provider clock uuid4 a w).0
  unfolding dispatch_alert_event dispatch_new
  dispatch_step a w = elim (Bool-cases (is_some (find? (λ e. e.id == a.event_id) w.events))) [
    | inl t ↦ rw t (steps.reflexive w)
    | inr t ↦ rw t (
        steps.transitive w _ _ (steps.unchanged w w.tokens (w.events ++ dispatched_event a ∷ []))
          (deliver_event_step (dispatched_event a) (pos 3) _))
  ]

  drain_step :
      (batch_size : ℕ) (max_retries : ℤ) (stale_seconds now : ℕ) (w : Outbox)
      → R w (drain_outbox provider clock uuid4 batch_size max_retries stale_seconds now w).0
  unfolding drain_outbox drain_claimed
  drain_step batch_size max_retries stale_seconds now w =
      let events = events_to_materialize batch_size w in
      let v = materialize_all uuid4 events w in
      let ids = claimed batch_size (pos now -ℤ pos stale_seconds) v in
      let drained =
        subst (R w) (sym (processed_same (deliver_all provider clock max_retries ids v))) (
          steps.transitive w v _ (materialize_all_step events w)
            (deliver_all_step max_retries ids v)) in
      if_both (λ (r : Outbox × Option ℕ). R w r.0) provider.configured _ _ drained
        (steps.reflexive w)

  call_step : (c : Call) (w : Outbox) → R w (call provider clock uuid4 c w)
  unfolding call
  call_step (register r devices) w = elim (Result-cases (register_token r devices w.tokens)) [
    | inl t ↦ rw t.1 (steps.reflexive w)
    | inr t ↦ rw t.1 (steps.unchanged w t.0 w.events)
  ]
  call_step (unregister user device now) w =
      steps.unchanged w (unregister_token user device now w.tokens) w.events
  call_step (add_event event) w = steps.unchanged w w.tokens (w.events ++ event ∷ [])
  call_step (materialize event) w = materialize_step event w
  call_step (deliver id max_retries) w = steps.delivered id max_retries w
  call_step (deliver_for event max_retries) w = deliver_event_step event max_retries w
  call_step (dispatch a) w = dispatch_step a w
  call_step (drain batch_size max_retries stale_seconds now) w =
      drain_step batch_size max_retries stale_seconds now w

  pub run_calls_step :
      (calls : List Call) (w : Outbox) → R w (run_calls provider clock uuid4 calls w)
  unfolding run_calls
  run_calls_step [] w = steps.reflexive w
  run_calls_step (c ∷ calls) w =
      steps.transitive w _ _ (call_step c w) (run_calls_step calls (call provider clock uuid4 c w))
