-- ===== src/Push/History.antt =====
-- What holds over any sequence of calls of the push notification service
-- (backend/app/services/push_notifications.py).
use tw_stock_android_spec.Base.{
  ℕ, ◌≡◌, refl, ap, false, List, [], ◌∷◌, ◌++◌, any, inl, inr, sym, subst, Bool-cases, arith,
}
use tw_stock_android_spec.Base.Assoc.{pair_eq, contains, Distinct, Distinct-append_one}
use tw_stock_android_spec.Push.Types.{
  PushDeliveryModel, PushTokenModel, PushNotificationProvider, Outbox,
}
use tw_stock_android_spec.Push.Materialize.{Batch, new_delivery, ids_in, is_between, add_delivery}
use tw_stock_android_spec.Push.Machine.{stay, Advances-refl, Advances-append_one}
use tw_stock_android_spec.Push.Attempts.{IsCoherent}
use tw_stock_android_spec.Push.Refinement.{
  total_attempts-append_one, Refines, Refines-refl, Refines-trans, deliver_single_delivery-Delivers,
  pairs_of,
}
use tw_stock_android_spec.Push.Calls.{Call, run_calls}
use tw_stock_android_spec.Push.Induction.{IsStepwise, with_rows, run_calls_step}

-- At most one delivery of an event to a token
abbrev pub OnePerToken : Outbox → Type 0
OnePerToken w = Distinct (pairs_of w.deliveries)

pairs_of-append_one :
    (rows : List PushDeliveryModel) (d : PushDeliveryModel)
    → pairs_of (rows ++ d ∷ []) ≡ pairs_of rows ++ (d.event_id, d.token_id) ∷ []
pairs_of-append_one [] d = refl
pairs_of-append_one (x ∷ rows) d = ap (◌∷◌ (x.event_id, x.token_id)) (pairs_of-append_one rows d)

module _ (provider : PushNotificationProvider) (clock : ℕ → ℕ) (uuid4 : List ℕ → ℕ)
    (coherent : IsCoherent provider) where
  -- Rows are added as pending, with no attempts.
  add_delivery-Refines :
      (event : ℕ) (t : PushTokenModel) (w : Outbox) (b : Batch)
      → Refines (with_rows w b) (with_rows w (add_delivery uuid4 event t b))
  unfolding add_delivery
  add_delivery-Refines event t w b = elim (Bool-cases (any (is_between event t.id) b.deliveries)) [
    | inl there ↦ rw there (Refines-refl (with_rows w b))
    | inr fresh ↦
        let d = new_delivery (uuid4 (ids_in b.deliveries)) event t.id in
        rw fresh record {
          advances = Advances-append_one b.deliveries d stay;
          counted = omega (arith, total_attempts-append_one b.deliveries d);
        }
  ]

  Refines-IsStepwise : IsStepwise provider clock uuid4 Refines
  Refines-IsStepwise = record {
    reflexive = Refines-refl;
    transitive = Refines-trans;
    delivered = λ k max_retries w.
        (deliver_single_delivery-Delivers provider clock coherent k max_retries w).refines;
    added = add_delivery-Refines;
    unchanged = λ w tokens events. record { advances = Advances-refl w.deliveries; counted = refl };
  }

  -- Where a provider never asks to try again a token that it calls invalid, any calls of the service
  -- keep every delivery, of its event and token, and change its status and attempts only along the
  -- moves of the machine; deliveries that are added start as pending; and the provider is called as
  -- often as the table records more attempts.
  pub run_calls-Refines :
      (calls : List Call) (w : Outbox) → Refines w (run_calls provider clock uuid4 calls w)
  run_calls-Refines calls w = run_calls_step Refines-IsStepwise calls w

  added_apart :
      (event : ℕ) (token : ℕ) (rows : List PushDeliveryModel)
      → any (is_between event token) rows ≡ false
      → contains (event, token) (pairs_of rows) ≡ false
  unfolding is_between
  added_apart event token [] h = refl
  added_apart event token (d ∷ rows) h = ground (arith, added_apart event token rows)

  add_delivery-OnePerToken :
      (event : ℕ) (t : PushTokenModel) (w : Outbox) (b : Batch)
      → OnePerToken (with_rows w b)
      → OnePerToken (with_rows w (add_delivery uuid4 event t b))
  unfolding add_delivery
  add_delivery-OnePerToken event t w b one =
      elim (Bool-cases (any (is_between event t.id) b.deliveries)) [
        | inl there ↦ rw there one
        | inr fresh ↦
            let d = new_delivery (uuid4 (ids_in b.deliveries)) event t.id in
            rw fresh (
              subst Distinct (sym (pairs_of-append_one b.deliveries d)) (
                Distinct-append_one (pairs_of b.deliveries) (event, t.id) one
                  (added_apart event t.id b.deliveries fresh)))
      ]

  OnePerToken-IsStepwise : IsStepwise provider clock uuid4 (λ w v. OnePerToken w → OnePerToken v)
  OnePerToken-IsStepwise = record {
    reflexive = λ w one. one;
    transitive = λ u v w p q one. q (p one);
    delivered = λ k max_retries w one.
        let delivers = deliver_single_delivery-Delivers provider clock coherent k max_retries w in
        subst Distinct (sym delivers.same_pairs) one;
    added = add_delivery-OnePerToken;
    unchanged = λ w tokens events one. one;
  }

  -- Where no event has two deliveries to one token, none has after any calls of the service.
  pub run_calls-OnePerToken :
      (calls : List Call) (w : Outbox)
      → OnePerToken w
      → OnePerToken (run_calls provider clock uuid4 calls w)
  run_calls-OnePerToken calls w one = run_calls_step OnePerToken-IsStepwise calls w one
