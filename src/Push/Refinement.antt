-- ===== src/Push/Refinement.antt =====
-- The tables of deliveries under every operation (backend/app/services/push_notifications.py): rows
-- only move along the machine, and the attempts they record are the calls of the provider.

use tw_stock_android_spec.Base.{
  ℕ, ◌+◌, ◌≡◌, refl, sym, ap, ◌∙◌, Bool, true, false, Option, none, some, List, [], ◌∷◌, ◌++◌, ◌==◌,
  length, find?, inl, inr, Bool-cases, subst, some_eq, arith,
}
use tw_stock_android_spec.Base.Assoc.{Pair}
use tw_stock_android_spec.Base.Int.{ℤ}
use tw_stock_android_spec.Push.Types.{
  PushDeliveryModel, PushEventModel, PushTokenModel, PushNotificationProvider, failed, disabled,
  Outbox, write_row,
}
use tw_stock_android_spec.Push.Delivery.{
  is_final, start_attempt, push_payload, rounds_of, attempt_delivery, write_attempt, lose_delivery,
  deliver_configured, deliver_open, deliver_found, deliver_single_delivery,
}
use tw_stock_android_spec.Push.Machine.{
  Move, lose, disable, stay, then_moves, Progress, Advances, Advances-refl, Advances-trans,
  Advances-write_row, find?-has_id,
}
use tw_stock_android_spec.Push.Attempts.{IsCoherent, Tried, try_all-Tried}

-- The attempts that a table records
abbrev pub total_attempts : List PushDeliveryModel → ℕ
total_attempts [] = 0
total_attempts (d ∷ rows) = d.attempts + total_attempts rows

-- Rows move along, and each call of the provider is an attempt that is recorded.
pub record Refines (w v : Outbox) : Type 0 where
  pub advances : Advances w.deliveries v.deliveries
  pub counted :
      length v.calls + total_attempts w.deliveries ≡ length w.calls + total_attempts v.deliveries

pub Refines-refl : (w : Outbox) → Refines w w
Refines-refl w = record { advances = Advances-refl w.deliveries; counted = refl }

pub Refines-trans : (u v w : Outbox) → Refines u v → Refines v w → Refines u w
Refines-trans u v w p q = record {
  advances = Advances-trans u.deliveries v.deliveries w.deliveries p.advances q.advances;
  counted = omega (arith, p.counted, q.counted);
}

total_attempts-write_row :
    (k : ℕ) (rows : List PushDeliveryModel) (d e : PushDeliveryModel)
    → find? (λ x. x.id == k) rows ≡ some d
    → e.id ≡ k
    → total_attempts (write_row (λ x. x.id) e rows) + d.attempts ≡ total_attempts rows + e.attempts
total_attempts-write_row k [] d e f same = cc
total_attempts-write_row k (x ∷ rows) d e f same = elim (Bool-cases (x.id == k)) [
  | inl t ↦
      rw (subst (λ j. (x.id == j) ≡ true) (sym same) t)
        (omega (arith, ap (λ (y : PushDeliveryModel). y.attempts) (some_eq (rw t at f))))
  | inr t ↦
      rw (subst (λ j. (x.id == j) ≡ false) (sym same) t)
        (omega (arith, total_attempts-write_row k rows d e (rw t at f) same))
]

pub total_attempts-append_one :
    (rows : List PushDeliveryModel) (d : PushDeliveryModel)
    → total_attempts (rows ++ d ∷ []) ≡ total_attempts rows + d.attempts
total_attempts-append_one [] d = omega arith
total_attempts-append_one (x ∷ rows) d = omega (arith, total_attempts-append_one rows d)

-- The event and the token of each delivery
abbrev pub pairs_of : List PushDeliveryModel → List Pair
pairs_of [] = []
pairs_of (d ∷ rows) = (d.event_id, d.token_id) ∷ pairs_of rows

pairs_of-write_row :
    (k : ℕ) (rows : List PushDeliveryModel) (d e : PushDeliveryModel)
    → find? (λ x. x.id == k) rows ≡ some d
    → Progress d e
    → pairs_of (write_row (λ x. x.id) e rows) ≡ pairs_of rows
pairs_of-write_row k [] d e f p = cc
pairs_of-write_row k (x ∷ rows) d e f p = elim (Bool-cases (x.id == k)) [
  | inl t ↦
      let same = some_eq (rw t at f) in
      let there : (x.id == e.id) ≡ true =
        ground (arith, p.same_id, ap (λ (y : PushDeliveryModel). y.id) same) in
      rw there (ground (arith, p.same_event, p.same_token, same))
  | inr t ↦
      let other : (x.id == e.id) ≡ false =
        ground (arith, p.same_id, find?-has_id k (x ∷ rows) d f) in
      rw other (ap (◌∷◌ (x.event_id, x.token_id)) (pairs_of-write_row k rows d e (rw t at f) p))
]

-- A call for one delivery refines the outbox and leaves the pairs as they are.
pub record Delivers (w v : Outbox) : Type 0 where
  pub refines : Refines w v
  pub same_pairs : pairs_of v.deliveries ≡ pairs_of w.deliveries

Delivers-refl : (w : Outbox) → Delivers w w
Delivers-refl w = record { refines = Refines-refl w; same_pairs = refl }

-- Writing back one row that moved along
write-Delivers :
    (k : ℕ) (w v : Outbox) (d e : PushDeliveryModel)
    → find? (λ x. x.id == k) w.deliveries ≡ some d
    → Progress d e
    → v.deliveries ≡ write_row (λ x. x.id) e w.deliveries
    → length v.calls + d.attempts ≡ length w.calls + e.attempts
    → Delivers w v
write-Delivers k w v d e f p written calls =
    let total =
      total_attempts-write_row k w.deliveries d e f (p.same_id ∙ find?-has_id k w.deliveries d f) in
    record {
      refines = record {
        advances =
            subst (Advances w.deliveries) (sym written) (Advances-write_row k w.deliveries d e f p);
        counted = omega (arith, total, calls, ap total_attempts written);
      };
      same_pairs = ap pairs_of written ∙ pairs_of-write_row k w.deliveries d e f p;
    }

module _ (provider : PushNotificationProvider) (clock : ℕ → ℕ)
    (coherent : IsCoherent provider) where
  -- One delivery that is found and open
  module _ (k : ℕ) (max_retries : ℤ) (w : Outbox) (d : PushDeliveryModel)
      (found : find? (λ x. x.id == k) w.deliveries ≡ some d)
      (free : is_final d.status ≡ false) where
    lost-Progress :
        {e : PushDeliveryModel}
        → Move d.status d.attempts e.status e.attempts
        → e.id ≡ d.id
        → e.event_id ≡ d.event_id
        → e.token_id ≡ d.token_id
        → Progress d e
    lost-Progress move a b c = record {
      same_id = a;
      same_event = b;
      same_token = c;
      moves = then_moves move stay;
    }

    attempt_delivery-Tried :
        (event : PushEventModel) (t : PushTokenModel)
        → Tried
            (rounds_of max_retries)
            (start_attempt provider clock w d t)
            (attempt_delivery provider clock max_retries w d event t)
    unfolding attempt_delivery
    attempt_delivery-Tried event t =
        try_all-Tried provider clock coherent max_retries (push_payload event)
          (rounds_of max_retries) 0 (start_attempt provider clock w d t) free

    deliver_configured-Delivers :
        (configured : Bool) (event : PushEventModel) (t : PushTokenModel)
        → Delivers w (deliver_configured provider clock configured max_retries w d event t).0
    unfolding deliver_configured write_attempt
    deliver_configured-Delivers false event t =
        write-Delivers k w _ d record d { status = disabled } found
          (lost-Progress (disable free) refl refl refl) refl refl
    deliver_configured-Delivers true event t =
        let tried = attempt_delivery-Tried event t in
        write-Delivers k w _ d (attempt_delivery provider clock max_retries w d event t).delivery
          found tried.progress refl tried.counts

    lost-Delivers : Delivers w (lose_delivery provider clock w d).0
    lost-Delivers =
        write-Delivers k w _ d record d { status = failed; error = some "MISSING_EVENT_OR_TOKEN" }
          found (lost-Progress (lose free) refl refl refl) refl refl

    deliver_open-Delivers :
        (event : Option PushEventModel) (t : Option PushTokenModel)
        → Delivers w (deliver_open provider clock max_retries w d event t).0
    unfolding deliver_open
    deliver_open-Delivers none t = lost-Delivers
    deliver_open-Delivers (some event) none = lost-Delivers
    deliver_open-Delivers (some event) (some t) =
        deliver_configured-Delivers provider.configured event t

  deliver_found-Delivers :
      (k : ℕ) (max_retries : ℤ) (w : Outbox) (found : Option PushDeliveryModel)
      → find? (λ x. x.id == k) w.deliveries ≡ found
      → Delivers w (deliver_found provider clock max_retries w found).0
  unfolding deliver_found
  deliver_found-Delivers k max_retries w none f = Delivers-refl w
  deliver_found-Delivers k max_retries w (some d) f = elim (Bool-cases (is_final d.status)) [
    | inl t ↦ rw t (Delivers-refl w)
    | inr t ↦ rw t (deliver_open-Delivers k max_retries w d f t _ _)
  ]

  pub deliver_single_delivery-Delivers :
      (k : ℕ) (max_retries : ℤ) (w : Outbox)
      → Delivers w (deliver_single_delivery provider clock k max_retries w).0
  unfolding deliver_single_delivery
  deliver_single_delivery-Delivers k max_retries w = deliver_found-Delivers k max_retries w _ refl
