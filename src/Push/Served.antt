-- ===== src/Push/Served.antt =====
-- A delivery that the service was called for is not pending afterwards (`deliver_single_delivery` of
-- backend/app/services/push_notifications.py).
use tw_stock_android_spec.Base.{
  ℕ, zero, suc, ◌+◌, ◌^◌, ◌≡◌, ◌≢◌, refl, sym, ◌∙◌, String, Bool, true, false, Option, none, some,
  List, [], ◌∷◌, ◌==◌, ◌<◌, is_some, if_both, find?, inl, inr, Bool-cases, subst, some_eq, arith,
  ==_refl,
}
use tw_stock_android_spec.Base.Assoc.{nat_eq}
use tw_stock_android_spec.Base.Int.{ℤ, pos, negsuc}
use tw_stock_android_spec.Push.Types.{
  PushNotificationPayload, PushDeliveryResult, PushDeliveryModel, PushEventModel, PushTokenModel,
  PushNotificationProvider, Answer, returned, raised, cancelled, SentMessage, DeliveryStatus,
  pending, sending, sent, failed, invalid_token, disabled, Outbox, write_row,
}
use tw_stock_android_spec.Push.Delivery.{
  is_final, Attempt, start_attempt, push_payload, rounds_of, settled, settle, outcome, result_of,
  try_once, is_over, go_on, try_all, attempt_delivery, write_attempt, deliver_configured,
  deliver_open, deliver_found, deliver_single_delivery,
}
use tw_stock_android_spec.Push.Outbox.{is_pending}
use tw_stock_android_spec.Push.Machine.{
  claim, succeed, reject, miss, lose, disable, Moves, stay, then_moves, Progress, Advances,
  find?-has_id,
}
use tw_stock_android_spec.Push.Attempts.{IsCoherent, try_all-Tried}

pub Moves-not_pending :
    {s t : DeliveryStatus} {n m : ℕ} → Moves s n t m → is_pending s ≡ false → is_pending t ≡ false
Moves-not_pending stay h = h
Moves-not_pending (then_moves (claim free e) moves) h = Moves-not_pending moves refl
Moves-not_pending (then_moves succeed moves) h = Moves-not_pending moves refl
Moves-not_pending (then_moves reject moves) h = Moves-not_pending moves refl
Moves-not_pending (then_moves miss moves) h = Moves-not_pending moves refl
Moves-not_pending (then_moves (lose free) moves) h = Moves-not_pending moves refl
Moves-not_pending (then_moves (disable free) moves) h = Moves-not_pending moves refl

-- The row of an id is there and is not pending.
abbrev pub IsServed : ℕ → List PushDeliveryModel → Type 0
IsServed k rows =
    (d : PushDeliveryModel) × (find? (λ x. x.id == k) rows ≡ some d) × (is_pending d.status ≡ false)

find?-write_row :
    (k : ℕ) (rows : List PushDeliveryModel) (d e : PushDeliveryModel)
    → find? (λ x. x.id == k) rows ≡ some d
    → e.id ≡ k
    → find? (λ x. x.id == k) (write_row (λ x. x.id) e rows) ≡ some e
find?-write_row k [] d e f same = cc
find?-write_row k (x ∷ rows) d e f same = elim (Bool-cases (x.id == k)) [
  | inl t ↦
      rw (subst (λ j. (x.id == j) ≡ true) (sym same) t)
        (rw (subst (λ j. (j == k) ≡ true) (sym same) (==_refl k)) refl)
  | inr t ↦
      rw (subst (λ j. (x.id == j) ≡ false) (sym same) t)
        (rw t (find?-write_row k rows d e (rw t at f) same))
]

-- A row that moved along is still found by its id.
pub Advances-find? :
    (k : ℕ) (xs ys : List PushDeliveryModel) (d : PushDeliveryModel)
    → Advances xs ys
    → find? (λ x. x.id == k) xs ≡ some d
    → (e : PushDeliveryModel) × (find? (λ x. x.id == k) ys ≡ some e) × Progress d e
Advances-find? k [] ys d a f = cc
Advances-find? k (x ∷ xs) [] d a f = absurd a
Advances-find? k (x ∷ xs) (y ∷ ys) d a f = elim (Bool-cases (x.id == k)) [
  | inl t ↦ (
    y,
    rw (subst (λ j. (j == k) ≡ true) (sym a.0.same_id) t) refl,
    subst (λ z. Progress z y) (some_eq (rw t at f)) a.0,
  )
  | inr t ↦
      let (e, found, p) = Advances-find? k xs ys d a.1 (rw t at f) in
      (e, rw (subst (λ j. (j == k) ≡ false) (sym a.0.same_id) t) found, p)
]

IsServed-Advances :
    (k : ℕ) (xs ys : List PushDeliveryModel) → Advances xs ys → IsServed k xs → IsServed k ys
IsServed-Advances k xs ys a (d, found, free) =
    let (e, there, p) = Advances-find? k xs ys d a found in
    (e, there, Moves-not_pending p.moves free)

-- The provider's calls are not cancelled.
abbrev pub NeverCancels : PushNotificationProvider → Type 0
NeverCancels provider =
    (calls : List SentMessage) (token : String) (payload : PushNotificationPayload)
    → provider.send calls token payload ≢ cancelled

settled_not_pending :
    (answer : Option PushDeliveryResult) (s : Attempt)
    → is_pending s.delivery.status ≡ false
    → is_pending (settled answer s).delivery.status ≡ false
unfolding settled settle outcome
settled_not_pending none s h = h
settled_not_pending (some r) s h = ground arith

result_of_some :
    (provider : PushNotificationProvider) (answer : Answer)
    → answer ≢ cancelled
    → is_some (result_of provider answer) ≡ true
unfolding result_of
result_of_some provider (returned r) h = refl
result_of_some provider raised h = refl
result_of_some provider cancelled h = absurd (h refl)

settled_result :
    (answer : Option PushDeliveryResult) (s : Attempt) → (settled answer s).result ≡ answer
unfolding settled
settled_result none s = refl
settled_result (some r) s = refl

rounds_pos : (max_retries : ℤ) → 0 < rounds_of max_retries
unfolding rounds_of
rounds_pos (pos n) = omega arith
rounds_pos (negsuc n) = omega arith

final_not_pending : (s : DeliveryStatus) → is_final s ≡ true → is_pending s ≡ false
final_not_pending pending h = cc
final_not_pending sending h = refl
final_not_pending sent h = refl
final_not_pending invalid_token h = refl
final_not_pending failed h = refl
final_not_pending disabled h = refl

module _ (provider : PushNotificationProvider) (clock : ℕ → ℕ)
    (coherent : IsCoherent provider) where
  try_once_not_pending :
      (payload : PushNotificationPayload) (s : Attempt)
      → is_pending (try_once provider clock payload s).delivery.status ≡ false
  unfolding try_once
  try_once_not_pending payload s = settled_not_pending _ _ refl

  -- A delivery that was tried at all is not pending.
  try_all_not_pending :
      (max_retries : ℤ) (payload : PushNotificationPayload) (rounds attempt : ℕ) (s : Attempt)
      → 0 < rounds
      → is_pending (try_all provider clock max_retries payload rounds attempt s).delivery.status
        ≡ false
  unfolding try_all go_on
  try_all_not_pending max_retries payload zero attempt s h = absurd (omega arith)
  try_all_not_pending max_retries payload (suc zero) attempt s h =
      let t = try_once provider clock payload s in
      elim (Bool-cases (is_over attempt max_retries t.result)) [
        | inl over ↦ rw over (try_once_not_pending payload s)
        | inr more ↦ rw more (try_once_not_pending payload s)
      ]
  try_all_not_pending max_retries payload (suc (suc rounds)) attempt s h =
      let t = try_once provider clock payload s in
      elim (Bool-cases (is_over attempt max_retries t.result)) [
        | inl over ↦ rw over (try_once_not_pending payload s)
        | inr more ↦ rw more (
            try_all_not_pending max_retries payload (suc rounds) (attempt + 1)
              record t { slept = t.slept + 2 ^ attempt } (omega arith))
      ]

  attempted_not_pending :
      (max_retries : ℤ) (w : Outbox) (d : PushDeliveryModel) (event : PushEventModel)
      (t : PushTokenModel)
      → is_pending (attempt_delivery provider clock max_retries w d event t).delivery.status ≡ false
  unfolding attempt_delivery
  attempted_not_pending max_retries w d event t =
      try_all_not_pending max_retries (push_payload event) (rounds_of max_retries) 0
        (start_attempt provider clock w d t) (rounds_pos max_retries)

  module _ (never : NeverCancels provider) where
    try_all_some :
        (max_retries : ℤ) (payload : PushNotificationPayload) (rounds attempt : ℕ) (s : Attempt)
        → is_some s.result ≡ true
        → is_some (try_all provider clock max_retries payload rounds attempt s).result ≡ true
    unfolding try_all go_on try_once
    try_all_some max_retries payload zero attempt s h = h
    try_all_some max_retries payload (suc rounds) attempt s h =
        let t = try_once provider clock payload s in
        let answered : is_some t.result ≡ true =
          subst (λ r. is_some r ≡ true) (sym (settled_result _ _))
            (result_of_some provider _ (never s.calls s.token.token payload)) in
        elim (Bool-cases (is_over attempt max_retries t.result)) [
          | inl over ↦ rw over answered
          | inr more ↦ rw more (
              try_all_some max_retries payload rounds (attempt + 1)
                record t { slept = t.slept + 2 ^ attempt } answered)
        ]

  -- The call for a delivery that is there
  module _ (k : ℕ) (max_retries : ℤ) (w : Outbox) (d : PushDeliveryModel)
      (found : find? (λ x. x.id == k) w.deliveries ≡ some d) where
    written-IsServed :
        (e : PushDeliveryModel)
        → e.id ≡ d.id
        → is_pending e.status ≡ false
        → IsServed k (write_row (λ x. x.id) e w.deliveries)
    written-IsServed e same free = (
      e,
      find?-write_row k w.deliveries d e found (same ∙ find?-has_id k w.deliveries d found),
      free,
    )

    module _ (free : is_final d.status ≡ false) where
      attempted_same_id :
          (event : PushEventModel) (t : PushTokenModel)
          → (attempt_delivery provider clock max_retries w d event t).delivery.id ≡ d.id
      unfolding attempt_delivery
      attempted_same_id event t =
          let tried =
            try_all-Tried provider clock coherent max_retries (push_payload event)
              (rounds_of max_retries) 0 (start_attempt provider clock w d t) free in
          tried.progress.same_id

      deliver_configured-IsServed :
          (configured : Bool) (event : PushEventModel) (t : PushTokenModel)
          → IsServed k
              (deliver_configured provider clock configured max_retries w d event t).0.deliveries
      unfolding deliver_configured write_attempt
      deliver_configured-IsServed false event t =
          written-IsServed record d { status = disabled } refl refl
      deliver_configured-IsServed true event t =
          written-IsServed (attempt_delivery provider clock max_retries w d event t).delivery
            (attempted_same_id event t) (attempted_not_pending max_retries w d event t)

      deliver_open-IsServed :
          (event : Option PushEventModel) (t : Option PushTokenModel)
          → IsServed k (deliver_open provider clock max_retries w d event t).0.deliveries
      unfolding deliver_open
      deliver_open-IsServed none t = written-IsServed _ refl refl
      deliver_open-IsServed (some event) none = written-IsServed _ refl refl
      deliver_open-IsServed (some event) (some t) =
          deliver_configured-IsServed provider.configured event t

    deliver_found-IsServed :
        (final : Bool)
        → is_final d.status ≡ final
        → IsServed k (deliver_found provider clock max_retries w (some d)).0.deliveries
    unfolding deliver_found
    deliver_found-IsServed true t = rw t (d, found, final_not_pending d.status t)
    deliver_found-IsServed false t = rw t (deliver_open-IsServed t _ _)

    pub deliver_single_delivery-IsServed :
        IsServed k (deliver_single_delivery provider clock k max_retries w).0.deliveries
    unfolding deliver_single_delivery
    deliver_single_delivery-IsServed = rw found (deliver_found-IsServed (is_final d.status) refl)

  module _ (never : NeverCancels provider) (max_retries : ℤ) (w : Outbox) where
    deliver_configured_some :
        (configured : Bool) (d : PushDeliveryModel) (event : PushEventModel) (t : PushTokenModel)
        → is_some (deliver_configured provider clock configured max_retries w d event t).1 ≡ true
    unfolding deliver_configured attempt_delivery
    deliver_configured_some false d event t = refl
    deliver_configured_some true d event t =
        try_all_some never max_retries (push_payload event) (rounds_of max_retries) 0 _ refl

    deliver_open_some :
        (d : PushDeliveryModel) (event : Option PushEventModel) (t : Option PushTokenModel)
        → is_some (deliver_open provider clock max_retries w d event t).1 ≡ true
    unfolding deliver_open
    deliver_open_some d none t = refl
    deliver_open_some d (some event) none = refl
    deliver_open_some d (some event) (some t) =
        deliver_configured_some provider.configured d event t

    deliver_found_some :
        (found : Option PushDeliveryModel)
        → is_some (deliver_found provider clock max_retries w found).1 ≡ true
    unfolding deliver_found
    deliver_found_some none = refl
    deliver_found_some (some d) =
        if_both (λ (r : Outbox × Option PushDeliveryResult). is_some r.1 ≡ true) (is_final d.status)
          _ _ refl (deliver_open_some d _ _)

    -- A call that is not cancelled has a result.
    pub deliver_single_delivery_some :
        (k : ℕ) → is_some (deliver_single_delivery provider clock k max_retries w).1 ≡ true
    unfolding deliver_single_delivery
    deliver_single_delivery_some k = deliver_found_some _
