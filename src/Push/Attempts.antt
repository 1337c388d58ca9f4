-- ===== src/Push/Attempts.antt =====
-- What the attempts at one delivery do to its row (`deliver_single_delivery` of
-- backend/app/services/push_notifications.py).

use tw_stock_android_spec.Base.{
  ℕ, zero, suc, ◌+◌, ◌^◌, ◌≤◌, ◌≡◌, refl, ap, String, true, false, Option, none, some, List, [],
  ◌∷◌, ◌++◌, length, length-append, inl, inr, Bool-cases, subst, arith,
}
use tw_stock_android_spec.Base.Int.{ℤ}
use tw_stock_android_spec.Push.Types.{
  PushNotificationPayload, PushDeliveryResult, sending, PushDeliveryModel, PushNotificationProvider,
  Answer, returned, raised, cancelled, SentMessage,
}
use tw_stock_android_spec.Push.Delivery.{
  is_final, Attempt, begin_attempt, outcome, settle, settled, result_of, try_once, is_over, go_on,
  try_all,
}
use tw_stock_android_spec.Push.Machine.{
  claim, succeed, reject, miss, Moves, stay, then_moves, Progress, Progress-refl, Progress-trans,
}

-- A provider never asks to try a token again that it calls invalid.
pub record IsCoherent (provider : PushNotificationProvider) : Type 0 where
  pub given_up :
      (calls : List SentMessage) (token : String) (payload : PushNotificationPayload)
      (r : PushDeliveryResult)
      → provider.send calls token payload ≡ returned r
      → r.invalid_token ≡ true
      → r.retryable ≡ false

abbrev pub Counts : Attempt → Attempt → Type 0
Counts s t = length t.calls + s.delivery.attempts ≡ length s.calls + t.delivery.attempts

-- What rounds of the loop do: the row moves along, and each call of the provider is an attempt.
pub record Tried (rounds : ℕ) (s t : Attempt) : Type 0 where
  pub progress : Progress s.delivery t.delivery
  pub counts : Counts s t
  pub bounded : length t.calls ≤ length s.calls + rounds

outcome-Moves : (r : PushDeliveryResult) (n : ℕ) → Moves sending n (outcome r) n
unfolding outcome
outcome-Moves r n = elim (Bool-cases r.success) [
  | inl t ↦ rw t (then_moves succeed stay)
  | inr t ↦ rw t (elim (Bool-cases r.invalid_token) [
    | inl u ↦ rw u (then_moves reject stay)
    | inr u ↦ rw u (then_moves miss stay)
  ])
]

outcome_open :
    (r : PushDeliveryResult)
    → r.success ≡ false
    → r.invalid_token ≡ false
    → is_final (outcome r) ≡ false
unfolding outcome
outcome_open r a b = rw (a, b)

settled-Progress :
    (answer : Option PushDeliveryResult) (s : Attempt)
    → s.delivery.status ≡ sending
    → Progress s.delivery (settled answer s).delivery
unfolding settled settle
settled-Progress none s h = Progress-refl s.delivery
settled-Progress (some r) s h = record {
  same_id = refl;
  same_event = refl;
  same_token = refl;
  moves = rw h (outcome-Moves r s.delivery.attempts);
}

settled_keeps :
    (answer : Option PushDeliveryResult) (s : Attempt)
    → ((settled answer s).calls ≡ s.calls)
      × ((settled answer s).delivery.attempts ≡ s.delivery.attempts)
      × ((settled answer s).result ≡ answer)
unfolding settled settle
settled_keeps none s = (refl, refl, refl)
settled_keeps (some r) s = (refl, refl, refl)

module _ (provider : PushNotificationProvider) (clock : ℕ → ℕ)
    (coherent : IsCoherent provider) where
  abbrev begun : PushNotificationPayload → Attempt → Attempt
  begun payload s = record s {
    delivery = begin_attempt (clock (length s.calls)) s.delivery;
    calls = s.calls ++ record { device_token = s.token.token; payload = payload } ∷ [];
  }

  begin-Progress :
      (now : ℕ) (d : PushDeliveryModel)
      → is_final d.status ≡ false
      → Progress d (begin_attempt now d)
  begin-Progress now d h = record {
    same_id = refl;
    same_event = refl;
    same_token = refl;
    moves = then_moves (claim h refl) stay;
  }

  try_once-Tried :
      (payload : PushNotificationPayload) (s : Attempt)
      → is_final s.delivery.status ≡ false
      → Tried 1 s (try_once provider clock payload s)
  unfolding try_once
  try_once-Tried payload s h =
      let answer = result_of provider (provider.send s.calls s.token.token payload) in
      let message : SentMessage = record { device_token = s.token.token; payload = payload } in
      let kept = settled_keeps answer (begun payload s) in
      let one = length-append s.calls (message ∷ []) in
      let calls = ap length kept.0 in
      record {
        progress =
            Progress-trans (begin-Progress (clock (length s.calls)) s.delivery h)
              (settled-Progress answer (begun payload s) refl);
        counts = omega (arith, one, calls, kept.1);
        bounded = omega (arith, one, calls);
      }

  go_on_open :
      (attempt : ℕ) (max_retries : ℤ) (answer : Answer) (s : Attempt)
      → ((r : PushDeliveryResult)
          → answer ≡ returned r
          → r.invalid_token ≡ true
          → r.retryable ≡ false)
      → is_over attempt max_retries (result_of provider answer) ≡ false
      → is_final (settled (result_of provider answer) s).delivery.status ≡ false
  unfolding is_over result_of settled settle outcome
  go_on_open attempt max_retries (returned r) s h more = ground (arith, h r refl)
  go_on_open attempt max_retries raised s h more = refl
  go_on_open attempt max_retries cancelled s h more = cc

  -- Where the loop goes on, the delivery is open.
  try_once_open :
      (attempt : ℕ) (max_retries : ℤ) (payload : PushNotificationPayload) (s : Attempt)
      → is_over attempt max_retries (try_once provider clock payload s).result ≡ false
      → is_final (try_once provider clock payload s).delivery.status ≡ false
  unfolding try_once
  try_once_open attempt max_retries payload s more =
      let answer = provider.send s.calls s.token.token payload in
      let kept = settled_keeps (result_of provider answer) (begun payload s) in
      go_on_open attempt max_retries answer (begun payload s)
        (coherent.given_up s.calls s.token.token payload)
        (subst (λ r. is_over attempt max_retries r ≡ false) kept.2 more)

  Tried-trans :
      {rounds : ℕ} {s t u : Attempt} → Tried 1 s t → Tried rounds t u → Tried (suc rounds) s u
  Tried-trans p q = record {
    progress = Progress-trans p.progress q.progress;
    counts = omega (arith, p.counts, q.counts);
    bounded = omega (arith, p.bounded, q.bounded);
  }

  Tried-stop : {rounds : ℕ} {s t : Attempt} → Tried 1 s t → Tried (suc rounds) s t
  Tried-stop p = record {
    progress = p.progress;
    counts = p.counts;
    bounded = omega (arith, p.bounded);
  }

  Tried-slept :
      {rounds n : ℕ} {s t : Attempt} → Tried rounds record s { slept = n } t → Tried rounds s t
  Tried-slept p = record { progress = p.progress; counts = p.counts; bounded = p.bounded }

  pub try_all-Tried :
      (max_retries : ℤ) (payload : PushNotificationPayload) (rounds attempt : ℕ) (s : Attempt)
      → is_final s.delivery.status ≡ false
      → Tried rounds s (try_all provider clock max_retries payload rounds attempt s)
  unfolding try_all go_on
  try_all-Tried max_retries payload zero attempt s h = record {
    progress = Progress-refl s.delivery;
    counts = refl;
    bounded = omega arith;
  }
  try_all-Tried max_retries payload (suc rounds) attempt s h =
      let t = try_once provider clock payload s in
      let first = try_once-Tried payload s h in
      elim (Bool-cases (is_over attempt max_retries t.result)) [
        | inl over ↦ rw over (Tried-stop first)
        | inr more ↦ rw more (
            Tried-trans first (
              Tried-slept (
                try_all-Tried max_retries payload rounds (attempt + 1)
                  record t { slept = t.slept + 2 ^ attempt }
                  (try_once_open attempt max_retries payload s more))))
      ]
