-- ===== src/Push/Coherent.antt =====
-- The providers of the repository are coherent (backend/app/services/push_notifications.py,
-- backend/app/adapters/fcm_push.py).
use tw_stock_android_spec.Base.{
  ℕ, ◌≡◌, sym, ap, String, Bool, true, false, List, inl, inr, Bool-cases, str_eq, eq_iff, refl,
  arith,
}
use tw_stock_android_spec.Push.Types.{
  PushDeliveryResult, SentMessage, returned, unconfigured_push_provider, fake_push_provider,
}
use tw_stock_android_spec.Push.Fcm.{
  FcmSettings, FcmMessage, Sending, accepted, exception, interrupted, is_unregistered, is_transient,
  categorised, fcm_result, fcm_status, fcm_push_provider, message_of,
}
use tw_stock_android_spec.Push.Attempts.{IsCoherent}

returned_eq : {r s : PushDeliveryResult} → returned r ≡ returned s → r ≡ s
returned_eq e = cc

-- An unregistered token is no transient error.
unregistered-not_transient :
    (category : String) → is_unregistered category ≡ true → is_transient category ≡ false
unregistered-not_transient category h = rw ((eq_iff category "UnregisteredError").0 h) refl

fcm_result_given_up :
    (sending : Sending) (r : PushDeliveryResult)
    → fcm_result sending ≡ returned r
    → r.invalid_token ≡ true
    → r.retryable ≡ false
unfolding fcm_result categorised
fcm_result_given_up (accepted id) r e h = ground (arith, ap (λ x. x) e)
fcm_result_given_up (exception category) r e h = ground (arith, unregistered-not_transient category)
fcm_result_given_up interrupted r e h = cc

pub fcm_push_provider-IsCoherent :
    (is_file : String → Bool) (settings : FcmSettings)
    (firebase : List SentMessage → FcmMessage → Sending)
    → IsCoherent (fcm_push_provider is_file settings firebase)
unfolding fcm_push_provider
fcm_push_provider-IsCoherent is_file settings firebase = record {
  given_up = λ calls token payload r e h.
      elim (Bool-cases (str_eq (fcm_status is_file settings) "READY")) [
        | inl t ↦ fcm_result_given_up (firebase calls (message_of token payload)) r (rw t at e) h
        | inr t ↦ sym (ap (λ x. x.retryable) (returned_eq (rw t at e)))
      ];
}

pub fake_push_provider-IsCoherent : (drawn : ℕ → String) → IsCoherent (fake_push_provider drawn)
unfolding fake_push_provider
fake_push_provider-IsCoherent drawn = record {
  given_up = λ calls token payload r e h. sym (ap (λ x. x.retryable) (returned_eq e));
}

pub unconfigured_push_provider-IsCoherent : IsCoherent unconfigured_push_provider
unfolding unconfigured_push_provider
unconfigured_push_provider-IsCoherent = record {
  given_up = λ calls token payload r e h. sym (ap (λ x. x.retryable) (returned_eq e));
}
