-- ===== src/Push/Unique.antt =====
-- No two rows of the table of tokens have one id, one installation or one token (`register_token` of
-- backend/app/services/push_notifications.py).
use tw_stock_android_spec.Base.{
  ◌≡◌, refl, sym, ap, ◌∙◌, Bool, true, false, Option, none, some, List, [], ◌∷◌, ◌==◌, str_eq,
  find?, All, inl, inr, Bool-cases, subst, some_eq, arith,
}
use tw_stock_android_spec.Base.Assoc.{
  nat_eq, string_eq, named_eq, contains, Distinct, Distinct-append_one, beq_refl, beq_eq,
}
use tw_stock_android_spec.Outcome.{ok, ◌>>=◌, app_error, raise_if-false, >>=-eq-ok, ok-injective}
use tw_stock_android_spec.Auth.Types.{UserDevice}
use tw_stock_android_spec.Push.Types.{PushTokenModel}
use tw_stock_android_spec.Push.TokenKeys.{
  installation_of, token_ids, installations_of, texts_of, IsUnique, token_ids-append_one,
  installations_of-append_one, texts_of-append_one, true-false, written, token_ids-written,
  texts_of-written, other_id,
}
use tw_stock_android_spec.Push.Tokens.{
  is_installation, has_token, conflicts, Registration, renewed, new_setting, save_setting,
  require_device, refuse_conflict, save_registration, register_token,
}

module _ (r : Registration) where
  abbrev is_own : PushTokenModel → Bool
  is_own t = is_installation r.user_id r.device_public_id t

  -- Only the registering installation may hold the token.
  abbrev OwnOnly : List PushTokenModel → Type 0
  OwnOnly tokens = All (λ t. has_token r.token t ≡ true → is_own t ≡ true) tokens

  find?-contains_id :
      (tokens : List PushTokenModel) (s : PushTokenModel)
      → find? is_own tokens ≡ some s
      → contains s.id (token_ids tokens) ≡ true
  find?-contains_id [] s f = cc
  find?-contains_id (x ∷ tokens) s f = elim (Bool-cases (is_own x)) [
    | inl t ↦ ground (arith, ap (λ (y : PushTokenModel). y.id) (some_eq (rw t at f)))
    | inr t ↦ ground (arith, find?-contains_id tokens s (rw t at f))
  ]

  find?-is_own :
      (tokens : List PushTokenModel) (s : PushTokenModel)
      → find? is_own tokens ≡ some s
      → is_own s ≡ true
  find?-is_own [] s f = cc
  find?-is_own (x ∷ tokens) s f = elim (Bool-cases (is_own x)) [
    | inl t ↦ subst (λ y. is_own y ≡ true) (some_eq (rw t at f)) t
    | inr t ↦ find?-is_own tokens s (rw t at f)
  ]

  held_eq : (t : PushTokenModel) → has_token r.token t ≡ true → t.token ≡ r.token
  unfolding has_token
  held_eq t h = beq_eq t.token r.token h

  own_eq :
      (t : PushTokenModel) → is_own t ≡ true → installation_of t ≡ (r.user_id, r.device_public_id)
  unfolding is_installation
  own_eq t h = beq_eq (installation_of t) (r.user_id, r.device_public_id) h

  not_own_text :
      (t : PushTokenModel)
      → is_own t ≡ false
      → (has_token r.token t ≡ true → is_own t ≡ true)
      → str_eq r.token t.token ≡ false
  unfolding has_token
  not_own_text t n own = elim (Bool-cases (str_eq r.token t.token)) [
    | inl same ↦ absurd (
        true-false (
          sym (
            own (
              subst (λ a. str_eq t.token a ≡ true) (sym (beq_eq r.token t.token same))
                (beq_refl t.token)))
          ∙ n))
    | inr other ↦ other
  ]

  -- What follows the installation's row is of other installations, and has other tokens.
  other_texts :
      (tokens : List PushTokenModel)
      → OwnOnly tokens
      → contains (r.user_id, r.device_public_id) (installations_of tokens) ≡ false
      → contains r.token (texts_of tokens) ≡ false
  unfolding is_installation has_token
  other_texts [] own h = refl
  other_texts (x ∷ tokens) own h = ground (arith, other_texts tokens own.1, own.0)

  no_installation :
      (tokens : List PushTokenModel)
      → find? is_own tokens ≡ none
      → contains (r.user_id, r.device_public_id) (installations_of tokens) ≡ false
  unfolding is_installation
  no_installation [] f = refl
  no_installation (x ∷ tokens) f = ground (arith, no_installation tokens)

  absent-OwnOnly :
      (tokens : List PushTokenModel) → contains r.token (texts_of tokens) ≡ false → OwnOnly tokens
  unfolding has_token
  absent-OwnOnly [] h = tt
  absent-OwnOnly (x ∷ tokens) h =
      (λ held. absurd (true-false (sym held ∙ ground arith)), absent-OwnOnly tokens (ground arith))

  -- A registration that is no conflict
  conflicts-OwnOnly :
      (tokens : List PushTokenModel)
      → conflicts r.user_id r.device_public_id (find? (has_token r.token) tokens) ≡ false
      → Distinct (texts_of tokens)
      → OwnOnly tokens
  unfolding conflicts
  conflicts-OwnOnly [] h d = tt
  conflicts-OwnOnly (x ∷ tokens) h d = elim (Bool-cases (has_token r.token x)) [
    | inl t ↦ (
      λ held. ground (arith, rw t at h),
      absent-OwnOnly tokens (subst (λ a. contains a (texts_of tokens) ≡ false) (held_eq x t) d.0),
    )
    | inr t ↦ (λ held. absurd (true-false (sym held ∙ t)), conflicts-OwnOnly tokens (rw t at h) d.1)
  ]

  -- The installation's row is renewed.
  renewed_installations :
      (tokens : List PushTokenModel) (s : PushTokenModel)
      → find? is_own tokens ≡ some s
      → Distinct (token_ids tokens)
      → installations_of (written (renewed r s) tokens) ≡ installations_of tokens
  renewed_installations [] s f d = refl
  renewed_installations (x ∷ tokens) s f d = elim (Bool-cases (is_own x)) [
    | inl t ↦
        let same = some_eq (rw t at f) in
        rw (subst (λ y. (x.id == y.id) ≡ true) same (beq_refl x.id))
          (ap (λ y. installation_of y ∷ installations_of tokens) (sym same))
    | inr t ↦
        rw (other_id tokens x s d.0 (find?-contains_id tokens s (rw t at f)))
          (ap (◌∷◌ (installation_of x)) (renewed_installations tokens s (rw t at f) d.1))
  ]

  renewed_texts :
      (tokens : List PushTokenModel) (s : PushTokenModel)
      → find? is_own tokens ≡ some s
      → IsUnique tokens
      → OwnOnly tokens
      → Distinct (texts_of (written (renewed r s) tokens))
  renewed_texts [] s f u own = tt
  renewed_texts (x ∷ tokens) s f u own = elim (Bool-cases (is_own x)) [
    | inl t ↦ rw (subst (λ y. (x.id == y.id) ≡ true) (some_eq (rw t at f)) (beq_refl x.id)) (
      other_texts tokens own.1 (
          subst (λ k. contains k (installations_of tokens) ≡ false) (own_eq x t) u.installations.0),
      u.texts.1,
    )
    | inr t ↦ rw (other_id tokens x s u.ids.0 (find?-contains_id tokens s (rw t at f))) (
      texts_of-written (renewed r s) x.token tokens u.texts.0 (not_own_text x t own.0),
      renewed_texts tokens s (rw t at f)
          record { ids = u.ids.1; installations = u.installations.1; texts = u.texts.1 } own.1,
    )
  ]

  save_setting-IsUnique :
      (tokens : List PushTokenModel) (setting : Option PushTokenModel)
      → find? is_own tokens ≡ setting
      → IsUnique tokens
      → OwnOnly tokens
      → contains r.id (token_ids tokens) ≡ false
      → IsUnique (save_setting r setting tokens)
  unfolding save_setting
  save_setting-IsUnique tokens none f u own fresh =
      let apart = no_installation tokens f in
      record {
        ids =
            subst Distinct (sym (token_ids-append_one (new_setting r) tokens))
              (Distinct-append_one (token_ids tokens) r.id u.ids fresh);
        installations = subst Distinct (sym (installations_of-append_one (new_setting r) tokens)) (
            Distinct-append_one (installations_of tokens) (r.user_id, r.device_public_id)
              u.installations apart);
        texts =
            subst Distinct (sym (texts_of-append_one (new_setting r) tokens)) (
              Distinct-append_one (texts_of tokens) r.token u.texts (other_texts tokens own apart));
      }
  save_setting-IsUnique tokens (some s) f u own fresh = record {
    ids = subst Distinct (sym (token_ids-written (renewed r s) tokens)) u.ids;
    installations = subst Distinct (sym (renewed_installations tokens s f u.ids)) u.installations;
    texts = renewed_texts tokens s f u own;
  }

  -- A registration that goes through keeps ids, installations and tokens distinct, where the id that
  -- it draws is not in use.
  register_token-IsUnique :
      (devices : List UserDevice) (tokens out : List PushTokenModel)
      → IsUnique tokens
      → contains r.id (token_ids tokens) ≡ false
      → register_token r devices tokens ≡ ok out
      → IsUnique out
  unfolding register_token refuse_conflict save_registration
  register_token-IsUnique devices tokens out u fresh through =
      let save = λ (passed : Unit {0}). ok (save_registration r tokens) in
      let owned =
        >>=-eq-ok (require_device r devices)
          (λ (passed : Unit {0}). refuse_conflict r tokens >>= save) through in
      let free = >>=-eq-ok (refuse_conflict r tokens) save owned.2 in
      subst IsUnique (ok-injective free.2) (
        save_setting-IsUnique tokens (find? is_own tokens) refl u
          (conflicts-OwnOnly tokens
            (raise_if-false
              (conflicts r.user_id r.device_public_id (find? (has_token r.token) tokens))
              (app_error "TOKEN_CONFLICT" 409) free.1)
            u.texts)
          fresh)
