-- ===== src/Push/TokenKeys.antt =====
-- The keys of the table of tokens, and what a row that is written does to them
-- (backend/app/repositories/push_models.py).
use tw_stock_android_spec.Base.{
  ℕ, ◌≡◌, refl, sym, ap, ◌∙◌, String, true, false, List, [], ◌∷◌, ◌++◌, ◌==◌, str_eq, inl, inr,
  Bool-cases, subst, arith, ==_iff,
}
use tw_stock_android_spec.Base.Assoc.{nat_eq, string_eq, named_eq, contains, Distinct}
use tw_stock_android_spec.Push.Types.{PushTokenModel, write_row}

abbrev pub installation_of : PushTokenModel → ℕ × String
installation_of t = (t.user_id, t.device_public_id)

abbrev pub token_ids : List PushTokenModel → List ℕ
token_ids [] = []
token_ids (t ∷ tokens) = t.id ∷ token_ids tokens

abbrev pub installations_of : List PushTokenModel → List (ℕ × String)
installations_of [] = []
installations_of (t ∷ tokens) = installation_of t ∷ installations_of tokens

abbrev pub texts_of : List PushTokenModel → List String
texts_of [] = []
texts_of (t ∷ tokens) = t.token ∷ texts_of tokens

-- The constraints that the table declares
pub record IsUnique (tokens : List PushTokenModel) : Type 0 where
  pub ids : Distinct (token_ids tokens)
  pub installations : Distinct (installations_of tokens)
  pub texts : Distinct (texts_of tokens)

module _ (t : PushTokenModel) where
  pub token_ids-append_one :
      (tokens : List PushTokenModel) → token_ids (tokens ++ t ∷ []) ≡ token_ids tokens ++ t.id ∷ []
  token_ids-append_one [] = refl
  token_ids-append_one (x ∷ tokens) = ap (◌∷◌ x.id) (token_ids-append_one tokens)

  pub installations_of-append_one :
      (tokens : List PushTokenModel)
      → installations_of (tokens ++ t ∷ []) ≡ installations_of tokens ++ installation_of t ∷ []
  installations_of-append_one [] = refl
  installations_of-append_one (x ∷ tokens) =
      ap (◌∷◌ (installation_of x)) (installations_of-append_one tokens)

  pub texts_of-append_one :
      (tokens : List PushTokenModel) → texts_of (tokens ++ t ∷ []) ≡ texts_of tokens ++ t.token ∷ []
  texts_of-append_one [] = refl
  texts_of-append_one (x ∷ tokens) = ap (◌∷◌ x.token) (texts_of-append_one tokens)

pub true-false : true ≡ false → ⊥
true-false p = cc

module _ (e : PushTokenModel) where
  abbrev pub written : List PushTokenModel → List PushTokenModel
  written tokens = write_row (λ t. t.id) e tokens

  pub token_ids-written :
      (tokens : List PushTokenModel) → token_ids (written tokens) ≡ token_ids tokens
  token_ids-written [] = refl
  token_ids-written (x ∷ tokens) = ground (arith, token_ids-written tokens)

  -- A text that is neither in the table nor the row's is not in the table that is written.
  pub texts_of-written :
      (a : String) (tokens : List PushTokenModel)
      → contains a (texts_of tokens) ≡ false
      → str_eq e.token a ≡ false
      → contains a (texts_of (written tokens)) ≡ false
  texts_of-written a [] h n = refl
  texts_of-written a (x ∷ tokens) h n = ground (arith, texts_of-written a tokens)

pub other_id :
    (tokens : List PushTokenModel) (x s : PushTokenModel)
    → contains x.id (token_ids tokens) ≡ false
    → contains s.id (token_ids tokens) ≡ true
    → (x.id == s.id) ≡ false
other_id tokens x s h k = elim (Bool-cases (x.id == s.id)) [
  | inl t ↦ absurd (
      true-false
        (sym k ∙ subst (λ j. contains j (token_ids tokens) ≡ false) ((==_iff x.id s.id).0 t) h))
  | inr t ↦ t
]
