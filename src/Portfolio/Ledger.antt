-- ===== src/Portfolio/Ledger.antt =====
-- The ledger of a portfolio stays one that replays (backend/app/services/portfolio.py).
use tw_stock_android_spec.Base.{
  ℕ, ◌<◌, ◌≡◌, refl, sym, ap, ◌∙◌, subst, Bool, not, List, [], ◌∷◌, ◌++◌, ◌==◌, inl, inr,
  Bool-cases, sort_by, insert_sorted, All, length, length-filter-le, arith,
}
use tw_stock_android_spec.Base.Assoc.{put, nat_eq}
use tw_stock_android_spec.Outcome.{
  Result, ok, err, >>=-eq-ok, ok-injective, ◌>>=◌, raise_if, raise_if-false, app_error,
}
use tw_stock_android_spec.Portfolio.Types.{Side, buy, sell, Security, Transaction, Position}
use tw_stock_android_spec.Portfolio.Replay.{
  apply_buy, apply_sell, apply, Positions, position_of, is_before, replay_from, replay_states,
}
use tw_stock_android_spec.Portfolio.Service.{
  Request, require_portfolio, only_match, is_invalid, transaction_of, create_transaction, without,
  delete_transaction,
}

-- A ledger that the accounting accepts.
abbrev pub IsReplayable : List Transaction → Type 0
IsReplayable ts = (states : Positions) × (replay_states ts ≡ ok states)

>>=-ext :
    {A : Type 0} {B : Type 0} (m : Result A) {f g : A → Result B}
    → ((a : A) → f a ≡ g a)
    → (m >>= f) ≡ (m >>= g)
>>=-ext (ok a) h = h a
>>=-ext (err e) h = refl

All-map :
    {P Q : Transaction → Type 0}
    → ((t : Transaction) → P t → Q t)
    → (ts : List Transaction) → All P ts
    → All Q ts
All-map f [] h = tt
All-map f (t ∷ ts) h = (f t h.0, All-map f ts h.1)

module _ (portfolio : ℕ) (security : Security) (r : Request) (c i d j : ℕ) where
  -- The request under two stamps.
  abbrev first : Transaction
  first = transaction_of portfolio security r c i

  abbrev second : Transaction
  second = transaction_of portfolio security r d j

  -- Two lists that differ in the stamp of one transaction.
  data Swapped : List Transaction → List Transaction → Type 0 where
    here : (ts : List Transaction) → Swapped (first ∷ ts) (second ∷ ts)
    there : (t : Transaction) (xs ys : List Transaction) → Swapped xs ys → Swapped (t ∷ xs) (t ∷ ys)

  apply-stamp : (side : Side) (p : Position) → apply side first p ≡ apply side second p
  unfolding apply apply_buy apply_sell transaction_of
  apply-stamp buy p = refl
  apply-stamp sell p = refl

  replay_from-Swapped :
      (xs ys : List Transaction) (states : Positions)
      → Swapped xs ys
      → replay_from xs states ≡ replay_from ys states
  unfolding replay_from transaction_of
  replay_from-Swapped _ _ states (here ts) =
      ap (λ m. m >>= (λ next. replay_from ts (put security.id next states)))
        (apply-stamp r.side (position_of security states))
  replay_from-Swapped _ _ states (there t xs ys s) =
      >>=-ext (apply t.side t (position_of t.security states))
        (λ next. replay_from-Swapped xs ys (put t.security.id next states) s)

  insert-Swapped :
      (t : Transaction) (xs ys : List Transaction)
      → is_before first t ≡ is_before second t
      → Swapped xs ys
      → Swapped (insert_sorted is_before t xs) (insert_sorted is_before t ys)
  insert-Swapped t _ _ e (here ts) = elim (Bool-cases (is_before second t)) [
    | inl u ↦ rw (e ∙ u, u) (here (insert_sorted is_before t ts))
    | inr u ↦ rw (e ∙ u, u) (there t _ _ (here ts))
  ]
  insert-Swapped t _ _ e (there u xs ys s) = elim (Bool-cases (is_before u t)) [
    | inl x ↦ rw x (there u _ _ (insert-Swapped t xs ys e s))
    | inr x ↦ rw x (there t _ _ (there u xs ys s))
  ]

  sort-Swapped :
      (ts : List Transaction)
      → All (λ t. is_before first t ≡ is_before second t) ts
      → Swapped (sort_by is_before (ts ++ first ∷ [])) (sort_by is_before (ts ++ second ∷ []))
  sort-Swapped [] h = here []
  sort-Swapped (t ∷ ts) h = insert-Swapped t _ _ h.0 (sort-Swapped ts h.1)

  later-before :
      (t : Transaction)
      → (t.created_at < c) × (t.created_at < d)
      → is_before first t ≡ is_before second t
  unfolding is_before transaction_of
  later-before t h = ground arith

  replay_states-stamp :
      (ts : List Transaction)
      → All (λ t. (t.created_at < c) × (t.created_at < d)) ts
      → replay_states (ts ++ first ∷ []) ≡ replay_states (ts ++ second ∷ [])
  unfolding replay_states
  replay_states-stamp ts h =
      replay_from-Swapped _ _ [] (sort-Swapped ts (All-map later-before ts h))

-- A request that is accepted is stored as the last transaction, and the ledger with it replays, though
-- it was tried under another stamp: where nothing in the ledger was recorded at the time of the
-- request or later.
pub create_transaction-IsReplayable :
    (portfolio : ℕ) (exists : Bool) (matches : List Security) (r : Request)
    (latest max_id now id : ℕ) (ts : List Transaction) {out : Transaction × List Transaction}
    → create_transaction portfolio exists matches r latest max_id now id ts ≡ ok out
    → All (λ t. (t.created_at < latest) × (t.created_at < now)) ts
    → IsReplayable out.1 × (out.1 ≡ ts ++ out.0 ∷ [])
unfolding create_transaction
create_transaction-IsReplayable portfolio exists matches r latest max_id now id ts {out} h k =
    let a = >>=-eq-ok (require_portfolio exists) _ h in
    let b = >>=-eq-ok (only_match matches) _ a.2 in
    let v =
      >>=-eq-ok (raise_if (is_invalid r) (app_error "PORTFOLIO_INVALID_TRANSACTION" 422)) _ b.2 in
    let tried = transaction_of portfolio b.0 r latest max_id in
    let stored = transaction_of portfolio b.0 r now id in
    let replayed = >>=-eq-ok (replay_states (ts ++ tried ∷ [])) _ v.2 in
    let made = ok-injective replayed.2 in
    subst (λ o. IsReplayable o.1 × (o.1 ≡ ts ++ o.0 ∷ [])) made
      (
        (
          replayed.0,
          sym (replay_states-stamp portfolio b.0 r latest max_id now id ts k) ∙ replayed.1,
        ),
        refl,
      )

-- A deletion that is accepted takes out the transactions of the id, one at least, and leaves a ledger
-- that replays.
delete_transaction-IsReplayable :
    (exists : Bool) (id : ℕ) (ts : List Transaction) {rest : List Transaction}
    → delete_transaction exists id ts ≡ ok rest
    → IsReplayable rest × (rest ≡ without id ts) × (length rest < length ts)
unfolding delete_transaction
delete_transaction-IsReplayable exists id ts {rest} h =
    let a = >>=-eq-ok (require_portfolio exists) _ h in
    let b =
      >>=-eq-ok
        (raise_if (length (without id ts) == length ts)
          (app_error "PORTFOLIO_TRANSACTION_NOT_FOUND" 404))
        _ a.2 in
    let replayed = >>=-eq-ok (replay_states (without id ts)) _ b.2 in
    let changed = raise_if-false _ _ b.1 in
    subst (λ o. IsReplayable o × (o ≡ without id ts) × (length o < length ts))
      (ok-injective replayed.2)
      ((replayed.0, replayed.1), refl, ground (arith, length-filter-le (λ t. not (t.id == id)) ts))
