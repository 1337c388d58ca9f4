-- ===== src/Portfolio/Quantity.antt =====
-- The quantities that a replay comes to (backend/app/services/portfolio.py).
use tw_stock_android_spec.Base.{
  ℕ, ◌+◌, ◌≡◌, refl, sym, ap, ◌∙◌, subst, true, false, Option, none, some, List, [], ◌∷◌, ◌==◌,
  if◌then◌else◌, or_else, inl, inr, Bool-cases, ==_iff, sort_by, insert_sorted, arith,
}
use tw_stock_android_spec.Base.Assoc.{find_key, put, nat_eq, find_key-put_self, find_key-put_ne}
use tw_stock_android_spec.Base.Int.{
  ℤ, pos, pos_part, neg_part, ltb_ℤ, ◌+ℤ◌, ◌-ℤ◌, +ℤ_parts, -ℤ_parts, int_laws, magnitude_zero,
}
use tw_stock_android_spec.Outcome.{ok, >>=-eq-ok, ok-injective, raise_if, raise_if-false}
use tw_stock_android_spec.Portfolio.Types.{Side, buy, sell, Security, Transaction, Position}
use tw_stock_android_spec.Portfolio.Replay.{
  apply_buy, apply_sell, apply, opening, Positions, position_of, is_before, replay_from,
  replay_states, zero_amount, insufficient, divide, average_of,
}
use tw_stock_android_spec.Base.Decimal.{of_int, ◌-ᴰ◌, ◌*ᴰ◌}

-- What a buy adds to the quantity, and a sell takes.
unfoldable pub change_of : Side → ℤ → ℤ → ℤ
change_of buy quantity shares = quantity +ℤ shares
change_of sell quantity shares = quantity -ℤ shares

-- A sell that goes through had the shares, and one that closes the position leaves no cost.
pub sell-ok :
    (t : Transaction) (p next : Position)
    → apply_sell t p ≡ ok next
    → (ltb_ℤ p.quantity_shares t.quantity_shares ≡ false)
      × (next.quantity_shares ≡ p.quantity_shares -ℤ t.quantity_shares)
      × (magnitude_zero next.quantity_shares ≡ true
          → (next.cost_basis ≡ zero_amount) × (next.average_cost ≡ none))
unfolding apply_sell average_of
sell-ok t p next h =
    let enough =
      >>=-eq-ok (raise_if (ltb_ℤ p.quantity_shares t.quantity_shares) insufficient) _ h in
    let average = >>=-eq-ok (divide p.cost_basis (of_int p.quantity_shares)) _ enough.2 in
    let quantity = p.quantity_shares -ℤ t.quantity_shares in
    let kept = p.cost_basis -ᴰ average.0 *ᴰ of_int t.quantity_shares in
    let left =
      >>=-eq-ok (average_of quantity (if magnitude_zero quantity then zero_amount else kept)) _
        average.2 in
    let made = ok-injective left.2 in
    (
      raise_if-false _ _ enough.1,
      sym (ap (λ q. q.quantity_shares) made),
      λ z.
          subst
            (λ q.
              magnitude_zero q.quantity_shares ≡ true
              → (q.cost_basis ≡ zero_amount) × (q.average_cost ≡ none))
            made (λ y. (rw y refl, sym (ok-injective (rw y at left.1)))) z,
    )

pub buy-ok :
    (t : Transaction) (p next : Position)
    → apply_buy t p ≡ ok next
    → next.quantity_shares ≡ p.quantity_shares +ℤ t.quantity_shares
unfolding apply_buy
buy-ok t p next h =
    let average = >>=-eq-ok (divide _ (of_int (p.quantity_shares +ℤ t.quantity_shares))) _ h in
    sym (ap (λ q. q.quantity_shares) (ok-injective average.2))

apply-quantity :
    (side : Side) (t : Transaction) (p next : Position)
    → apply side t p ≡ ok next
    → next.quantity_shares ≡ change_of side p.quantity_shares t.quantity_shares
unfolding apply change_of
apply-quantity buy t p next h = buy-ok t p next h
apply-quantity sell t p next h = (sell-ok t p next h).1

-- The shares that the transactions of a security bring in and take out.
abbrev pub inflow : Side → ℤ → ℕ
inflow buy z = pos_part z
inflow sell z = neg_part z

abbrev pub outflow : Side → ℤ → ℕ
outflow buy z = neg_part z
outflow sell z = pos_part z

unfoldable pub bought : ℕ → List Transaction → ℕ
bought s [] = 0
bought s (t ∷ ts) =
    (if t.security.id == s then inflow t.side t.quantity_shares else 0) + bought s ts

unfoldable pub sold : ℕ → List Transaction → ℕ
sold s [] = 0
sold s (t ∷ ts) = (if t.security.id == s then outflow t.side t.quantity_shares else 0) + sold s ts

change_of_parts :
    (side : Side) (q z : ℤ)
    → pos_part (change_of side q z) + neg_part q + outflow side z
      ≡ neg_part (change_of side q z) + pos_part q + inflow side z
unfolding change_of
change_of_parts buy q z = omega (int_laws, +ℤ_parts q z)
change_of_parts sell q z = omega (int_laws, -ℤ_parts q z)

-- The shares of a security in a table of positions.
abbrev pub shares_of : Option Position → ℤ
shares_of none = pos 0
shares_of (some p) = p.quantity_shares

abbrev pub shares : ℕ → Positions → ℤ
shares s states = shares_of (find_key s states)

shares-position_of :
    (security : Security) (states : Positions)
    → (position_of security states).quantity_shares ≡ shares security.id states
shares-position_of security states = go (find_key security.id states)
  where
    go : (o : Option Position) → (or_else o (opening security)).quantity_shares ≡ shares_of o
    go none = refl
    go (some p) = refl

shares-put :
    (s k : ℕ) (p : Position) (states : Positions)
    → shares s (put k p states) ≡ (if k == s then p.quantity_shares else shares s states)
shares-put s k p states = elim (Bool-cases (k == s)) [
  | inl t ↦ rw t (
      ap (λ j. shares j (put k p states)) (sym ((==_iff k s).0 t))
      ∙ ap shares_of (find_key-put_self k p states))
  | inr t ↦ rw t (ap shares_of (find_key-put_ne k s p states (λ e. ground arith)))
]

-- The shares of a security at the end of a replay from the given shares.
abbrev pub Settled : ℕ → List Transaction → Positions → ℤ → Type 0
Settled s ts final z =
    pos_part (shares s final) + neg_part z + sold s ts
    ≡ neg_part (shares s final) + pos_part z + bought s ts

replay_from-shares :
    (s : ℕ) (ts : List Transaction) (states final : Positions)
    → replay_from ts states ≡ ok final
    → pos_part (shares s final) + neg_part (shares s states) + sold s ts
      ≡ neg_part (shares s final) + pos_part (shares s states) + bought s ts
unfolding replay_from bought sold
replay_from-shares s [] states final h = rw (sym (ok-injective h)) (omega arith)
replay_from-shares s (t ∷ ts) states final h =
    let first = >>=-eq-ok (apply t.side t (position_of t.security states)) _ h in
    let next = put t.security.id first.0 states in
    let rest = replay_from-shares s ts next final first.2 in
    let moved =
      apply-quantity t.side t (position_of t.security states) first.0 first.1
      ∙ ap (λ q. change_of t.side q t.quantity_shares) (shares-position_of t.security states) in
    let put_in = shares-put s t.security.id first.0 states in
    elim (Bool-cases (t.security.id == s)) [
      | inl u ↦
          let here =
            subst
              (λ k. first.0.quantity_shares ≡ change_of t.side (shares k states) t.quantity_shares)
              ((==_iff t.security.id s).0 u) moved in
          let rest' = subst (Settled s ts final) (rw u at put_in ∙ here) rest in
          rw u (omega (arith, rest', change_of_parts t.side (shares s states) t.quantity_shares))
      | inr u ↦ rw u (omega (arith, subst (Settled s ts final) (rw u at put_in) rest))
    ]

bought-insert :
    (s : ℕ) (t : Transaction) (ts : List Transaction)
    → bought s (insert_sorted is_before t ts) ≡ bought s (t ∷ ts)
unfolding bought
bought-insert s t [] = refl
bought-insert s t (u ∷ ts) = ground (arith, bought-insert s t ts)

sold-insert :
    (s : ℕ) (t : Transaction) (ts : List Transaction)
    → sold s (insert_sorted is_before t ts) ≡ sold s (t ∷ ts)
unfolding sold
sold-insert s t [] = refl
sold-insert s t (u ∷ ts) = ground (arith, sold-insert s t ts)

bought-sort : (s : ℕ) (ts : List Transaction) → bought s (sort_by is_before ts) ≡ bought s ts
unfolding bought
bought-sort s [] = refl
bought-sort s (t ∷ ts) = omega (arith, bought-insert s t (sort_by is_before ts), bought-sort s ts)

sold-sort : (s : ℕ) (ts : List Transaction) → sold s (sort_by is_before ts) ≡ sold s ts
unfolding sold
sold-sort s [] = refl
sold-sort s (t ∷ ts) = omega (arith, sold-insert s t (sort_by is_before ts), sold-sort s ts)

-- A replay that goes through holds of every security what was bought of it less what was sold, in
-- whatever order the transactions are listed.
pub replay_states-shares :
    (s : ℕ) (ts : List Transaction) {final : Positions}
    → replay_states ts ≡ ok final
    → pos_part (shares s final) + sold s ts ≡ neg_part (shares s final) + bought s ts
unfolding replay_states
replay_states-shares s ts {final} h = omega (
  arith,
  replay_from-shares s (sort_by is_before ts) [] final h,
  bought-sort s ts,
  sold-sort s ts,
)
