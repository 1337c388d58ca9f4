-- ===== src/Portfolio/Closed.antt =====
-- Positions that are never short, and cost nothing once closed (backend/app/services/portfolio.py).
use tw_stock_android_spec.Base.{
  ◌≡◌, refl, sym, subst, true, false, Option, none, some, List, [], ◌∷◌, or_else, sort_by,
  insert_sorted, All, if_both, arith,
}
use tw_stock_android_spec.Base.Assoc.{find_key, put, nat_eq, All-put, All-find_key}
use tw_stock_android_spec.Base.Int.{
  ℤ, pos, ltb_ℤ, ◌≤ℤ◌, ◌<ℤ◌, ◌+ℤ◌, ◌-ℤ◌, +ℤ_parts, -ℤ_parts, int_laws, magnitude_zero,
}
use tw_stock_android_spec.Outcome.{ok, >>=-eq-ok, ok-injective}
use tw_stock_android_spec.Portfolio.Types.{Side, buy, sell, Security, Transaction, Position}
use tw_stock_android_spec.Portfolio.Replay.{
  apply, opening, Positions, position_of, is_before, replay_from, replay_states, zero_amount,
}
use tw_stock_android_spec.Portfolio.Quantity.{sell-ok, buy-ok}

-- The position has no shares that were not bought, and no cost where it has no shares.
abbrev pub IsSettled : Position → Type 0
IsSettled p =
    (pos 0 ≤ℤ p.quantity_shares)
    × (magnitude_zero p.quantity_shares ≡ true
        → (p.cost_basis ≡ zero_amount) × (p.average_cost ≡ none))

opening-IsSettled : (security : Security) → IsSettled (opening security)
opening-IsSettled security = (omega arith, λ z. (refl, refl))

position_of-IsSettled :
    (security : Security) (states : Positions)
    → All (λ s. IsSettled s.1) states
    → IsSettled (position_of security states)
position_of-IsSettled security states h = go (find_key security.id states) refl
  where
    go :
        (o : Option Position)
        → find_key security.id states ≡ o
        → IsSettled (or_else o (opening security))
    go none e = opening-IsSettled security
    go (some p) e = All-find_key IsSettled security.id p states h e

not_zero : (q z : ℤ) → pos 0 ≤ℤ q → pos 0 <ℤ z → magnitude_zero (q +ℤ z) ≡ true → ⊥
not_zero q z h k e = ground (arith, +ℤ_parts q z)

apply-IsSettled :
    (side : Side) (t : Transaction) (p next : Position)
    → pos 0 <ℤ t.quantity_shares
    → apply side t p ≡ ok next
    → IsSettled p
    → IsSettled next
unfolding apply
apply-IsSettled buy t p next k h q =
    let bought = buy-ok t p next h in
    (
      subst (λ z. pos 0 ≤ℤ z) (sym bought)
          (omega (int_laws, +ℤ_parts p.quantity_shares t.quantity_shares, q.0)),
      λ z. absurd (
          not_zero p.quantity_shares t.quantity_shares q.0 k
            (subst (λ y. magnitude_zero y ≡ true) bought z)),
    )
apply-IsSettled sell t p next k h q =
    let done = sell-ok t p next h in
    (
      subst (λ z. pos 0 ≤ℤ z) (sym done.1) (enough p.quantity_shares t.quantity_shares done.0),
      done.2,
    )
  where
    enough : (a b : ℤ) → ltb_ℤ a b ≡ false → pos 0 ≤ℤ (a -ℤ b)
    enough a b h = ground (arith, -ℤ_parts a b)

replay_from-IsSettled :
    (ts : List Transaction) (states final : Positions)
    → All (λ t. pos 0 <ℤ t.quantity_shares) ts
    → replay_from ts states ≡ ok final
    → All (λ s. IsSettled s.1) states
    → All (λ s. IsSettled s.1) final
unfolding replay_from
replay_from-IsSettled [] states final k h q = subst (All (λ s. IsSettled s.1)) (ok-injective h) q
replay_from-IsSettled (t ∷ ts) states final k h q =
    let first = >>=-eq-ok (apply t.side t (position_of t.security states)) _ h in
    replay_from-IsSettled ts (put t.security.id first.0 states) final k.1 first.2 (
      All-put IsSettled t.security.id first.0 states q (
        apply-IsSettled t.side t (position_of t.security states) first.0 k.0 first.1
          (position_of-IsSettled t.security states q)))

insert-All :
    (P : Transaction → Type 0) (t : Transaction) (ts : List Transaction)
    → P t
    → All P ts
    → All P (insert_sorted is_before t ts)
insert-All P t [] p h = (p, tt)
insert-All P t (u ∷ ts) p h =
    if_both (All P) (is_before u t) (u ∷ insert_sorted is_before t ts) (t ∷ u ∷ ts)
      (h.0, insert-All P t ts p h.1) (p, h)

sort-All :
    (P : Transaction → Type 0) (ts : List Transaction) → All P ts → All P (sort_by is_before ts)
sort-All P [] h = tt
sort-All P (t ∷ ts) h = insert-All P t (sort_by is_before ts) h.0 (sort-All P ts h.1)

-- Where every transaction is of one share or more, a replay that goes through leaves no position
-- short, and a position without shares has a cost basis of zero and no average cost.
pub replay_states-IsSettled :
    (ts : List Transaction) {final : Positions}
    → All (λ t. pos 0 <ℤ t.quantity_shares) ts
    → replay_states ts ≡ ok final
    → All (λ s. IsSettled s.1) final
unfolding replay_states
replay_states-IsSettled ts {final} k h =
    replay_from-IsSettled (sort_by is_before ts) [] final
      (sort-All (λ t. pos 0 <ℤ t.quantity_shares) ts k) h tt
