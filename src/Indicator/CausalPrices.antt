-- ===== src/Indicator/CausalPrices.antt =====
-- The values of the oscillators up to a day depend on the prices up to that day only
-- (backend/app/services/technical_indicators.py).

use tw_stock_android_spec.Base.{
  ℕ, zero, suc, ◌-◌, ◌≤◌, ◌<◌, ◌≡◌, refl, sym, ap, ◌∙◌, true, false, List, [], ◌∷◌, ◌++◌, ltb, leb,
  if_both, length, take, take-nil, inl, inr, Bool-cases, leb→le, arith,
}
use tw_stock_android_spec.Base.Decimal.{Decimal, of_nat, ◌-ᴰ◌}
use tw_stock_android_spec.Candle.Aggregation.{Candle}
use tw_stock_android_spec.Outcome.{
  Result, ok, Follows, Follows-ok, Follows-bind, Follows-same, Follows-after,
}
use tw_stock_android_spec.Indicator.Series.{
  mean, blanks, scan, scan-Follows, get_elem?-take, window-take, take-drop-take, take-blanks_le,
  take-blanks_ge,
}
use tw_stock_android_spec.Indicator.Front.{length-take_le, take-blanks, padded-Follows}
use tw_stock_android_spec.Indicator.Averages.{Line}
use tw_stock_android_spec.Indicator.Oscillators.{
  changes_from, changes_of, gain_of, loss_of, map_decimals, next_averages, rsi_step, rsi_seeded,
  rsi, Kd, kd_step, stochastic, williams_step, williams_r,
}

changes_from-take :
    (k : ℕ) (previous : Decimal) (xs : List Decimal)
    → changes_from previous (take k xs) ≡ take k (changes_from previous xs)
unfolding changes_from
changes_from-take zero previous xs = refl
changes_from-take (suc k) previous [] = refl
changes_from-take (suc k) previous (x ∷ xs) = ap (◌∷◌ (x -ᴰ previous)) (changes_from-take k x xs)

changes_of-take :
    (k : ℕ) (xs : List Decimal) → 0 < k → changes_of (take k xs) ≡ take (k - 1) (changes_of xs)
unfolding changes_of
changes_of-take zero xs h = absurd (omega arith)
changes_of-take (suc k) [] h = sym (take-nil (suc k - 1))
changes_of-take (suc k) (x ∷ xs) h =
    changes_from-take k x xs ∙ ap (λ n. take n (changes_from x xs)) (omega arith)

module _ (changes : List Decimal) (period k : ℕ) (some_days : 0 < k) where
  rsi_step-take :
      (i : ℕ) (s : Decimal × Decimal)
      → i < k
      → rsi_step changes period i s ≡ rsi_step (take (k - 1) changes) period i s
  unfolding rsi_step next_averages
  rsi_step-take i s h = elim (Bool-cases (ltb period i)) [
    | inl later ↦ rw (later, get_elem?-take (k - 1) (i - 1) changes (ground arith)) refl
    | inr first ↦ rw first refl
  ]

  rsi_seeded-take_ge :
      (n : ℕ)
      → k ≤ n
      → period < k
      → Follows (take k) (rsi_seeded changes period n) (rsi_seeded (take (k - 1) changes) period k)
  unfolding rsi_seeded
  rsi_seeded-take_ge n le many = rw (take-drop-take period 0 (k - 1) changes (omega arith)) (
      Follows-bind (λ (a : Decimal). a) (take k) (mean (map_decimals gain_of (take period changes)))
        _ _ _ (Follows-same refl)
        (λ gain.
          Follows-bind (λ (a : Decimal). a) (take k)
            (mean (map_decimals loss_of (take period changes))) _ _ _ (Follows-same refl)
            (λ loss.
              Follows-bind (take (k - period)) (take k) _ _ _ _
                (scan-Follows (rsi_step changes period) (rsi_step (take (k - 1) changes) period)
                  (gain, loss) period (n - period) (k - period)
                  (λ i s lo hi. rsi_step-take i s (omega arith)) (omega arith))
                (λ rest.
                  Follows-ok (take k) (blanks period ++ rest) _
                    (take-blanks_ge k period rest (omega arith))))))

  rsi_seeded-take_lt :
      (n : ℕ) → k ≤ period → Follows (take k) (rsi_seeded changes period n) (ok (blanks k))
  unfolding rsi_seeded
  rsi_seeded-take_lt n few =
      Follows-after (take k) (mean (map_decimals gain_of (take period changes))) _ _ (λ gain.
        Follows-after (take k) (mean (map_decimals loss_of (take period changes))) _ _ (λ loss.
          Follows-after (take k) (scan (rsi_step changes period) (gain, loss) period (n - period)) _
            _
            (λ rest.
              Follows-ok (take k) (blanks period ++ rest) _ (take-blanks_le k period rest few))))

rsi-nil : (period : ℕ) → rsi [] period ≡ ok []
unfolding rsi blanks
rsi-nil period = let none_left : leb 0 period ≡ true = ground arith in rw none_left refl

rsi-take_pos :
    (values : List Decimal) (period k : ℕ)
    → k ≤ length values
    → 0 < k
    → Follows (take k) (rsi values period) (rsi (take k values) period)
unfolding rsi
rsi-take_pos values period k le some_days =
    rw (length-take_le k values le, changes_of-take k values some_days)
      (elim (Bool-cases (leb k period)) [
        | inl few ↦ rw few (
            if_both (λ (r : Result Line). Follows (take k) r (ok (blanks k)))
              (leb (length values) period) _ _
              (Follows-ok (take k) (blanks (length values)) _ (take-blanks k (length values) le))
              (rsi_seeded-take_lt (changes_of values) period k some_days (length values)
                (leb→le k period few)))
        | inr many ↦
            let enough : leb (length values) period ≡ false = ground arith in
            rw (many, enough)
              (rsi_seeded-take_ge (changes_of values) period k some_days (length values) le
                (ground arith))
      ])

pub rsi-take :
    (values : List Decimal) (period k : ℕ)
    → k ≤ length values
    → Follows (take k) (rsi values period) (rsi (take k values) period)
rsi-take values period zero le out h = rsi-nil period
rsi-take values period (suc k) le out h = rsi-take_pos values period (suc k) le (omega arith) out h

module _ (candles : List Candle) (period k : ℕ) (le : k ≤ length candles) where
  kd_step-take :
      (k_smoothing d_smoothing i : ℕ) (s : Kd)
      → period - 1 ≤ i
      → i < k
      → kd_step candles period k_smoothing d_smoothing i s
        ≡ kd_step (take k candles) period k_smoothing d_smoothing i s
  unfolding kd_step
  kd_step-take k_smoothing d_smoothing i s lo h =
      rw (window-take period i k candles (omega arith) h, get_elem?-take k i candles h) refl

  pub stochastic-take :
      (k_smoothing d_smoothing : ℕ)
      → Follows
          (take k)
          (stochastic candles period k_smoothing d_smoothing)
          (stochastic (take k candles) period k_smoothing d_smoothing)
  unfolding stochastic
  stochastic-take k_smoothing d_smoothing = rw (length-take_le k candles le) (
      padded-Follows (kd_step candles period k_smoothing d_smoothing)
        (kd_step (take k candles) period k_smoothing d_smoothing) (of_nat 50, of_nat 50)
        (length candles) k le (period - 1)
        (λ i s lo hi. kd_step-take k_smoothing d_smoothing i s lo hi))

  williams_step-take :
      (i : ℕ) (s : Unit {0})
      → period - 1 ≤ i
      → i < k
      → williams_step candles period i s ≡ williams_step (take k candles) period i s
  unfolding williams_step
  williams_step-take i s lo h =
      rw (window-take period i k candles (omega arith) h, get_elem?-take k i candles h) refl

  pub williams_r-take :
      Follows (take k) (williams_r candles period) (williams_r (take k candles) period)
  unfolding williams_r
  williams_r-take = rw (length-take_le k candles le) (
      padded-Follows (williams_step candles period) (williams_step (take k candles) period) tt
        (length candles) k le (period - 1) williams_step-take)
