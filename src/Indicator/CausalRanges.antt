-- ===== src/Indicator/CausalRanges.antt =====
-- The values of `atr`, `obv` and `bollinger` up to a day depend on the prices up to that day only
-- (backend/app/services/technical_indicators.py).

use tw_stock_android_spec.Base.{
  ℕ, zero, suc, ◌-◌, ◌≤◌, ◌<◌, ◌≡◌, refl, ap, false, List, [], ◌∷◌, ltb, if_both, length, take, inl,
  inr, Bool-cases, ltb→lt, arith,
}
use tw_stock_android_spec.Base.Decimal.{Decimal, of_nat}
use tw_stock_android_spec.Candle.Aggregation.{Candle}
use tw_stock_android_spec.Outcome.{
  Result, ok, Follows, Follows-ok, Follows-bind, Follows-same, Follows-after,
}
use tw_stock_android_spec.Indicator.Series.{
  mean, blanks, scan, get_elem?-take, window-take, take-drop-take,
}
use tw_stock_android_spec.Indicator.Front.{
  length-take_le, seeded, take-seeded_lt, take-blanks, padded-Follows, seeded-Follows,
}
use tw_stock_android_spec.Indicator.Averages.{Line}
use tw_stock_android_spec.Indicator.Volatility.{
  ranges_from, true_ranges, atr_step, atr_seeded, atr, obv_next, obv_from, obv, Band, band_step,
  bands_of,
}

ranges_from-take :
    (k : ℕ) (previous : Candle) (candles : List Candle)
    → ranges_from previous (take k candles) ≡ take k (ranges_from previous candles)
unfolding ranges_from
ranges_from-take zero previous candles = refl
ranges_from-take (suc k) previous [] = refl
ranges_from-take (suc k) previous (c ∷ candles) = rw (ranges_from-take k c candles) refl

true_ranges-take :
    (k : ℕ) (candles : List Candle) → true_ranges (take k candles) ≡ take k (true_ranges candles)
unfolding true_ranges
true_ranges-take zero candles = refl
true_ranges-take (suc k) [] = refl
true_ranges-take (suc k) (c ∷ candles) = rw (ranges_from-take k c candles) refl

length-ranges_from :
    (previous : Candle) (candles : List Candle)
    → length (ranges_from previous candles) ≡ length candles
unfolding ranges_from
length-ranges_from previous [] = refl
length-ranges_from previous (c ∷ candles) = ap suc (length-ranges_from c candles)

length-true_ranges : (candles : List Candle) → length (true_ranges candles) ≡ length candles
unfolding true_ranges
length-true_ranges [] = refl
length-true_ranges (c ∷ candles) = ap suc (length-ranges_from c candles)

module _ (ranges : List Decimal) (period k : ℕ) (le : k ≤ length ranges) (least : 0 < period) where
  atr_step-take :
      (i : ℕ) (s : Decimal)
      → i < k
      → atr_step ranges period i s ≡ atr_step (take k ranges) period i s
  unfolding atr_step
  atr_step-take i s h = rw (get_elem?-take k i ranges h) refl

  atr_seeded-take_ge :
      period ≤ k → Follows (take k) (atr_seeded ranges period) (atr_seeded (take k ranges) period)
  unfolding atr_seeded
  atr_seeded-take_ge many =
      rw (take-drop-take period 0 k ranges (omega arith), length-take_le k ranges le)
        (Follows-bind (λ (a : Decimal). a) (take k) (mean (take period ranges)) _ _ _
          (Follows-same refl)
          (λ current.
            seeded-Follows (atr_step ranges period) (atr_step (take k ranges) period) current
              (length ranges) k le period current least many (λ i s lo hi. atr_step-take i s hi)))

  atr_seeded-take_lt : k < period → Follows (take k) (atr_seeded ranges period) (ok (blanks k))
  unfolding atr_seeded
  atr_seeded-take_lt few = Follows-after (take k) (mean (take period ranges)) _ _ (λ current.
      Follows-after (take k) (scan (atr_step ranges period) current period (length ranges - period))
        _ _
        (λ rest.
          Follows-ok (take k) (seeded period current rest) _
            (take-seeded_lt k period current rest least few)))

pub atr-take :
    (candles : List Candle) (period k : ℕ)
    → k ≤ length candles
    → 0 < period
    → Follows (take k) (atr candles period) (atr (take k candles) period)
unfolding atr
atr-take candles period k le least =
    let ranges = true_ranges candles in
    let same = length-true_ranges candles in
    let fits : k ≤ length ranges = omega arith in
    rw (true_ranges-take k candles, length-take_le k candles le, length-take_le k ranges fits)
      (elim (Bool-cases (ltb k period)) [
        | inl few ↦ rw few (
            if_both (λ (r : Result Line). Follows (take k) r (ok (blanks k)))
              (ltb (length ranges) period) _ _
              (Follows-ok (take k) (blanks (length candles)) _ (take-blanks k (length candles) le))
              (atr_seeded-take_lt ranges period k fits least (ltb→lt k period few)))
        | inr many ↦
            let enough : ltb (length ranges) period ≡ false = ground arith in
            rw (many, enough) (atr_seeded-take_ge ranges period k fits least (ground arith))
      ])

obv_from-take :
    (k : ℕ) (previous current : Decimal) (candles : List Candle)
    → obv_from previous current (take k candles) ≡ take k (obv_from previous current candles)
unfolding obv_from
obv_from-take zero previous current candles = refl
obv_from-take (suc k) previous current [] = refl
obv_from-take (suc k) previous current (c ∷ candles) =
    rw (obv_from-take k c.close (obv_next previous c c.volume_shares current).0 candles) refl

pub obv-take : (k : ℕ) (candles : List Candle) → obv (take k candles) ≡ take k (obv candles)
unfolding obv
obv-take zero candles = refl
obv-take (suc k) [] = refl
obv-take (suc k) (c ∷ candles) = rw (obv_from-take k c.close (of_nat 0) candles) refl

module _ (band : List Decimal → Decimal → Decimal → Band) (values : List Decimal) (middle : Line)
    (period k : ℕ) (multiplier : Decimal) (le : k ≤ length values) where
  band_step-take :
      (i : ℕ) (s : Unit {0})
      → period - 1 ≤ i
      → i < k
      → band_step band values middle period multiplier i s
        ≡ band_step band (take k values) (take k middle) period multiplier i s
  unfolding band_step
  band_step-take i s lo h =
      rw (window-take period i k values (omega arith) h, get_elem?-take k i middle h) refl

  pub bands_of-take :
      Follows
        (take k)
        (bands_of band values middle period multiplier)
        (bands_of band (take k values) (take k middle) period multiplier)
  unfolding bands_of
  bands_of-take = rw (length-take_le k values le) (
      padded-Follows (band_step band values middle period multiplier)
        (band_step band (take k values) (take k middle) period multiplier) tt (length values) k le
        (period - 1) band_step-take)
