-- ===== src/Indicator/Causal.antt =====
-- The values of a moving average up to a day depend on the prices up to that day only
-- (backend/app/services/technical_indicators.py).

use tw_stock_android_spec.Base.{
  ℕ, ◌+◌, ◌-◌, ◌≤◌, ◌<◌, ◌≡◌, refl, sym, ap, subst, false, some, List, ltb, if_both, length, take,
  inl, inr, Bool-cases, ltb→lt, arith,
}
use tw_stock_android_spec.Base.Decimal.{Decimal}
use tw_stock_android_spec.Outcome.{
  Result, ok, ◌>>=◌, Follows, Follows-ok, Follows-bind, Follows-same, Follows-after,
}
use tw_stock_android_spec.Indicator.Front.{
  length-take_le, seeded, take-seeded_lt, take-blanks, seeded-Follows,
}
use tw_stock_android_spec.Indicator.Series.{
  mean, blanks, scan, scan-Follows, get_elem?-take, window-take, take-drop-take,
}
use tw_stock_android_spec.Indicator.Averages.{
  Line, sma_step, sma, alpha_of, ema_step, ema_seeded, ema,
}

module _ (values : List Decimal) (period k : ℕ) (le : k ≤ length values) where
  sma_step-take :
      (i : ℕ) (t : Unit {0})
      → i < k
      → sma_step values period i t ≡ sma_step (take k values) period i t
  unfolding sma_step
  sma_step-take i t h = elim (Bool-cases (ltb (i + 1) period)) [
    | inl few ↦ rw few refl
    | inr many ↦ rw many (
        ap (λ xs. mean xs >>= λ m. ok (tt, some m))
          (sym (window-take period i k values (ground arith) h)))
  ]

  pub sma-take : Follows (take k) (sma values period) (sma (take k values) period)
  unfolding sma
  sma-take =
      subst
        (λ n. Follows (take k) (sma values period) (scan (sma_step (take k values) period) tt 0 n))
        (sym (length-take_le k values le))
        (scan-Follows (sma_step values period) (sma_step (take k values) period) tt 0
          (length values) k (λ i t lo hi. sma_step-take i t (omega arith)) le)

  ema_step-take :
      (alpha : Decimal) (i : ℕ) (s : Decimal)
      → i < k
      → ema_step alpha values i s ≡ ema_step alpha (take k values) i s
  unfolding ema_step
  ema_step-take alpha i s h = rw (get_elem?-take k i values h) refl

  module _ (least : 0 < period) where
    ema_seeded-take_ge :
        period ≤ k → Follows (take k) (ema_seeded values period) (ema_seeded (take k values) period)
    unfolding ema_seeded
    ema_seeded-take_ge many =
        rw (take-drop-take period 0 k values (omega arith), length-take_le k values le)
          (Follows-bind (λ (a : Decimal). a) (take k) (mean (take period values)) _ _ _
            (Follows-same refl)
            (λ current.
              Follows-bind (λ (a : Decimal). a) (take k) (alpha_of period) _ _ _ (Follows-same refl)
                (λ alpha.
                  seeded-Follows (ema_step alpha values) (ema_step alpha (take k values)) current
                    (length values) k le period current least many
                    (λ i s lo hi. ema_step-take alpha i s hi))))

    ema_seeded-take_lt : k < period → Follows (take k) (ema_seeded values period) (ok (blanks k))
    unfolding ema_seeded
    ema_seeded-take_lt few = Follows-after (take k) (mean (take period values)) _ _ (λ current.
        Follows-after (take k) (alpha_of period) _ _ (λ alpha.
          Follows-after (take k)
            (scan (ema_step alpha values) current period (length values - period)) _ _
            (λ rest.
              Follows-ok (take k) (seeded period current rest) _
                (take-seeded_lt k period current rest least few))))

    pub ema-take : Follows (take k) (ema values period) (ema (take k values) period)
    unfolding ema
    ema-take = rw (length-take_le k values le) (elim (Bool-cases (ltb k period)) [
      | inl few ↦ rw few (
          if_both (λ (r : Result Line). Follows (take k) r (ok (blanks k)))
            (ltb (length values) period) _ _
            (Follows-ok (take k) (blanks (length values)) _ (take-blanks k (length values) le))
            (ema_seeded-take_lt (ltb→lt k period few)))
      | inr many ↦
          let enough : ltb (length values) period ≡ false = ground arith in
          rw (many, enough) (ema_seeded-take_ge (ground arith))
    ])
