-- ===== src/Candle/Bounds.antt =====
-- The prices of an aggregated candle (backend/app/services/candle_aggregation.py).
use tw_stock_android_spec.Base.{ℕ, ◌≡◌, refl, Option, none, some, List, [], ◌∷◌, All, All-append}
use tw_stock_android_spec.Base.Assoc.{Pair, pair_eq, find_key, All-put, All-find_key}
use tw_stock_android_spec.Base.Decimal.{
  Decimal, ◌≤ᴰ◌, ≤ᴰ_refl, ≤ᴰ_trans, max_ᴰ, min_ᴰ, max_ᴰ_bounds, min_ᴰ_bounds,
}
use tw_stock_android_spec.Candle.Aggregation.{
  PriceBasis, CandleInterval, day, week, month, DailyPrice, Candle, daily, Group, with_candle,
  last_of, high_from, low_from, merge, merge_all, group_from, merged, aggregate, key_of,
}

-- The open and the close lie between the low and the high.
abbrev pub IsOrdered : Candle → Type 0
IsOrdered c =
    (c.low ≤ᴰ c.opening) × (c.opening ≤ᴰ c.high) × (c.low ≤ᴰ c.close) × (c.close ≤ᴰ c.high)

high_from-ge : (high : Decimal) (cs : List Candle) → high ≤ᴰ high_from high cs
unfolding high_from
high_from-ge high [] = ≤ᴰ_refl high
high_from-ge high (c ∷ cs) =
    ≤ᴰ_trans high (max_ᴰ high c.high) (high_from (max_ᴰ high c.high) cs)
      (max_ᴰ_bounds high c.high).0 (high_from-ge (max_ᴰ high c.high) cs)

low_from-le : (low : Decimal) (cs : List Candle) → low_from low cs ≤ᴰ low
unfolding low_from
low_from-le low [] = ≤ᴰ_refl low
low_from-le low (c ∷ cs) =
    ≤ᴰ_trans (low_from (min_ᴰ low c.low) cs) (min_ᴰ low c.low) low
      (low_from-le (min_ᴰ low c.low) cs) (min_ᴰ_bounds low c.low).0

-- The prices of a candle lie within two bounds.
abbrev pub Within : Decimal → Decimal → Candle → Type 0
Within low high c = (low ≤ᴰ c.low) × (c.high ≤ᴰ high)

rest-Within :
    (low high : Decimal) (cs : List Candle) → All (Within (low_from low cs) (high_from high cs)) cs
unfolding low_from high_from
rest-Within low high [] = tt
rest-Within low high (c ∷ cs) = (
  (
    ≤ᴰ_trans (low_from (min_ᴰ low c.low) cs) (min_ᴰ low c.low) c.low
        (low_from-le (min_ᴰ low c.low) cs) (min_ᴰ_bounds low c.low).1,
    ≤ᴰ_trans c.high (max_ᴰ high c.high) (high_from (max_ᴰ high c.high) cs)
        (max_ᴰ_bounds high c.high).1 (high_from-ge (max_ᴰ high c.high) cs),
  ),
  rest-Within (min_ᴰ low c.low) (max_ᴰ high c.high) cs,
)

-- A merged candle reaches from the lowest low to the highest high of the candles it merges.
merge-Within :
    (first : Candle) (rest : List Candle)
    → All (Within (merge (first, rest)).low (merge (first, rest)).high) (first ∷ rest)
unfolding merge
merge-Within first rest = (
  (low_from-le first.low rest, high_from-ge first.high rest),
  rest-Within first.low first.high rest,
)

All-last_of :
    (P : Candle → Type 0) (c : Candle) (cs : List Candle) → All P (c ∷ cs) → P (last_of c cs)
All-last_of P c [] h = h.0
All-last_of P c (d ∷ ds) h = All-last_of P d ds h.1

merge-IsOrdered : (g : Group) → All IsOrdered (g.0 ∷ g.1) → IsOrdered (merge g)
unfolding merge
merge-IsOrdered (first, rest) h =
    let m = merge (first, rest) in
    let w = merge-Within first rest in
    let last = last_of first rest in
    let wl = All-last_of (Within m.low m.high) first rest w in
    let ol = All-last_of IsOrdered first rest h in
    (
      ≤ᴰ_trans m.low first.low first.opening w.0.0 h.0.0,
      ≤ᴰ_trans first.opening first.high m.high h.0.1 w.0.1,
      ≤ᴰ_trans m.low last.low last.close wl.0 ol.2,
      ≤ᴰ_trans last.close last.high m.high ol.3 wl.1,
    )

-- Every candle of a group has the property.
abbrev pub AllIn : (Candle → Type 0) → Group → Type 0
AllIn P g = All P (g.0 ∷ g.1)

with_candle-AllIn :
    (P : Candle → Type 0) (o : Option Group) (c : Candle)
    → ((g : Group) → o ≡ some g → AllIn P g)
    → P c
    → AllIn P (with_candle o c)
with_candle-AllIn P none c h p = (p, tt)
with_candle-AllIn P (some g) c h p = ((h g refl).0, All-append P g.1 (c ∷ []) (h g refl).1 (p, tt))

merge_all-IsOrdered :
    (groups : List (Pair × Group))
    → All (λ g. AllIn IsOrdered g.1) groups
    → All IsOrdered (merge_all groups)
merge_all-IsOrdered [] h = tt
merge_all-IsOrdered ((k, g) ∷ groups) h = (merge-IsOrdered g h.0, merge_all-IsOrdered groups h.1)

module _ (iso_week year_month : ℕ → Pair) where
  group_from-AllIn :
      (P : Candle → Type 0) (interval : CandleInterval) (cs : List Candle)
      (groups : List (Pair × Group))
      → All P cs
      → All (λ g. AllIn P g.1) groups
      → All (λ g. AllIn P g.1) (group_from iso_week year_month interval cs groups)
  unfolding group_from
  group_from-AllIn P interval [] groups h q = q
  group_from-AllIn P interval (c ∷ cs) groups h q =
      let key = key_of iso_week year_month interval c in
      group_from-AllIn P interval cs _ h.1 (
        All-put (AllIn P) key (with_candle (find_key key groups) c) groups q (
          with_candle-AllIn P (find_key key groups) c
            (λ g e. All-find_key (AllIn P) key g groups q e) h.0))

  -- Where the open and the close of every daily candle lie between its low and its high, those of
  -- every candle of a week or a month do.
  pub aggregate-IsOrdered :
      (records : List DailyPrice) (interval : CandleInterval) (basis : PriceBasis)
      → All IsOrdered (daily basis records)
      → All IsOrdered (aggregate iso_week year_month records interval basis)
  unfolding aggregate merged
  aggregate-IsOrdered records day basis h = h
  aggregate-IsOrdered records week basis h =
      merge_all-IsOrdered _ (group_from-AllIn IsOrdered week (daily basis records) [] h tt)
  aggregate-IsOrdered records month basis h =
      merge_all-IsOrdered _ (group_from-AllIn IsOrdered month (daily basis records) [] h tt)
