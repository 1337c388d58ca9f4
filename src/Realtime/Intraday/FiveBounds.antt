-- ===== src/Realtime/Intraday/FiveBounds.antt =====
-- That `accept` returns, and the prices of five-minute candles
-- (backend/app/services/intraday_candle_aggregator.py).
use tw_stock_android_spec.Base.{
  ℕ, ◌+◌, ◌*◌, ◌≤◌, ◌<◌, ◌≡◌, refl, sym, subst, not, Option, none, some, List, [], ◌∷◌, ◌==◌,
  if_both, length, All, arith,
}
use tw_stock_android_spec.Base.Assoc.{nat_eq, find_key, All-find_key}
use tw_stock_android_spec.Base.Decimal.{
  Decimal, ◌≤ᴰ◌, ≤ᴰ_refl, ≤ᴰ_trans, max_ᴰ, min_ᴰ, max_ᴰ_bounds, min_ᴰ_bounds,
}
use tw_stock_android_spec.Outcome.{Result, ok}
use tw_stock_android_spec.Realtime.Quote.{one_minute, five_minutes, minutes}
use tw_stock_android_spec.Realtime.Intraday.{
  Quote, IntradayCandle, Cache, retention, bucket_start_of, save_candle, finalize, accept,
}
use tw_stock_android_spec.Realtime.Intraday.Prices.{
  IsOrdered, OrderedCurrent, IsOrderedCache, save_candle-IsOrdered, accept-IsOrderedCache,
}
use tw_stock_android_spec.Realtime.Intraday.Five.{
  own_rows, get_candles, last_candle, highest, lowest, five_minutes_of, Caches, close_other,
  derived, derive_five_minute, after_minute, accept_quote,
}
use tw_stock_android_spec.Realtime.Intraday.FiveFound.{
  IsAlone, get_candles-own, IsSaved, accept-IsSaved, IsOfMinute, accept-start,
}

highest-ge : (high : Decimal) (cs : List IntradayCandle) → high ≤ᴰ highest high cs
unfolding highest
highest-ge high [] = ≤ᴰ_refl high
highest-ge high (c ∷ cs) =
    ≤ᴰ_trans high (max_ᴰ high c.high) (highest (max_ᴰ high c.high) cs) (max_ᴰ_bounds high c.high).0
      (highest-ge (max_ᴰ high c.high) cs)

lowest-le : (low : Decimal) (cs : List IntradayCandle) → lowest low cs ≤ᴰ low
unfolding lowest
lowest-le low [] = ≤ᴰ_refl low
lowest-le low (c ∷ cs) =
    ≤ᴰ_trans (lowest (min_ᴰ low c.low) cs) (min_ᴰ low c.low) low (lowest-le (min_ᴰ low c.low) cs)
      (min_ᴰ_bounds low c.low).0

-- The last close lies within the bounds of all.
last-low :
    (low : Decimal) (c : IntradayCandle) (cs : List IntradayCandle)
    → All IsOrdered (c ∷ cs)
    → low ≤ᴰ c.low
    → lowest low cs ≤ᴰ (last_candle c cs).close
unfolding lowest
last-low low c [] h le = ≤ᴰ_trans low c.low c.close le h.0.2
last-low low c (d ∷ cs) h le = last-low (min_ᴰ low d.low) d cs h.1 (min_ᴰ_bounds low d.low).1

last-high :
    (high : Decimal) (c : IntradayCandle) (cs : List IntradayCandle)
    → All IsOrdered (c ∷ cs)
    → c.high ≤ᴰ high
    → (last_candle c cs).close ≤ᴰ highest high cs
unfolding highest
last-high high c [] h le = ≤ᴰ_trans c.close c.high high h.0.3 le
last-high high c (d ∷ cs) h le = last-high (max_ᴰ high d.high) d cs h.1 (max_ᴰ_bounds high d.high).1

five_minutes_of-IsOrdered :
    (one first : IntradayCandle) (rest : List IntradayCandle)
    → All IsOrdered (first ∷ rest)
    → IsOrdered (five_minutes_of one first rest)
unfolding five_minutes_of
five_minutes_of-IsOrdered one first rest h = (
  ≤ᴰ_trans (lowest first.low rest) first.low first.opening (lowest-le first.low rest) h.0.0,
  ≤ᴰ_trans first.opening first.high (highest first.high rest) h.0.1 (highest-ge first.high rest),
  last-low first.low first rest h (≤ᴰ_refl first.low),
  last-high first.high first rest h (≤ᴰ_refl first.high),
)

-- A call returns candles and caches whose prices are ordered.
pub record IsAnswered (r : Result (List IntradayCandle × Caches)) : Type 0 where
  pub candles : List IntradayCandle
  pub caches : Caches
  pub returns : r ≡ ok (candles, caches)
  pub one : IsOrderedCache caches.one
  pub five : IsOrderedCache caches.five
  pub ordered : All IsOrdered candles

close_other-IsOrdered :
    (start now : ℕ) (o : Option IntradayCandle) (cache : Cache)
    → OrderedCurrent o
    → IsOrderedCache cache
    → IsOrderedCache (close_other start now o cache)
unfolding finalize
close_other-IsOrdered start now none cache p h = h
close_other-IsOrdered start now (some c) cache p h =
    if_both IsOrderedCache (not (c.bucket_start == start)) _ _
      (save_candle-IsOrdered (finalize now c) cache p h) h

derived-IsAnswered :
    (one : IntradayCandle) (rows : List IntradayCandle) (s : Caches)
    → 1 ≤ length rows
    → IsOrdered one
    → All IsOrdered rows
    → IsOrderedCache s.one
    → IsOrderedCache s.five
    → IsAnswered (derived one rows s)
unfolding derived
derived-IsAnswered one [] s enough p h a b = absurd (omega (arith, enough))
derived-IsAnswered one (first ∷ rest) s enough p h a b =
    let candle = five_minutes_of one first rest in
    let closed = close_other candle.bucket_start one.updated_at s.five.current s.five in
    let fine = five_minutes_of-IsOrdered one first rest h in
    record {
      candles = one ∷ candle ∷ [];
      caches = record s { five = save_candle candle closed };
      returns = refl;
      one = a;
      five =
          save_candle-IsOrdered candle closed fine
            (close_other-IsOrdered candle.bucket_start one.updated_at s.five.current s.five b.0 b);
      ordered = (p, (fine, tt));
    }

five_minutes_around :
    (t : ℕ)
    → (bucket_start_of five_minutes t ≤ t)
      × (t ≤ bucket_start_of five_minutes t + minutes five_minutes * 60000000)
unfolding bucket_start_of minutes
five_minutes_around t = (omega arith, omega arith)

-- No other session has candles in the five minutes of a time.
abbrev pub AloneAt : ℕ → Caches → Type 0
AloneAt t s =
    let start = bucket_start_of five_minutes t in
    IsAlone start (start + minutes five_minutes * 60000000) s

derive_five_minute-IsAnswered :
    (c : IntradayCandle) (s : Caches)
    → AloneAt c.bucket_start s
    → find_key c.bucket_start s.one.candles ≡ some c
    → IsOrderedCache s.one
    → IsOrderedCache s.five
    → IsAnswered (derive_five_minute c s)
unfolding derive_five_minute
derive_five_minute-IsAnswered c s alone there a b =
    let start = bucket_start_of five_minutes c.bucket_start in
    let end = start + minutes five_minutes * 60000000 in
    let around = five_minutes_around c.bucket_start in
    let own =
      get_candles-own IsOrdered start end c.bucket_start s c alone a.1 there around.0 around.1 in
    derived-IsAnswered c (own_rows (get_candles start end 5 s)) s own.0
      (All-find_key IsOrdered c.bucket_start c s.one.candles a.1 there) own.1 a b

-- Where the open and the close of every cached candle lie between its low and its high, the
-- quote's minute began within the week for which candles are kept, and no other session of the
-- security has one-minute candles that start in the five minutes of it or at their end, `accept`
-- returns, for there is a one-minute candle to derive one of five minutes from, and the same holds
-- of what it yields and of every candle cached then.
pub accept_quote-IsAnswered :
    (q : Quote) (s : Caches)
    → s.one.clock < bucket_start_of one_minute q.exchange_timestamp + retention
    → AloneAt (bucket_start_of one_minute q.exchange_timestamp) s
    → IsOrderedCache s.one
    → IsOrderedCache s.five
    → IsAnswered (accept_quote q s)
unfolding accept_quote
accept_quote-IsAnswered q s recent alone a b =
    answered (accept q s.one).0 (accept-IsSaved q s.one recent) (accept-start q s.one)
      (accept-IsOrderedCache q s.one a)
  where
    answered :
        (o : Option IntradayCandle)
        → IsSaved (o, (accept q s.one).1)
        → IsOfMinute q (o, (accept q s.one).1)
        → IsOrderedCache (accept q s.one).1
        → IsAnswered (after_minute o (record s { one = (accept q s.one).1 }))
    answered none there of_minute h = record {
      candles = [];
      caches = record s { one = (accept q s.one).1 };
      returns = refl;
      one = h;
      five = b;
      ordered = tt;
    }
    answered (some c) there of_minute h =
        let next = record s { one = (accept q s.one).1 } in
        derive_five_minute-IsAnswered c next
          (subst (λ t. AloneAt t next) (sym (of_minute c refl)) alone) (there c refl) h b
