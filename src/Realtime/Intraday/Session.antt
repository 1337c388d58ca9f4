-- ===== src/Realtime/Intraday/Session.antt =====
-- The shares of a session: what the candles hold against what the feed's totals say
-- (backend/app/services/intraday_candle_aggregator.py).
use tw_stock_android_spec.Base.{
  ℕ, ◌+◌, ◌≤◌, ◌<◌, ◌≡◌, false, none, some, List, [], ◌∷◌, ◌==◌, All, filter, ltb, true, refl, ap,
  if◌then◌else◌, inl, inr, Bool-cases, arith,
}
use tw_stock_android_spec.Base.Assoc.{nat_eq, find_key, put}
use tw_stock_android_spec.Realtime.Quote.{one_minute, minutes}
use tw_stock_android_spec.Realtime.Intraday.{
  IntradayCandle, Cache, bucket_start_of, one_day, retention, is_retained, save_candle,
}

abbrev pub new_cache : Cache
new_cache = record {
  current = none;
  candles = [];
  baseline = none;
  clock = 0;
  current_until = 0;
  baseline_until = 0;
}

-- The shares in all candles
abbrev pub traded : List (ℕ × IntradayCandle) → ℕ
traded [] = 0
traded ((start, c) ∷ candles) = c.volume + traded candles

pub traded-put_there :
    (k : ℕ) (c d : IntradayCandle) (candles : List (ℕ × IntradayCandle))
    → find_key k candles ≡ some c
    → traded (put k d candles) + c.volume ≡ traded candles + d.volume
traded-put_there k c d [] h = cc
traded-put_there k c d ((start, e) ∷ candles) h = elim (Bool-cases (start == k)) [
  | inl t ↦
      let same : some e ≡ some c = rw t at h in
      let volume : e.volume ≡ c.volume = cc in rw t (omega (arith, volume))
  | inr t ↦ let rest = traded-put_there k c d candles (rw t at h) in rw t (omega (arith, rest))
]

pub traded-put_new :
    (k : ℕ) (d : IntradayCandle) (candles : List (ℕ × IntradayCandle))
    → All (λ e. e.0 < k) candles
    → traded (put k d candles) ≡ traded candles + d.volume
traded-put_new k d [] h = omega arith
traded-put_new k d ((start, e) ∷ candles) h =
    let other : start == k ≡ false = ground (arith, h.0) in
    rw other (omega (arith, traded-put_new k d candles h.1))

pub starts-put :
    (n k : ℕ) (c : IntradayCandle) (candles : List (ℕ × IntradayCandle))
    → k ≤ n
    → All (λ e. e.0 ≤ n) candles
    → All (λ e. e.0 ≤ n) (put k c candles)
starts-put n k c [] h a = (h, tt)
starts-put n k c ((start, e) ∷ candles) h a = elim (Bool-cases (start == k)) [
  | inl t ↦ rw t a
  | inr t ↦ rw t (a.0, starts-put n k c candles h a.1)
]

pub starts_before :
    (m n : ℕ) (candles : List (ℕ × IntradayCandle))
    → m < n
    → All (λ e. e.0 ≤ m) candles
    → All (λ e. e.0 < n) candles
starts_before m n [] h a = tt
starts_before m n ((start, e) ∷ candles) h a =
    (omega (arith, h, a.0), starts_before m n candles h a.1)

pub bucket_start_mono :
    (s t : ℕ) → s ≤ t → bucket_start_of one_minute s ≤ bucket_start_of one_minute t
unfolding bucket_start_of minutes
bucket_start_mono s t h = omega (arith, h)

-- Candles that begin at a time or later
abbrev pub Since : ℕ → List (ℕ × IntradayCandle) → Type 0
Since base = All (λ e. base ≤ e.0)

pub Since-put :
    (base k : ℕ) (c : IntradayCandle) (candles : List (ℕ × IntradayCandle))
    → base ≤ k
    → Since base candles
    → Since base (put k c candles)
Since-put base k c [] h a = (h, tt)
Since-put base k c ((start, e) ∷ candles) h a = elim (Bool-cases (start == k)) [
  | inl t ↦ rw t a
  | inr t ↦ rw t (a.0, Since-put base k c candles h a.1)
]

retained-Since :
    (now base : ℕ) (candles : List (ℕ × IntradayCandle))
    → now < base + retention
    → Since base candles
    → filter (is_retained now) candles ≡ candles
retained-Since now base [] h a = refl
retained-Since now base ((start, e) ∷ candles) h a =
    let kept : ltb now (start + retention) ≡ true = ground (arith, h, a.0) in
    rw kept (ap (◌∷◌ (start, e)) (retained-Since now base candles h a.1))

-- A saving that removes no candle
abbrev pub saved_whole : IntradayCandle → Cache → Cache
saved_whole c cache = record cache {
  candles = put c.bucket_start c cache.candles;
  current = if c.is_final then none else some c;
  current_until = cache.clock + one_day;
}

pub save_candle-whole :
    (base : ℕ) (c : IntradayCandle) (cache : Cache)
    → cache.clock < base + retention
    → base ≤ c.bucket_start
    → Since base cache.candles
    → save_candle c cache ≡ saved_whole c cache
unfolding save_candle
save_candle-whole base c cache h le a =
    ap (λ cs. record (saved_whole c cache) { candles = cs })
      (retained-Since cache.clock base (put c.bucket_start c cache.candles) h
        (Since-put base c.bucket_start c cache.candles le a))
